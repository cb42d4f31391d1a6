-- ===== src/Nat/Status.antt =====
-- src/nat/status.rs: the counters in the JSON that `nft` prints, and the heartbeat of
-- src/nat/linux.rs. The values of serde_json and their accessors are parameters.
pub mod Numbers
pub mod Counters
use gust.Prelude.{ℕ, ◌+◌, ◌%◌, List, [], ◌∷◌, ◌++◌, Option, none, some, length}
use gust.Text.{Text, codes, strip_prefix}
use gust.Text.Number.{show}
use gust.Stats.{two_64}

pub record CounterStat : Type 0 where
  pub comment : Text
  pub packets : ℕ
  pub bytes : ℕ

-- `serde_json::Value`
pub record Json (J : Type 0) : Type 0 where
  pub from_str : Text → Option J
  pub get : Text → J → Option J
  pub as_array : J → Option (List J)
  pub as_str : J → Option Text
  pub as_u64 : J → Option ℕ

infixl 5 ◌>>=◌
abbrev pub ◌>>=◌ : {A B : Type 0} → Option A → (A → Option B) → Option B
none >>= f = none
some a >>= f = f a

abbrev pub or_else : {A : Type 0} → Option A → A → A
or_else none d = d
or_else (some a) d = a

-- `if !comment.starts_with("gust:")`
abbrev pub gust_comment : Text → Option Text
gust_comment s = elim (strip_prefix (codes "gust:") s) [ none ↦ none | some rest ↦ some s ]

abbrev pub onto : {A : Type 0} → Option A → List A → List A
onto none xs = xs
onto (some x) xs = x ∷ xs

module _ {J : Type 0} (json : Json J) where
  abbrev pub number_at : Text → J → ℕ
  number_at key v = or_else (json.get key v >>= json.as_u64) 0

  abbrev pub stat_of : Text → J → CounterStat
  stat_of comment counter = record {
    comment = comment;
    packets = number_at (codes "packets") counter;
    bytes = number_at (codes "bytes") counter;
  }

  -- the loop over the expressions of a rule, up to the first counter
  unfoldable pub first_counter : List J → Option J
  first_counter [] = none
  first_counter (e ∷ exprs) = elim (json.get (codes "counter") e) [
    | none ↦ first_counter exprs
    | some counter ↦ some counter
  ]

  -- one round of the loop over the items
  unfoldable pub item_stat : J → Option CounterStat
  item_stat item = do
    rule ← json.get (codes "rule") item
    comment ← gust_comment (or_else (json.get (codes "comment") rule >>= json.as_str) [])
    exprs ← json.get (codes "expr") rule >>= json.as_array
    counter ← first_counter exprs
    some (stat_of comment counter)

  unfoldable pub item_stats : List J → List CounterStat
  item_stats [] = []
  item_stats (item ∷ items) = onto (item_stat item) (item_stats items)

  unfoldable pub parse_counters : Text → List CounterStat
  parse_counters text =
      or_else
        (do
          root ← json.from_str text
          items ← json.get (codes "nftables") root >>= json.as_array
          some (item_stats items))
        []

-- the sum of a counter, from `acc` on, in the release profile's arithmetic
unfoldable pub sum_of : (CounterStat → ℕ) → ℕ → List CounterStat → ℕ
sum_of field acc [] = acc
sum_of field acc (s ∷ stats) = sum_of field ((acc + field s) % two_64) stats

abbrev pub stat_lines : List CounterStat → List Text
stat_lines [] = []
stat_lines (s ∷ stats) =
    (s.comment ++ (codes " packets=" ++ (show s.packets ++ (codes " bytes=" ++ show s.bytes))))
    ∷ stat_lines stats

abbrev pub heartbeat_text : List CounterStat → Text
heartbeat_text stats =
    codes "heartbeat(nat): tunnels="
    ++ (show (length stats)
        ++ (codes " packets="
            ++ (show (sum_of (λ s. s.packets) 0 stats)
                ++ (codes " bytes=" ++ show (sum_of (λ s. s.bytes) 0 stats)))))

module _ {J : Type 0} (json : Json J) where
  -- the lines that `dump_status` logs, for what `list_json` gives
  unfoldable pub dump_status : Option Text → List Text
  dump_status none = codes "NAT status unavailable (table missing or nft error)" ∷ []
  dump_status (some text) =
      let stats = parse_counters json text in
      (codes "--- NAT status (" ++ (show (length stats) ++ codes " tunnels) ---"))
      ∷ stat_lines stats

  -- the line of a heartbeat
  unfoldable pub nat_heartbeat : Option Text → Text
  nat_heartbeat none = codes "heartbeat(nat): table missing"
  nat_heartbeat (some text) = heartbeat_text (parse_counters json text)
