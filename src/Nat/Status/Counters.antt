-- ===== src/Nat/Status/Counters.antt =====
-- src/nat/status.rs: which counters are reported.
use gust.Prelude.{◌≡◌, refl, ap, ◌∙◌, List, [], ◌∷◌, ◌++◌, Option, none, some, All, some-injective}
use gust.Text.{Text, codes, strip_prefix}
use gust.Text.Cut.{strip_prefix_sound}
use gust.Nat.Status.Numbers.{IsNumber, stat_of-StatIs, StatIs-stat_of}
use gust.Nat.Status.{
  CounterStat, Json, ◌>>=◌, or_else, gust_comment, onto, first_counter, item_stat, item_stats,
  parse_counters,
}

bind-some :
    {A B : Type 0} (o : Option A) (f : A → Option B) (b : B)
    → (o >>= f) ≡ some b
    → (a : A) × (o ≡ some a) × (f a ≡ some b)
bind-some none f b h = absurd (cc)
bind-some (some a) f b h = (a, refl, h)

gust_comment_sound :
    (s c : Text) → gust_comment s ≡ some c → (rest : Text) × (s ≡ codes "gust:" ++ rest) × (c ≡ s)
gust_comment_sound s c h = by_prefix (strip_prefix (codes "gust:") s) refl h
  where
    by_prefix :
        (o : Option Text)
        → strip_prefix (codes "gust:") s ≡ o
        → elim o [ none ↦ none | some rest ↦ some s ] ≡ some c
        → (rest : Text) × (s ≡ codes "gust:" ++ rest) × (c ≡ s)
    by_prefix none k eq = absurd (cc)
    by_prefix (some rest) k eq = (rest, strip_prefix_sound (codes "gust:") s rest k, cc)

gust_comment-append :
    (rest : Text) → gust_comment (codes "gust:" ++ rest) ≡ some (codes "gust:" ++ rest)
unfolding strip_prefix
gust_comment-append rest = refl

-- only a text that is there has our prefix
given_comment :
    (o : Option Text) (c : Text)
    → gust_comment (or_else o []) ≡ some c
    → (rest : Text) × (o ≡ some (codes "gust:" ++ rest)) × (c ≡ codes "gust:" ++ rest)
given_comment none c h = let (rest, e, _) = gust_comment_sound [] c h in absurd (cc)
given_comment (some s) c h = let (rest, e, k) = gust_comment_sound s c h in (rest, ap some e, k ∙ e)

module _ {J : Type 0} (json : Json J) where
  -- The counter is that of the first expression that has one.
  abbrev pub FirstCounter : List J → J → Type 0
  FirstCounter exprs counter =
      (before : List J) × (e : J) × (after : List J) × (exprs ≡ before ++ e ∷ after)
      × All (λ x. json.get (codes "counter") x ≡ none) before
      × (json.get (codes "counter") e ≡ some counter)

  -- An item of the list that holds a rule with a comment of ours and a counter, and what it says.
  abbrev pub Reports : J → CounterStat → Type 0
  Reports item stat =
      (rule text exprs_value counter : J) × (exprs : List J) × (rest : Text) × (json.get
          (codes "rule") item
        ≡ some rule)
      × (json.get (codes "comment") rule ≡ some text)
      × (json.as_str text ≡ some (codes "gust:" ++ rest))
      × (json.get (codes "expr") rule ≡ some exprs_value)
      × (json.as_array exprs_value ≡ some exprs)
      × FirstCounter exprs counter
      × (stat.comment ≡ codes "gust:" ++ rest)
      × IsNumber json (codes "packets") counter stat.packets
      × IsNumber json (codes "bytes") counter stat.bytes

  -- The statistics are those of the items that report one, in their order.
  pub data AllReports : List J → List CounterStat → Type 0 where
    nothing : AllReports [] []
    reports :
        (item : J) (stat : CounterStat) (items : List J) (stats : List CounterStat)
        → Reports item stat
        → AllReports items stats
        → AllReports (item ∷ items) (stat ∷ stats)
    silent :
        (item : J) (items : List J) (stats : List CounterStat)
        → ((stat : CounterStat) → Reports item stat → ⊥)
        → AllReports items stats
        → AllReports (item ∷ items) stats

  first_counter_sound :
      (exprs : List J) (counter : J)
      → first_counter json exprs ≡ some counter
      → FirstCounter exprs counter
  unfolding first_counter
  first_counter_sound [] counter h = absurd (cc)
  first_counter_sound (e ∷ exprs) counter h =
      by_get (json.get (codes "counter") e) refl h (first_counter_sound exprs counter)
    where
      by_get :
          (o : Option J)
          → json.get (codes "counter") e ≡ o
          → elim o [ none ↦ first_counter json exprs | some c ↦ some c ] ≡ some counter
          → (first_counter json exprs ≡ some counter → FirstCounter exprs counter)
          → FirstCounter (e ∷ exprs) counter
      by_get (some c) k eq f = ([], e, exprs, refl, tt, k ∙ eq)
      by_get none k eq f =
          let (before, x, after, split, lacks, got) = f eq in
          (e ∷ before, x, after, ap (◌∷◌ e) split, (k, lacks), got)

  first_counter_complete :
      (before : List J) (e : J) (after : List J) (counter : J)
      → All (λ x. json.get (codes "counter") x ≡ none) before
      → json.get (codes "counter") e ≡ some counter
      → first_counter json (before ++ e ∷ after) ≡ some counter
  unfolding first_counter
  first_counter_complete [] e after counter h k = rw k
  first_counter_complete (x ∷ before) e after counter (h, hs) k =
      rw h (first_counter_complete before e after counter hs k)

  item_stat_sound :
      (item : J) (stat : CounterStat) → item_stat json item ≡ some stat → Reports item stat
  unfolding item_stat
  item_stat_sound item stat h =
      let (rule, r, h1) = bind-some (json.get (codes "rule") item) _ stat h in
      let (comment, c, h2) =
        bind-some (gust_comment (or_else (json.get (codes "comment") rule >>= json.as_str) [])) _
          stat h1 in
      let (exprs, x, h3) = bind-some (json.get (codes "expr") rule >>= json.as_array) _ stat h2 in
      let (counter, k, h4) = bind-some (first_counter json exprs) _ stat h3 in
      let (rest, text_is, c_is) =
        given_comment (json.get (codes "comment") rule >>= json.as_str) comment c in
      let (text, t, s) =
        bind-some (json.get (codes "comment") rule) json.as_str (codes "gust:" ++ rest) text_is in
      let (exprs_value, v, a) = bind-some (json.get (codes "expr") rule) json.as_array exprs x in
      let (comment_is, packets_are, bytes_are) =
        stat_of-StatIs json (codes "gust:" ++ rest) comment counter stat (some-injective h4) c_is in
      (
        rule,
        text,
        exprs_value,
        counter,
        exprs,
        rest,
        r,
        t,
        s,
        v,
        a,
        first_counter_sound exprs counter k,
        comment_is,
        packets_are,
        bytes_are,
      )

  item_stat_complete :
      (item : J) (stat : CounterStat) → Reports item stat → item_stat json item ≡ some stat
  unfolding item_stat
  item_stat_complete item stat
        (
          rule,
          text,
          exprs_value,
          counter,
          exprs,
          rest,
          r,
          t,
          s,
          v,
          a,
          (before, e, after, split, lacks, got),
          comment_is,
          packets_are,
          bytes_are,
        ) =
      rw
        (
          r,
          t,
          s,
          gust_comment-append rest,
          v,
          a,
          split,
          first_counter_complete before e after counter lacks got,
        )
        (ap some (
          StatIs-stat_of json (codes "gust:" ++ rest) counter stat
            (comment_is, packets_are, bytes_are)))

  item_stats-AllReports : (items : List J) → AllReports items (item_stats json items)
  unfolding item_stats
  item_stats-AllReports [] = nothing
  item_stats-AllReports (item ∷ items) =
      by_item (item_stat json item) refl (item_stats-AllReports items)
    where
      by_item :
          (o : Option CounterStat)
          → item_stat json item ≡ o
          → AllReports items (item_stats json items)
          → AllReports (item ∷ items) (onto o (item_stats json items))
      by_item none h rest =
          silent item items (item_stats json items)
            (λ stat k. (let e = item_stat_complete item stat k in cc)) rest
      by_item (some stat) h rest =
          reports item stat items (item_stats json items) (item_stat_sound item stat h) rest

  -- Where the text is JSON with an array of `nftables`, the statistics are those of its items that
  -- report one, and of no other, in their order: an item reports if it holds a rule whose comment
  -- begins with `gust:` and that has an expression with a counter, the first of which counts, and
  -- a number that is missing or no `u64` is 0.
  pub parse_counters-AllReports :
      (text : Text) (root nftables : J) (items : List J)
      → json.from_str text ≡ some root
      → json.get (codes "nftables") root ≡ some nftables
      → json.as_array nftables ≡ some items
      → AllReports items (parse_counters json text)
  unfolding parse_counters
  parse_counters-AllReports text root nftables items f g a =
      rw (f, g, a) (item_stats-AllReports items)
