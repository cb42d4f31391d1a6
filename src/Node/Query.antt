-- ===== src/Node/Query.antt =====
-- The query of a node string: what the map holds after the pairs are read.
use gust.Prelude.{
  ◌≡◌, refl, ap, ◌∙◌, false, List, [], ◌∷◌, ◌++◌, append_assoc, append-nil, some, arith, All,
  All-append, Lacks, list_eq, list_eq_iff, if◌then◌else◌,
}
use gust.Text.{Text, cut, split}
use gust.Text.Cut.{cut-append, split-Lacks, split-append}
use gust.Node.{Query, query_get, query_insert, insert_pair, query_pairs}

-- A look-up after an insert: the last value given to a key counts.
pub query_get-insert :
    (k j v : Text) (q : Query)
    → query_get j (query_insert k v q) ≡ (if list_eq k j then some v else query_get j q)
unfolding query_get query_insert
query_get-insert k j v [] = refl
query_get-insert k j v ((i, w) ∷ q) =
    ground (arith, list_eq_iff k j, list_eq_iff i k, list_eq_iff i j, query_get-insert k j v q)

abbrev pub KeyNe : Text → Text × Text → Type 0
KeyNe k (j, w) = list_eq j k ≡ false

query_insert_new :
    (k v : Text) (q : Query) → All (KeyNe k) q → query_insert k v q ≡ q ++ (k, v) ∷ []
unfolding query_insert
query_insert_new k v [] h = refl
query_insert_new k v ((j, w) ∷ q) (h, hs) = rw (h, query_insert_new k v q hs)

-- `k=v`
abbrev pub pair_text : Text × Text → Text
pair_text (k, v) = k ++ b'=' ∷ v

insert_pair_text :
    (k v : Text) (q : Query) → Lacks b'=' k → insert_pair (pair_text (k, v)) q ≡ query_insert k v q
insert_pair_text [] v q h = unfold cut in refl
insert_pair_text (c ∷ k) v q h = rw (cut-append b'=' (c ∷ k) v h, insert_pair)

-- No pair has a key of `seen` or of a pair before it.
abbrev pub DistinctFrom : Query → Query → Type 0
DistinctFrom seen [] = Unit {0}
DistinctFrom seen ((k, v) ∷ q) = All (KeyNe k) seen × DistinctFrom (seen ++ (k, v) ∷ []) q

abbrev pub HasPlainPair : Text × Text → Type 0
HasPlainPair (k, v) = Lacks b'=' k × Lacks b'&' k × Lacks b'&' v

-- `k=v` pairs with `&` between them
abbrev pub more_pairs : Query → Text
more_pairs [] = []
more_pairs (kv ∷ q) = b'&' ∷ pair_text kv ++ more_pairs q

abbrev pub query_text : Query → Text
query_text [] = []
query_text (kv ∷ q) = pair_text kv ++ more_pairs q

pair_text-Lacks : (k v : Text) → HasPlainPair (k, v) → Lacks b'&' (pair_text (k, v))
pair_text-Lacks k v h = All-append _ k (b'=' ∷ v) h.1 (ground arith, h.2)

query_pairs_step :
    (k v : Text) (ps : List Text) (seen : Query)
    → Lacks b'=' k
    → All (KeyNe k) seen
    → query_pairs (pair_text (k, v) ∷ ps) seen ≡ query_pairs ps (seen ++ (k, v) ∷ [])
unfolding query_pairs
query_pairs_step k v ps seen h n =
    ap (query_pairs ps) (insert_pair_text k v seen h ∙ query_insert_new k v seen n)

query_pairs-more :
    (k v : Text) (q seen : Query)
    → HasPlainPair (k, v)
    → All HasPlainPair q
    → DistinctFrom seen ((k, v) ∷ q)
    → query_pairs (split b'&' (pair_text (k, v) ++ more_pairs q)) seen ≡ seen ++ (k, v) ∷ q
query_pairs-more k v [] seen h _ (n, _) =
    ap (λ (t : Text). query_pairs (split b'&' t) seen) (append-nil (pair_text (k, v)))
    ∙ ap (λ ps. query_pairs ps seen) (split-Lacks b'&' (pair_text (k, v)) (pair_text-Lacks k v h))
    ∙ query_pairs_step k v [] seen h.0 n
    ∙ (unfold query_pairs in refl)
query_pairs-more k v ((j, w) ∷ q) seen h (g, gs) (n, d) =
    ap (λ ps. query_pairs ps seen)
      (split-append b'&' (pair_text (k, v)) (pair_text (j, w) ++ more_pairs q)
        (pair_text-Lacks k v h))
    ∙ query_pairs_step k v _ seen h.0 n
    ∙ query_pairs-more j w q (seen ++ (k, v) ∷ []) g gs d
    ∙ append_assoc seen ((k, v) ∷ []) ((j, w) ∷ q)

-- If the keys differ and have no `=` and `&`, and no value has `&`, the loop over the pairs gives
-- the map back that was printed.
pub query_pairs-query_text :
    (q : Query)
    → All HasPlainPair q
    → DistinctFrom [] q
    → query_pairs (split b'&' (query_text q)) [] ≡ q
query_pairs-query_text [] h d = unfold split query_pairs in refl
query_pairs-query_text ((k, v) ∷ q) (h, hs) d = query_pairs-more k v q [] h hs d
