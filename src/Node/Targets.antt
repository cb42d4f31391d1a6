-- ===== src/Node/Targets.antt =====
-- `Node::targets` of src/node.rs: the destinations of a listener.
use gust.Prelude.{◌≡◌, ◌≢◌, refl, ap, ◌∙◌, List, [], ◌∷◌, ◌++◌, All, Lacks, is_empty-ne, append-nil}
use gust.Text.{Text, split, trim, is_whitespace}
use gust.Text.Cut.{split-Lacks-All, split-append, split-Lacks}
use gust.Text.Trim.{
  NoStart, NoEnd, trim_matches-NoStart, trim_matches-NoEnd, trim_matches-All, trim_matches_id,
}
use gust.Node.{Node, trimmed_parts, targets, keep_nonempty}

-- A destination as the listener uses it: not empty, without a comma, and without white space at
-- its ends.
pub record IsTarget (t : Text) : Type 0 where
  pub ne_nil : t ≢ []
  pub one_part : Lacks b',' t
  pub starts : NoStart is_whitespace t
  pub ends : NoEnd is_whitespace t

keep_nonempty-IsTarget :
    (t : Text) (ts : List Text)
    → Lacks b',' t
    → NoStart is_whitespace t
    → NoEnd is_whitespace t
    → All IsTarget ts
    → All IsTarget (keep_nonempty t ts)
keep_nonempty-IsTarget [] ts l s e h = h
keep_nonempty-IsTarget (c ∷ t) ts l s e h =
    (record { ne_nil = λ q. cc; one_part = l; starts = s; ends = e }, h)

trimmed_parts-IsTarget : (ts : List Text) → All (Lacks b',') ts → All IsTarget (trimmed_parts ts)
unfolding trimmed_parts trim
trimmed_parts-IsTarget [] h = tt
trimmed_parts-IsTarget (t ∷ ts) h =
    keep_nonempty-IsTarget (trim t) (trimmed_parts ts)
      (trim_matches-All (λ c. c ≢ b',') is_whitespace t h.0) (trim_matches-NoStart is_whitespace t)
      (trim_matches-NoEnd is_whitespace t) (trimmed_parts-IsTarget ts h.1)

-- Each destination that a node yields is not empty, has no comma and no white space at its ends.
pub targets-IsTarget : (n : Node) → All IsTarget (targets n)
unfolding targets
targets-IsTarget n = trimmed_parts-IsTarget (split b',' n.target) (split-Lacks-All b',' n.target)

-- `t,t,…`
abbrev pub more_targets : List Text → Text
more_targets [] = []
more_targets (t ∷ ts) = b',' ∷ (t ++ more_targets ts)

abbrev pub join_targets : List Text → Text
join_targets [] = []
join_targets (t ∷ ts) = t ++ more_targets ts

trim_target : (t : Text) → IsTarget t → trim t ≡ t
unfolding trim
trim_target t v = trim_matches_id is_whitespace t v.starts v.ends

keep_target : (t : Text) (ts : List Text) → IsTarget t → keep_nonempty (trim t) ts ≡ t ∷ ts
keep_target t ts v =
    ap (λ (u : Text). keep_nonempty u ts) (trim_target t v) ∙ (rw (is_empty-ne t v.ne_nil))

trimmed_parts_cons :
    (t : Text) (ps : List Text) → IsTarget t → trimmed_parts (t ∷ ps) ≡ t ∷ trimmed_parts ps
unfolding trimmed_parts
trimmed_parts_cons t ps v = keep_target t (trimmed_parts ps) v

trimmed_parts-join :
    (t : Text) (ts : List Text)
    → IsTarget t
    → All IsTarget ts
    → trimmed_parts (split b',' (t ++ more_targets ts)) ≡ t ∷ ts
trimmed_parts-join t [] v vs =
    ap trimmed_parts (ap (split b',') (append-nil t) ∙ split-Lacks b',' t v.one_part)
    ∙ trimmed_parts_cons t [] v
    ∙ (unfold trimmed_parts in refl)
trimmed_parts-join t (u ∷ ts) v vs =
    ap trimmed_parts (split-append b',' t (u ++ more_targets ts) v.one_part)
    ∙ trimmed_parts_cons t _ v
    ∙ ap (◌∷◌ t) (trimmed_parts-join u ts vs.0 vs.1)

-- A target list written with commas is split into its destinations, in order.
pub targets-join :
    (n : Node) (ts : List Text) → n.target ≡ join_targets ts → All IsTarget ts → targets n ≡ ts
unfolding targets
targets-join n [] e vs = rw e (unfold trimmed_parts split trim in refl)
targets-join n (t ∷ ts) e vs = rw e (trimmed_parts-join t ts vs.0 vs.1)
