-- ===== src/Util/Dictionary/Duplicate.antt =====
-- `dictDuplicate` of src/util/dictionary.c makes a copy that is well formed and holds copies.
use mathlib.Core.Path.{subst}
use kanana.Base.{
  ℕ, suc, ◌+◌, ◌<◌, ◌≤◌, ◌%◌, ◌≡◌, ◌≢◌, inl, inr, refl, sym, ap, ◌∙◌, arith, Option, none, some,
  List, [], ◌∷◌, Bool, Bool-cases, All, length, replicate, length-replicate,
}
use kanana.Util.Map.{Node, Map, item_of}
use kanana.Util.Map.Chain.{Joins, IsChain, Distinct, assoc}
use kanana.Util.Map.Lookup.{IsMap, held}
use kanana.Util.Map.WellFormed.{get_elem?-replicate}
use kanana.Util.Dictionary.Heads.{
  dict_node_duplicate, dict_duplicate, same_length, fill_heads-first,
}

abbrev pub copied {ℓ} : {V : Type ℓ} → (V → V) → Option V → Option V
copied copy none = none
copied copy (some v) = some (copy v)

module _ {ℓ} {K V : Type ℓ} where
  copies-All :
      (P Q : Node K V → Type 0) (copy : V → V)
      → ((n : Node K V) (a : ℕ) → P n → Q (record n { addr = a; item = copy n.item }))
      → (a : ℕ) (ns : List (Node K V)) → All P ns
      → All Q (dict_node_duplicate copy a ns)
  unfolding dict_node_duplicate
  copies-All P Q copy f a [] _ = tt
  copies-All P Q copy f a (n ∷ ns) (h, hs) = (f n a h, copies-All P Q copy f (suc a) ns hs)

  Joins-copies :
      (copy : V → V) (c a : ℕ) (ns : List (Node K V))
      → Joins c ns
      → Joins c (dict_node_duplicate copy a ns)
  unfolding dict_node_duplicate
  Joins-copies copy c a [] _ = tt
  Joins-copies copy c a (n ∷ ns) (inl e) = inl e
  Joins-copies copy c a (n ∷ ns) (inr (h, hs)) =
      inr (h, copies-All (λ m. m.bucket ≢ c) (λ m. m.bucket ≢ c) copy (λ _ _ h. h) (suc a) ns hs)

  copies-IsChain :
      (copy : V → V) (a : ℕ) (ns : List (Node K V))
      → IsChain ns
      → IsChain (dict_node_duplicate copy a ns)
  unfolding dict_node_duplicate
  copies-IsChain copy a [] _ = tt
  copies-IsChain copy a (n ∷ ns) (j, chain) =
      (Joins-copies copy n.bucket (suc a) ns j, copies-IsChain copy (suc a) ns chain)

  copies-apart :
      (copy : V → V) (c a : ℕ) (ns : List (Node K V))
      → c < a
      → All (λ n. n.addr ≢ c) (dict_node_duplicate copy a ns)
  unfolding dict_node_duplicate
  copies-apart copy c a [] h = tt
  copies-apart copy c a (n ∷ ns) h =
      ((λ e. omega (arith, h, e)), copies-apart copy c (suc a) ns (omega (arith, h)))

  copies-Distinct :
      (copy : V → V) (a : ℕ) (ns : List (Node K V)) → Distinct (dict_node_duplicate copy a ns)
  unfolding dict_node_duplicate
  copies-Distinct copy a [] = tt
  copies-Distinct copy a (n ∷ ns) =
      (copies-apart copy a (suc a) ns (omega arith), copies-Distinct copy (suc a) ns)

  copies-below :
      (copy : V → V) (a bound : ℕ) (ns : List (Node K V))
      → a + length ns ≤ bound
      → All (λ n. n.addr < bound) (dict_node_duplicate copy a ns)
  unfolding dict_node_duplicate
  copies-below copy a bound [] h = tt
  copies-below copy a bound (n ∷ ns) h =
      (omega (arith, h), copies-below copy (suc a) bound ns (omega (arith, h)))

  length-copies :
      (copy : V → V) (a : ℕ) (ns : List (Node K V))
      → length (dict_node_duplicate copy a ns) ≡ length ns
  unfolding dict_node_duplicate
  length-copies copy a [] = refl
  length-copies copy a (n ∷ ns) = ap suc (length-copies copy (suc a) ns)

module _ {ℓ} {K V : Type ℓ} (same : K → K → Bool) (hash : K → ℕ) where
  assoc-copies :
      (copy : V → V) (k : K) (a : ℕ) (ns : List (Node K V))
      → item_of same hash (assoc same hash k (dict_node_duplicate copy a ns))
        ≡ copied copy (item_of same hash (assoc same hash k ns))
  unfolding dict_node_duplicate
  assoc-copies copy k a [] = refl
  assoc-copies copy k a (n ∷ ns) = elim (Bool-cases (same k n.key)) [
    | inl e ↦ rw e refl
    | inr e ↦ rw e (assoc-copies copy k (suc a) ns)
  ]

  in_range :
      (count : ℕ) (ns : List (Node K V))
      → 0 < count
      → All (λ n. n.bucket ≡ hash n.key % count) ns
      → All (λ n. n.bucket < count) ns
  in_range count [] h _ = tt
  in_range count (n ∷ ns) h (e, es) = (omega (arith, h, e), in_range count ns h es)

  -- `dictDuplicate` of a well-formed dictionary succeeds and ends in a well-formed dictionary, in which
  -- every key has the copy of what it had.
  pub dict_duplicate-IsMap :
      (copy : V → V) (d : Map K V)
      → IsMap same hash d
      → (d' : Map K V) × (dict_duplicate copy d ≡ some d')
        × IsMap same hash d'
        × ((k : K) → held same hash d' k ≡ copied copy (held same hash d k))
  unfolding dict_duplicate
  dict_duplicate-IsMap copy d (pos, _, hashed, chain, _, _, size) =
      let ns = dict_node_duplicate copy d.fresh d.nodes in
      let empty : List (Option ℕ) = replicate (length d.heads) none in
      let len0 : length empty ≡ length d.heads = length-replicate (length d.heads) none in
      let hashed' =
        copies-All (λ n. n.bucket ≡ hash n.key % length d.heads)
          (λ n. n.bucket ≡ hash n.key % length d.heads) copy (λ _ _ h. h) d.fresh d.nodes hashed in
      let (heads, run, (len, filled)) = fill_heads-first ns empty (
        same_length (length d.heads) (length empty) ns len0
          (in_range (length d.heads) ns pos hashed')) in
      let count = len ∙ len0 in
      (
        record { heads = heads; nodes = ns; size = d.size; fresh = d.fresh + length d.nodes },
        rw run refl,
        (
          rw count pos,
          (λ b h. filled b none (get_elem?-replicate (length d.heads) b none (rw (len) at h))),
          subst (λ c. All (λ n. n.bucket ≡ hash n.key % c) ns) (sym count) hashed',
          copies-IsChain copy d.fresh d.nodes chain,
          copies-Distinct copy d.fresh d.nodes,
          copies-below copy d.fresh (d.fresh + length d.nodes) d.nodes (omega arith),
          length-copies copy d.fresh d.nodes ∙ size,
        ),
        (λ k. assoc-copies copy k d.fresh d.nodes),
      )
