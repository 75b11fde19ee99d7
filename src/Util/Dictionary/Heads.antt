-- ===== src/Util/Dictionary/Heads.antt =====
-- `dictDuplicate` of src/util/dictionary.c, and the bucket pointers that it makes from the copied list.
use mathlib.Core.Path.{subst}
use kanana.Base.{
  ℕ, suc, ◌+◌, ◌<◌, ◌≡◌, ◌≢◌, inl, inr, refl, sym, ap, ◌∙◌, Option, none, some, List, [], ◌∷◌, ◌==◌,
  ==_iff, Bool-cases, All, length, get_elem?, get_or, set, length-set, replicate,
}
use kanana.Base.Memory.{◌>>=◌, store, store-some, get_elem?-some}
use kanana.Util.Map.{Node, Map}
use kanana.Util.Map.Chain.{first, clash}
use kanana.Util.Map.Lookup.{some-injective}
use kanana.Util.Map.WellFormed.{get_elem?-set_same, get_elem?-set_other}

-- A pointer that is set stays.
abbrev pub or_first : Option ℕ → Option ℕ → Option ℕ
or_first none o = o
or_first (some a) o = some a

or_first-none :
    (heads : List (Option ℕ)) (b : ℕ) (h : Option ℕ)
    → get_elem? heads b ≡ some h
    → get_elem? heads b ≡ some (or_first h none)
or_first-none heads b none e = e
or_first-none heads b (some a) e = e

module _ {ℓ} {K V : Type ℓ} where
  -- `dictNodeDuplicate`, into new nodes from an address on.
  unfoldable pub dict_node_duplicate : (V → V) → ℕ → List (Node K V) → List (Node K V)
  dict_node_duplicate copy a [] = []
  dict_node_duplicate copy a (n ∷ ns) =
      record n { addr = a; item = copy n.item } ∷ dict_node_duplicate copy (suc a) ns

  abbrev pub set_head : Option ℕ → Node K V → List (Option ℕ) → Option (List (Option ℕ))
  set_head none n heads = store heads n.bucket (some n.addr)
  set_head (some a) n heads = some heads

  -- The loop that fills in the bucket pointers.
  unfoldable pub fill_heads : List (Node K V) → List (Option ℕ) → Option (List (Option ℕ))
  fill_heads [] heads = some heads
  fill_heads (n ∷ ns) heads = do
    head ← get_elem? heads n.bucket
    heads' ← set_head head n heads
    fill_heads ns heads'

  unfoldable pub dict_duplicate : (V → V) → Map K V → Option (Map K V)
  dict_duplicate copy d = do
    let nodes = dict_node_duplicate copy d.fresh d.nodes
    heads ← fill_heads nodes (replicate (length d.heads) none)
    some (record { heads = heads; nodes = nodes; size = d.size; fresh = d.fresh + length d.nodes })

  abbrev pub Filled : List (Node K V) → List (Option ℕ) → List (Option ℕ) → Type 0
  Filled ns heads heads' =
      (length heads' ≡ length heads)
      × ((b : ℕ) (h : Option ℕ)
          → get_elem? heads b ≡ some h
          → get_elem? heads' b ≡ some (or_first h (first b ns)))

  set_head-first :
      (n : Node K V) (ns : List (Node K V)) (heads : List (Option ℕ)) (h0 : Option ℕ)
      → n.bucket < length heads
      → get_elem? heads n.bucket ≡ some h0
      → (heads1 : List (Option ℕ)) × (set_head h0 n heads ≡ some heads1)
        × (length heads1 ≡ length heads)
        × ((b : ℕ) (h : Option ℕ)
            → get_elem? heads b ≡ some h
            → (h1 : Option ℕ) × (get_elem? heads1 b ≡ some h1)
              × (or_first h1 (first b ns) ≡ or_first h (first b (n ∷ ns))))
  set_head-first n ns heads none hb e = (
    set heads n.bucket (some n.addr),
    store-some heads n.bucket (some n.addr) hb,
    length-set heads n.bucket (some n.addr),
    (λ b h eh. elim (Bool-cases (n.bucket == b)) [
      | inl here ↦
          let at_b : n.bucket ≡ b = (==_iff _ _).0 here in
          let was : none ≡ h = some-injective (sym e ∙ (ap (get_elem? heads) at_b ∙ eh)) in
          (
            some n.addr,
            ap (get_elem? (set heads n.bucket (some n.addr))) (sym at_b)
                ∙ get_elem?-set_same heads n.bucket (some n.addr) hb,
            rw (sym was, here) refl,
          )
      | inr away ↦
          let other : b ≢ n.bucket = λ e'. clash away ((==_iff _ _).1 (sym e')) in
          (h, get_elem?-set_other heads n.bucket b (some n.addr) other ∙ eh, rw away refl)
    ]),
  )
  set_head-first n ns heads (some a) hb e = (
    heads,
    refl,
    refl,
    (λ b h eh. elim (Bool-cases (n.bucket == b)) [
      | inl here ↦
          let at_b : n.bucket ≡ b = (==_iff _ _).0 here in
          let was : some a ≡ h = some-injective (sym e ∙ (ap (get_elem? heads) at_b ∙ eh)) in
          (h, eh, rw (sym was) refl)
      | inr away ↦ (h, eh, rw away refl)
    ]),
  )

  pub same_length :
      (m m' : ℕ) (ns : List (Node K V))
      → m' ≡ m
      → All (λ n. n.bucket < m) ns
      → All (λ n. n.bucket < m') ns
  same_length m m' ns e = subst (λ x. All (λ n. n.bucket < x) ns) (sym e)

  pub fill_heads-first :
      (ns : List (Node K V)) (heads : List (Option ℕ))
      → All (λ n. n.bucket < length heads) ns
      → (heads' : List (Option ℕ)) × (fill_heads ns heads ≡ some heads') × Filled ns heads heads'
  unfolding fill_heads
  fill_heads-first [] heads _ = (heads, refl, (refl, or_first-none heads))
  fill_heads-first (n ∷ ns) heads (hn, hs) =
      let e = get_elem?-some heads n.bucket none hn in
      let (heads1, run, len, step) = set_head-first n ns heads (get_or heads n.bucket none) hn e in
      let (heads', run', (len', filled)) =
        fill_heads-first ns heads1 (same_length (length heads) (length heads1) ns len hs) in
      (
        heads',
        rw (e, run) run',
        (
          len' ∙ len,
          (λ b h eh.
              let (h1, at_b, same_first) = step b h eh in filled b h1 at_b ∙ ap some same_first),
        ),
      )
