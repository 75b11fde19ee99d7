-- ===== src/Util/LinkedList/Sort.antt =====
-- `sortList` of src/util/list.c sorts.
use mathlib.Core.List.Perm
use mathlib.Core.List.{Perm, perm_middle, append-nil}
use kanana.Base.{
  ℕ, zero, suc, ◌+◌, ◌/◌, ◌<◌, ◌≤◌, ◌≡◌, inl, inr, refl, ap, arith, Option, some, List, [], ◌∷◌,
  ◌++◌, Bool, true, false, ltb, length, take, drop, All, length-take, length-drop, Bool-cases,
}
use kanana.Util.LinkedList.{merge_loop, merge_sorted_lists, sort_loop, sort_list}

module _ {ℓ} {A : Type ℓ} (at_most : A → A → Bool) where
  -- What a comparison promises.
  pub record IsOrder : Type ℓ where
    pub total : (x y : A) → at_most x y ≡ false → at_most y x ≡ true
    pub trans : (x y z : A) → at_most x y ≡ true → at_most y z ≡ true → at_most x z ≡ true

  abbrev pub Below : A → List A → Type 0
  Below x = All (λ y. at_most x y ≡ true)

  abbrev pub IsSorted : List A → Type 0
  IsSorted [] = Unit
  IsSorted (x ∷ xs) = Below x xs × IsSorted xs

  Below-trans : IsOrder → (x y : A) (ys : List A) → at_most x y ≡ true → Below y ys → Below x ys
  Below-trans order x y [] h _ = tt
  Below-trans order x y (z ∷ ys) h (hz, hs) =
      (order.trans x y z h hz, Below-trans order x y ys h hs)

  Below-append : (x : A) (a b : List A) → Below x a → Below x b → Below x (a ++ b)
  Below-append x [] b _ hb = hb
  Below-append x (y ∷ a) b (h, ha) hb = (h, Below-append x a b ha hb)

  -- The lists that a merge of two sorted lists may be.
  abbrev Merges : List A → List A → Option (List A) → Type ℓ
  Merges a b o =
      (out : List A) × (o ≡ some out)
      × IsSorted out
      × Perm out (a ++ b)
      × ((z : A) → Below z a → Below z b → Below z out)

  merge_loop-Merges :
      IsOrder
      → (fuel : ℕ) (a b : List A) → length a + length b ≤ fuel
      → IsSorted a
      → IsSorted b
      → Merges a b (merge_loop at_most fuel a b)
  unfolding merge_loop
  merge_loop-Merges order fuel [] b h ha hb = (b, refl, hb, Perm.rfl, λ z _ hz. hz)
  merge_loop-Merges order fuel (x ∷ a) [] h ha hb =
      (x ∷ a, refl, ha, rw (append-nil (x ∷ a)) Perm.rfl, λ z hz _. hz)
  merge_loop-Merges order zero (x ∷ a) (y ∷ b) h ha hb = absurd (omega arith)
  merge_loop-Merges order (suc fuel) (x ∷ a) (y ∷ b) h (below, ha) (below', hb) =
      let left = merge_loop-Merges order fuel a (y ∷ b) (omega arith) ha (below', hb) in
      let right = merge_loop-Merges order fuel (x ∷ a) b (omega arith) (below, ha) hb in
      elim (Bool-cases (at_most x y)) [
        | inl e ↦
            let (out, run, sorted, perm, lower) = left in
            (
              x ∷ out,
              rw (e, run) refl,
              (lower x below (e, Below-trans order x y b e below'), sorted),
              Perm.cons x perm,
              λ z (hx, hz) hz'. (hx, lower z hz hz'),
            )
        | inr e ↦
            let (out, run, sorted, perm, lower) = right in
            let e' = order.total x y e in
            (
              y ∷ out,
              rw (e, run) refl,
              (lower y (e', Below-trans order y x a e' below) below', sorted),
              Perm.trans (Perm.cons y perm) (Perm.symm (perm_middle (x ∷ a) b)),
              λ z hz (hy, hz'). (hy, lower z hz hz'),
            )
      ]

  halves : (n : ℕ) (lst : List A) → take n lst ++ drop n lst ≡ lst
  halves zero lst = refl
  halves (suc n) [] = refl
  halves (suc n) (x ∷ lst) = ap (λ l. x ∷ l) (halves n lst)

  short-IsSorted : (lst : List A) → length lst / 2 < 1 → IsSorted lst
  short-IsSorted [] h = tt
  short-IsSorted (x ∷ []) h = (tt, tt)
  short-IsSorted (x ∷ y ∷ lst) h = absurd (omega arith)

  sort_loop-IsSorted :
      IsOrder
      → (fuel : ℕ) (lst : List A) → length lst < fuel
      → (out : List A) × (sort_loop at_most fuel lst ≡ some out) × IsSorted out × Perm out lst
  unfolding sort_loop merge_sorted_lists
  sort_loop-IsSorted order zero lst h = absurd (omega arith)
  sort_loop-IsSorted order (suc fuel) lst h =
      let n = length lst / 2 in
      let len = length-take n lst (omega arith) in
      let len' = length-drop n lst in
      elim (Bool-cases (ltb n 1)) [
        | inl e ↦ (lst, rw e refl, short-IsSorted lst (ground arith), Perm.rfl)
        | inr e ↦
            let (a, run, sorted, perm) =
              sort_loop-IsSorted order fuel (take n lst) (ground (arith, len)) in
            let (b, run', sorted', perm') =
              sort_loop-IsSorted order fuel (drop n lst) (ground (arith, len')) in
            let (out, merged, all, both, _) =
              merge_loop-Merges order (length a + length b) a b (omega arith) sorted sorted' in
            (
              out,
              rw (e, run, run', merged) refl,
              all,
              Perm.trans both (rw (halves n lst) at (Perm.append perm perm')),
            )
      ]

  -- `sortList`, with a comparison that is total and transitive, ends, and its list has the values of
  -- the list given, in order.
  pub sort_list-IsSorted :
      IsOrder
      → (lst : List A)
      → (out : List A) × (sort_list at_most lst ≡ some out) × IsSorted out × Perm out lst
  unfolding sort_list
  sort_list-IsSorted order lst = sort_loop-IsSorted order (suc (length lst)) lst (omega arith)

  -- `mergeSortedLists` of two sorted lists ends, and its list is sorted and has the values of both.
  pub merge_sorted_lists-IsSorted :
      IsOrder
      → (a b : List A) → IsSorted a
      → IsSorted b
      → (out : List A) × (merge_sorted_lists at_most a b ≡ some out)
        × IsSorted out
        × Perm out (a ++ b)
  unfolding merge_sorted_lists
  merge_sorted_lists-IsSorted order a b ha hb =
      let (out, run, sorted, perm, _) =
        merge_loop-Merges order (length a + length b) a b (omega arith) ha hb in
      (out, run, sorted, perm)
