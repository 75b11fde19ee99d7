-- ===== src/CallFrame/Qsort.antt =====
-- The table of .eh_frame_hdr, which src/callFrameInfo.c sorts with `qsort`.
use mathlib.Core.List.Perm
use mathlib.Core.List.{Perm}
use kanana.Base.{
  ℕ, ◌+◌, ◌-◌, ◌%◌, ◌^◌, ◌<◌, ◌≤◌, ◌≡◌, arith, inl, inr, List, [], ◌∷◌, Bool, true, false,
  Bool-cases, All,
}
use kanana.CallFrame.{Fde, Section}
use kanana.CallFrame.Build.{EhFrameHdrTableEntry, at_most, insert, qsort, hdr_entry, hdr_table}

module _ {ℓ} {A : Type ℓ} (before : A → A → Bool) where
  insert-Perm : (x : A) (xs : List A) → Perm (insert before x xs) (x ∷ xs)
  unfolding insert
  insert-Perm x [] = Perm.rfl
  insert-Perm x (y ∷ ys) = elim (Bool-cases (before x y)) [
    | inl e ↦ rw e Perm.rfl
    | inr e ↦ rw e (Perm.trans (Perm.cons y (insert-Perm x ys)) (Perm.swap x y ys))
  ]

  pub qsort-Perm : (xs : List A) → Perm (qsort before xs) xs
  unfolding qsort
  qsort-Perm [] = Perm.rfl
  qsort-Perm (x ∷ xs) = Perm.trans (insert-Perm x (qsort before xs)) (Perm.cons x (qsort-Perm xs))

-- Sorted by a key.
module _ {ℓ} {A : Type ℓ} (key : A → ℕ) where
  abbrev pub Ascends : List A → Type 0
  Ascends [] = Unit
  Ascends (x ∷ xs) = All (λ y. key x ≤ key y) xs × Ascends xs

  module _ (before : A → A → Bool) (Good : A → Type 0)
      (low : (x y : A) → Good x → Good y → before x y ≡ true → key x ≤ key y)
      (high : (x y : A) → Good x → Good y → before x y ≡ false → key y ≤ key x) where
    below :
        (x y : A) (ys : List A)
        → key x ≤ key y
        → All (λ z. key y ≤ key z) ys
        → All (λ z. key x ≤ key z) ys
    below x y [] h _ = tt
    below x y (z ∷ ys) h (h', hs) = (omega (arith, h, h'), below x y ys h hs)

    insert-All {κ} :
        (P : A → Type κ) (x : A) (xs : List A) → P x → All P xs → All P (insert before x xs)
    unfolding insert
    insert-All P x [] h _ = (h, tt)
    insert-All P x (y ∷ ys) h (h', hs) = elim (Bool-cases (before x y)) [
      | inl e ↦ rw e (h, (h', hs))
      | inr e ↦ rw e (h', insert-All P x ys h hs)
    ]

    insert-Ascends :
        (x : A) (xs : List A) → Good x → All Good xs → Ascends xs → Ascends (insert before x xs)
    unfolding insert
    insert-Ascends x [] _ _ _ = (tt, tt)
    insert-Ascends x (y ∷ ys) g (gy, gs) (h, hs) = elim (Bool-cases (before x y)) [
      | inl e ↦ let first = low x y g gy e in rw e ((first, below x y ys first h), (h, hs))
      | inr e ↦
          rw e
            (insert-All (λ z. key y ≤ key z) x ys (high x y g gy e) h, insert-Ascends x ys g gs hs)
    ]

    qsort-Good : (xs : List A) → All Good xs → All Good (qsort before xs)
    unfolding qsort
    qsort-Good [] g = tt
    qsort-Good (x ∷ xs) (g, gs) = insert-All Good x (qsort before xs) g (qsort-Good xs gs)

    pub qsort-Ascends : (xs : List A) → All Good xs → Ascends (qsort before xs)
    unfolding qsort
    qsort-Ascends [] g = tt
    qsort-Ascends (x ∷ xs) (g, gs) =
        insert-Ascends x (qsort before xs) g (qsort-Good xs gs) (qsort-Ascends xs gs)

-- How far a location is above another, around the 32 bits.
abbrev pub above : ℕ → EhFrameHdrTableEntry → ℕ
above lo e = (e.initial_location + 2 ^ 32 - lo) % 2 ^ 32

abbrev pub IsNear : ℕ → EhFrameHdrTableEntry → Type 0
IsNear lo e = (e.initial_location < 2 ^ 32) × (above lo e < 2 ^ 31)

module _ (lo : ℕ) (h : lo < 2 ^ 32) where
  at_most-above :
      (x y : EhFrameHdrTableEntry)
      → IsNear lo x
      → IsNear lo y
      → at_most x y ≡ true
      → above lo x ≤ above lo y
  at_most-above x y (hx, nx) (hy, ny) e = ground (arith, e)

  at_most-below :
      (x y : EhFrameHdrTableEntry)
      → IsNear lo x
      → IsNear lo y
      → at_most x y ≡ false
      → above lo y ≤ above lo x
  at_most-below x y (hx, nx) (hy, ny) e = ground (arith, e)

  hdr_table-IsNear :
      (cfi : Section) (fdes : List Fde) (offsets : List ℕ)
      → All (λ fde. above lo (hdr_entry cfi fde 0) < 2 ^ 31) fdes
      → All (IsNear lo) (hdr_table cfi fdes offsets)
  unfolding hdr_table hdr_entry
  hdr_table-IsNear cfi [] offsets _ = tt
  hdr_table-IsNear cfi (fde ∷ fdes) [] _ = tt
  hdr_table-IsNear cfi (fde ∷ fdes) (offset ∷ offsets) (near, others) =
      ((omega arith, near), hdr_table-IsNear cfi fdes offsets others)

  -- Locations that lie within 2 ^ 31 above one of them are sorted by how far they do.
  pub hdr_table-Ascends :
      (cfi : Section) (fdes : List Fde) (offsets : List ℕ)
      → All (λ fde. above lo (hdr_entry cfi fde 0) < 2 ^ 31) fdes
      → Ascends (above lo) (qsort at_most (hdr_table cfi fdes offsets))
  hdr_table-Ascends cfi fdes offsets near =
      qsort-Ascends (above lo) at_most (IsNear lo) at_most-above at_most-below
        (hdr_table cfi fdes offsets) (hdr_table-IsNear cfi fdes offsets near)
