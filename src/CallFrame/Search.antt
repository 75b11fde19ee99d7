-- ===== src/CallFrame/Search.antt =====
-- The search of src/fderead.c for the augmentation data of an FDE among its bytes.
use mathlib.Core.Path.{subst}
use kanana.Base.{
  ℕ, zero, suc, ◌+◌, ◌-◌, ◌<◌, ◌≤◌, ◌≡◌, refl, sym, ap, ◌∙◌, inl, inr, arith, some, List, [], ◌∷◌,
  true, false, ltb, ◌==◌, ==_iff, Bool-cases, drop,
}
use kanana.CallFrame.Read.{memchr, is_match, find_augdata}

drop-nil : (n : ℕ) → drop {A = ℕ} n [] ≡ []
drop-nil zero = refl
drop-nil (suc n) = refl

drop-drop : (i j : ℕ) (xs : List ℕ) → drop j (drop i xs) ≡ drop (i + j) xs
drop-drop zero j xs = ap (λ n. drop n xs) (omega arith)
drop-drop (suc i) j [] = drop-nil j ∙ sym (drop-nil (suc i + j))
drop-drop (suc i) j (x ∷ xs) =
    let e : suc (i + j) ≡ suc i + j = omega arith in drop-drop i j xs ∙ ap (λ n. drop n (x ∷ xs)) e

module _ (a : ℕ) (augdata : List ℕ) where
  -- The bytes do not occur at any of the first places.
  abbrev pub Absent : List ℕ → ℕ → Type 0
  Absent bytes n = (j : ℕ) → j < n → is_match (a ∷ augdata) (drop j bytes) ≡ false

  later :
      (b : ℕ) (bytes : List ℕ) (i : ℕ)
      → (b == a) ≡ false
      → Absent bytes i
      → Absent (b ∷ bytes) (suc i)
  unfolding is_match
  later b bytes i e absent zero less = let e' : (a == b) ≡ false = ground (arith, e) in rw e' refl
  later b bytes i e absent (suc j) less = absent j (omega (arith, less))

  abbrev First : List ℕ → ℕ → ℕ → Type 0
  First bytes n k = (i : ℕ) × (memchr a bytes n ≡ some i) × (i ≤ k) × Absent bytes i

  memchr-further :
      (b : ℕ) (bytes : List ℕ) (n k : ℕ)
      → ((k' : ℕ) → is_match (a ∷ augdata) (drop k' bytes) ≡ true → k' < n → First bytes n k')
      → (b == a) ≡ false
      → is_match (a ∷ augdata) (drop k (b ∷ bytes)) ≡ true
      → k < suc n
      → First (b ∷ bytes) (suc n) k
  unfolding memchr is_match
  memchr-further b bytes n zero behind e h less =
      let e' : (a == b) ≡ false = ground (arith, e) in
      absurd (let h' : false ≡ true = rw e' at h in cc)
  memchr-further b bytes n (suc k) behind e h less =
      let (i, run, before, absent) = behind k h (omega (arith, less)) in
      (suc i, rw (e, run) refl, omega (arith, before), later b bytes i e absent)

  memchr-First :
      (bytes : List ℕ) (n k : ℕ)
      → is_match (a ∷ augdata) (drop k bytes) ≡ true
      → k < n
      → First bytes n k
  unfolding memchr is_match
  memchr-First bytes zero k h less = absurd (omega (arith, less))
  memchr-First [] (suc n) zero h less = absurd cc
  memchr-First [] (suc n) (suc k) h less = absurd cc
  memchr-First (b ∷ bytes) (suc n) k h less = elim (Bool-cases (b == a)) [
    | inl e ↦ (0, rw e refl, omega arith, λ j none. absurd (omega (arith, none)))
    | inr e ↦ memchr-further b bytes n k (memchr-First bytes n) e h less
  ]

  abbrev pub IsFirst : ℕ → List ℕ → ℕ → ℕ → ℕ → Type 0
  IsFirst rounds bytes len at_offset d =
      (j : ℕ) × (find_augdata rounds (a ∷ augdata) bytes len at_offset ≡ some (at_offset + j))
      × (j ≤ d)
      × (is_match (a ∷ augdata) (drop (at_offset + j) bytes) ≡ true)
      × Absent (drop at_offset bytes) j

  -- A place where the bytes are not, and those before it and behind it.
  Absent-append :
      (bytes : List ℕ) (i j : ℕ)
      → Absent bytes i
      → is_match (a ∷ augdata) (drop i bytes) ≡ false
      → Absent (drop (i + 1) bytes) j
      → Absent bytes (i + 1 + j)
  Absent-append bytes i j before here behind k less = elim (Bool-cases (ltb k i)) [
    | inl p ↦ before k (ground (arith, p))
    | inr p ↦ elim (Bool-cases (k == i)) [
      | inl same ↦ ap (λ n. is_match (a ∷ augdata) (drop n bytes)) ((==_iff k i).0 same) ∙ here
      | inr differs ↦
          let past : i + 1 + (k - (i + 1)) ≡ k = ground (arith, p, differs) in
          let near : k - (i + 1) < j = omega (arith, less, past) in
          sym (
            ap (is_match (a ∷ augdata)) (drop-drop (i + 1) (k - (i + 1)) bytes)
            ∙ ap (λ n. is_match (a ∷ augdata) (drop n bytes)) past)
          ∙ behind (k - (i + 1)) near
    ]
  ]

  further :
      (bytes : List ℕ) (i d : ℕ)
      → i ≤ d
      → is_match (a ∷ augdata) (drop i bytes) ≡ false
      → is_match (a ∷ augdata) (drop d bytes) ≡ true
      → i + 1 + (d - (i + 1)) ≡ d
  further bytes i d before here h = elim (Bool-cases (i == d)) [
    | inl same ↦
        let e : true ≡ false =
          sym h
          ∙ ap (λ n. is_match (a ∷ augdata) (drop n bytes)) (sym ((==_iff i d).0 same))
          ∙ here in
        absurd cc
    | inr differs ↦ ground (arith, before)
  ]

  find_augdata-round :
      (rounds : ℕ) (bytes : List ℕ) (len at_offset d i : ℕ)
      → memchr a (drop at_offset bytes) len ≡ some i
      → Absent (drop at_offset bytes) i
      → is_match (a ∷ augdata) (drop (at_offset + i) bytes) ≡ false
      → i + 1 + (d - (i + 1)) ≡ d
      → IsFirst rounds bytes len (at_offset + i + 1) (d - (i + 1))
      → IsFirst (suc rounds) bytes len at_offset d
  unfolding find_augdata
  find_augdata-round rounds bytes len at_offset d i found absent here past
        (j, run, before, holds, behind) =
      let place : at_offset + i + 1 + j ≡ at_offset + (i + 1 + j) = omega arith in
      let start : at_offset + i + 1 ≡ at_offset + (i + 1) = omega arith in
      (
        i + 1 + j,
        rw (found, here) (run ∙ ap some place),
        omega (arith, before, past),
        sym (ap (λ n. is_match (a ∷ augdata) (drop n bytes)) place) ∙ holds,
        Absent-append (drop at_offset bytes) i j absent
            (ap (is_match (a ∷ augdata)) (drop-drop at_offset i bytes) ∙ here)
            (subst (λ bs. Absent bs j)
              (ap (λ n. drop n bytes) start ∙ sym (drop-drop at_offset (i + 1) bytes)) behind),
      )

  -- The search of src/fderead.c for the augmentation data of an FDE ends within as many rounds as
  -- there are bytes up to the data and one more, and finds the first place from where it starts at
  -- which the bytes of the data stand, which may be before the data itself.
  pub find_augdata-IsFirst :
      (rounds : ℕ) (bytes : List ℕ) (len at_offset d : ℕ)
      → is_match (a ∷ augdata) (drop (at_offset + d) bytes) ≡ true
      → d < len
      → d < rounds
      → IsFirst rounds bytes len at_offset d
  find_augdata-IsFirst zero bytes len at_offset d h short enough = absurd (omega (arith, enough))
  find_augdata-IsFirst (suc rounds) bytes len at_offset d h short enough =
      let there = ap (is_match (a ∷ augdata)) (drop-drop at_offset d bytes) ∙ h in
      let (i, found, before, absent) = memchr-First (drop at_offset bytes) len d there short in
      elim (Bool-cases (is_match (a ∷ augdata) (drop (at_offset + i) bytes))) [
        | inl e ↦ (i, unfold find_augdata in rw (found, e) refl, before, e, absent)
        | inr e ↦
            let here = ap (is_match (a ∷ augdata)) (drop-drop at_offset i bytes) ∙ e in
            let past = further (drop at_offset bytes) i d before here there in
            let place : at_offset + d ≡ at_offset + i + 1 + (d - (i + 1)) = omega (arith, past) in
            find_augdata-round rounds bytes len at_offset d i found absent e past (
              find_augdata-IsFirst rounds bytes len (at_offset + i + 1) (d - (i + 1))
                (sym (ap (λ n. is_match (a ∷ augdata) (drop n bytes)) place) ∙ h)
                (omega (arith, short, past)) (omega (arith, enough, past)))
      ]
