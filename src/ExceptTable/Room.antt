-- ===== src/ExceptTable/Room.antt =====
-- The room that `buildExceptTableRawData` of src/exceptTable.c leaves for the offset of the type table's end.
use kanana.Base.{
  ℕ, zero, suc, ◌+◌, ◌*◌, ◌/◌, ◌%◌, ◌≤◌, ◌<◌, ◌≡◌, ◌⊎◌, inl, inr, refl, sym, ap, ◌∙◌, arith,
  bit_and, List, [], ◌∷◌, Bool, true, false, not, ltb, ◌==◌, ◌||◌, ==_iff, Bool-cases, length,
}
use kanana.Base.Bits.{low_bits, table, agree}
use kanana.Leb.Value.{uleb}
use kanana.ExceptTable.{not_full, found_room}

-- Division by 128 of a number to which a few are added.
carry : (v m : ℕ) → m ≤ 3 → ((v + m) / 128 ≡ v / 128) ⊎ ((v + m) / 128 ≡ v / 128 + 1)
carry v m h = elim (Bool-cases ((v + m) / 128 == v / 128)) [
  | inl e ↦ inl ((==_iff _ _).0 e)
  | inr e ↦ inr (ground arith)
]

pub uleb-pos : (k v : ℕ) → 0 < length (uleb k v)
unfolding uleb
uleb-pos zero v = omega arith
uleb-pos (suc k) v = elim (Bool-cases (ltb v 128)) [
  | inl e ↦ rw e (omega arith)
  | inr e ↦ rw e (omega arith)
]

pub length-uleb_small : (k v : ℕ) → v < 128 → length (uleb k v) ≡ 1
unfolding uleb
length-uleb_small zero v h = refl
length-uleb_small (suc k) v h = let small : ltb v 128 ≡ true = ground arith in rw small refl

pub length-uleb_big :
    (k v : ℕ) → ltb v 128 ≡ false → length (uleb (suc k) v) ≡ suc (length (uleb k (v / 128)))
unfolding uleb
length-uleb_big k v e = rw e refl

still_big : (v m : ℕ) → ltb v 128 ≡ false → ltb (v + m) 128 ≡ false
still_big v m e = ground arith

-- A few more never take away a septet, and add one at most.
pub length-uleb_add :
    (k v m : ℕ)
    → m ≤ 3
    → (length (uleb k v) ≤ length (uleb k (v + m)))
      × (length (uleb k (v + m)) ≤ suc (length (uleb k v)))
length-uleb_add zero v m h = unfold uleb in (omega arith, omega arith)
length-uleb_add (suc k) v m h = elim (Bool-cases (ltb v 128)) [
  | inl e ↦
      let one = length-uleb_small (suc k) v (ground arith) in
      let pos = uleb-pos (suc k) (v + m) in
      elim (Bool-cases (ltb (v + m) 128)) [
        | inl e' ↦
            let one' = length-uleb_small (suc k) (v + m) (ground arith) in
            (omega (arith, one, pos), omega (arith, one, one'))
        | inr e' ↦
            let two = length-uleb_big k (v + m) e' in
            let rest = length-uleb_small k ((v + m) / 128) (ground arith) in
            (omega (arith, one, pos), omega (arith, one, two, rest))
      ]
  | inr e ↦
      let here = length-uleb_big k v e in
      let there = length-uleb_big k (v + m) (still_big v m e) in
      elim (carry v m h) [
        | inl same ↦
            let equal = ap (λ (x : ℕ). length (uleb k x)) same in
            (omega (arith, here, there, equal), omega (arith, here, there, equal))
        | inr more ↦
            let (low, high) = length-uleb_add k (v / 128) 1 (omega arith) in
            let equal = ap (λ (x : ℕ). length (uleb k x)) more in
            (omega (arith, here, there, equal, low), omega (arith, here, there, equal, high))
      ]
]

full_septet : (b : ℕ) → b < 256 → (bit_and b 0x7f == 0x7f) ≡ (b % 128 == 127)
full_septet b h = ap (λ x. x == 0x7f) (low_bits b h)

high_bits : (b : ℕ) → b < 256 → bit_and b 0x70 ≡ b % 128 / 16 * 16
unfolding table
high_bits = agree 256 _ _ refl

nearly_full : (b : ℕ) → b < 256 → (bit_and b 0x70 == 0x70) ≡ (b % 128 / 16 * 16 == 112)
nearly_full b h = ap (λ x. x == 0x70) (high_bits b h)

or_false : (b : Bool) → (b || false) ≡ true → b ≡ true
or_false true h = refl
or_false false h = h

-- What a septet that is not full means for one more.
not_full-lt : (v : ℕ) → v < 128 → not_full (v ∷ []) ≡ true → v < 127
unfolding not_full
not_full-lt v h e =
    let e' : not (v % 128 == 127) ≡ true =
      rw (full_septet v (omega arith)) at (or_false (not (bit_and v 0x7f == 0x7f)) e) in
    ground arith

found_room-lt : (v : ℕ) → v < 128 → found_room (v ∷ []) ≡ true → v < 112
unfolding found_room not_full
found_room-lt v h e =
    let e' : not (v % 128 / 16 * 16 == 112) ≡ true =
      rw (nearly_full v (omega arith)) at (or_false (not (bit_and v 0x70 == 0x70)) e) in
    ground arith

not_full-rest :
    (b : ℕ) (bs : List ℕ) → b < 256 → b % 128 ≡ 127 → not_full (b ∷ bs) ≡ true → not_full bs ≡ true
unfolding not_full
not_full-rest b bs h full e =
    let stuck : (bit_and b 0x7f == 0x7f) ≡ true = full_septet b h ∙ (==_iff _ _).1 full in
    rw stuck at e

found_room-rest :
    (b : ℕ) (bs : List ℕ)
    → b < 256
    → 112 ≤ b % 128
    → found_room (b ∷ bs) ≡ true
    → not_full bs ≡ true
unfolding found_room
found_room-rest b bs h full e =
    let stuck : (bit_and b 0x70 == 0x70) ≡ true =
      nearly_full b h ∙ (==_iff _ _).1 (omega (arith, full)) in
    rw stuck at e

pub uleb-big : (k v : ℕ) → ltb v 128 ≡ false → uleb (suc k) v ≡ (v % 128 + 128) ∷ uleb k (v / 128)
unfolding uleb
uleb-big k v e = rw e refl

pub uleb-small : (k v : ℕ) → v < 128 → uleb (suc k) v ≡ v ∷ []
unfolding uleb
uleb-small k v h = let small : ltb v 128 ≡ true = ground arith in rw small refl

-- With a septet that is not full, one more takes no further septet.
not_full-length :
    (k v : ℕ) → not_full (uleb k v) ≡ true → length (uleb k (v + 1)) ≡ length (uleb k v)
not_full-length zero v e = unfold uleb in refl
not_full-length (suc k) v e = elim (Bool-cases (ltb v 128)) [
  | inl small ↦
      let h = not_full-lt v (ground arith) (rw (uleb-small k v (ground arith)) at e) in
      length-uleb_small (suc k) (v + 1) (omega (arith, h))
      ∙ sym (length-uleb_small (suc k) v (ground arith))
  | inr big ↦
      let here = length-uleb_big k v big in
      let there = length-uleb_big k (v + 1) (still_big v 1 big) in
      elim (carry v 1 (omega arith)) [
        | inl same ↦ omega (arith, here, there, ap (λ (x : ℕ). length (uleb k x)) same)
        | inr more ↦
            let rest =
              not_full-rest (v % 128 + 128) (uleb k (v / 128)) (omega arith) (omega (arith, more))
                (rw (uleb-big k v big) at e) in
            omega (
              arith,
              here,
              there,
              ap (λ (x : ℕ). length (uleb k x)) more,
              not_full-length k (v / 128) rest,
            )
      ]
]

-- With room, up to three more take no further septet.
pub found_room-length :
    (k v m : ℕ) → m ≤ 3 → found_room (uleb k v) ≡ true → length (uleb k (v + m)) ≡ length (uleb k v)
found_room-length zero v m h e = unfold uleb in refl
found_room-length (suc k) v m h e = elim (Bool-cases (ltb v 128)) [
  | inl small ↦
      let h' = found_room-lt v (ground arith) (rw (uleb-small k v (ground arith)) at e) in
      length-uleb_small (suc k) (v + m) (omega (arith, h'))
      ∙ sym (length-uleb_small (suc k) v (ground arith))
  | inr big ↦
      let here = length-uleb_big k v big in
      let there = length-uleb_big k (v + m) (still_big v m big) in
      elim (carry v m h) [
        | inl same ↦ omega (arith, here, there, ap (λ (x : ℕ). length (uleb k x)) same)
        | inr more ↦
            let rest =
              found_room-rest (v % 128 + 128) (uleb k (v / 128)) (omega arith) (omega (arith, more))
                (rw (uleb-big k v big) at e) in
            omega (
              arith,
              here,
              there,
              ap (λ (x : ℕ). length (uleb k x)) more,
              not_full-length k (v / 128) rest,
            )
      ]
]
