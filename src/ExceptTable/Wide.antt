-- ===== src/ExceptTable/Wide.antt =====
-- A LEB128 number that `buildExceptTableRawData` of src/exceptTable.c writes in one byte more than it takes.
use kanana.Base.{
  ℕ, zero, suc, ◌+◌, ◌-◌, ◌*◌, ◌/◌, ◌%◌, ◌^◌, ◌<◌, ◌≤◌, ◌≡◌, inl, inr, refl, ap, arith, bit_and,
  bit_or, some, List, [], ◌∷◌, ◌++◌, true, false, ltb, ◌==◌, if◌then◌else◌, Bool-cases, length,
  get_elem?, All,
}
use kanana.Base.Bits.{top_bit, set_top_bit}
use kanana.Base.Memory.{store, IsByte}
use native.Mathlib.Nat.{pow-suc}
use kanana.Leb.{count_septets}
use kanana.Leb.Value.{uleb, leb_value}
use kanana.ExceptTable.{widened}
use kanana.ExceptTable.Room.{uleb-pos, uleb-big, uleb-small, length-uleb_big, length-uleb_small}

-- The septets of a number with top bits, and a zero.
unfoldable pub wide : ℕ → ℕ → List ℕ
wide zero v = (v + 128) ∷ 0 ∷ []
wide (suc k) v =
    let rest = wide k (v / 128) in if ltb v 128 then (v + 128) ∷ 0 ∷ [] else (v % 128 + 128) ∷ rest

-- The last of some bytes, with a top bit and a zero behind it.
abbrev EndsIn : List ℕ → List ℕ → ℕ → Type 0
EndsIn short long i =
    (last : ℕ) × (bytes : List ℕ) × (get_elem? short i ≡ some last)
    × (store short i (bit_or last 0x80) ≡ some bytes)
    × (bytes ++ 0 ∷ [] ≡ long)

EndsIn-one : (v : ℕ) → v < 128 → EndsIn (v ∷ []) ((v + 128) ∷ 0 ∷ []) 0
EndsIn-one v h = (v, bit_or v 0x80 ∷ [], refl, refl, ap (λ b. b ∷ 0 ∷ []) (set_top_bit v h))

EndsIn-cons :
    (b : ℕ) (short long : List ℕ) (i : ℕ)
    → EndsIn short long i
    → EndsIn (b ∷ short) (b ∷ long) (suc i)
EndsIn-cons b short long i (last, bytes, at_end, stored, same) =
    (last, b ∷ bytes, at_end, rw stored refl, ap (λ bs. b ∷ bs) same)

wide-big : (k v : ℕ) → ltb v 128 ≡ false → wide (suc k) v ≡ (v % 128 + 128) ∷ wide k (v / 128)
unfolding wide
wide-big k v e = rw e refl

wide-small : (k v : ℕ) → ltb v 128 ≡ true → wide (suc k) v ≡ (v + 128) ∷ 0 ∷ []
unfolding wide
wide-small k v e = rw e refl

length-uleb_zero : (v : ℕ) → length (uleb 0 v) ≡ 1
unfolding uleb
length-uleb_zero v = refl

store-wide :
    (k v i : ℕ) → v < 128 ^ suc k → suc i ≡ length (uleb k v) → EndsIn (uleb k v) (wide k v) i
store-wide zero v zero h e = unfold uleb wide in EndsIn-one v (omega (arith, h))
store-wide zero v (suc i) h e = absurd (omega (arith, e, length-uleb_zero v))
store-wide (suc k) v zero h e = elim (Bool-cases (ltb v 128)) [
  | inl small ↦
      rw (uleb-small k v (ground arith), wide-small k v small) (EndsIn-one v (ground arith))
  | inr big ↦ absurd (omega (arith, e, length-uleb_big k v big, uleb-pos k (v / 128)))
]
store-wide (suc k) v (suc i) h e = elim (Bool-cases (ltb v 128)) [
  | inl small ↦ absurd (omega (arith, e, length-uleb_small (suc k) v (ground arith)))
  | inr big ↦
      let below : v < 128 ^ suc k * 128 = rw pow-suc at h in
      rw (uleb-big k v big, wide-big k v big)
        (EndsIn-cons (v % 128 + 128) (uleb k (v / 128)) (wide k (v / 128)) i (
          store-wide k (v / 128) i (omega (arith, below))
            (omega (arith, e, length-uleb_big k v big))))
]

-- `widened` writes the shortest encoding of a number in one byte more.
pub widened-wide :
    (k v : ℕ) → v < 128 ^ suc k → widened (uleb k v) (suc (length (uleb k v))) ≡ some (wide k v)
unfolding widened
widened-wide k v h =
    let n = length (uleb k v) in
    let i = n - 1 in
    let pos = uleb-pos k v in
    let (last, bytes, at_end, stored, same) = store-wide k v i h (omega (arith, pos)) in
    let one : (suc n - n == 1) ≡ true = ground arith in
    let index : suc n - 2 ≡ i = omega arith in rw (one, index, at_end, stored, same) refl

pub length-wide : (k v : ℕ) → length (wide k v) ≡ suc (length (uleb k v))
unfolding wide uleb
length-wide zero v = refl
length-wide (suc k) v = elim (Bool-cases (ltb v 128)) [
  | inl small ↦ rw small refl
  | inr big ↦ rw big (ap suc (length-wide k (v / 128)))
]

more_septets : (b : ℕ) → 128 ≤ b → b < 256 → (bit_and b 0x80 == 0) ≡ false
more_septets b h h' = let e = top_bit b h' in ground (arith, e)

pub wide-count :
    (k v : ℕ) (rest : List ℕ)
    → v < 128 ^ suc k
    → count_septets (wide k v ++ rest) ≡ some (length (wide k v))
unfolding wide count_septets
wide-count zero v rest h = rw (more_septets (v + 128) (omega arith) (omega (arith, h))) refl
wide-count (suc k) v rest h = elim (Bool-cases (ltb v 128)) [
  | inl small ↦ rw small (rw (more_septets (v + 128) (omega arith) (ground arith)) refl)
  | inr big ↦
      let below : v < 128 ^ suc k * 128 = rw pow-suc at h in
      rw big (
        rw
          (
            more_septets (v % 128 + 128) (omega arith) (omega arith),
            wide-count k (v / 128) rest (omega (arith, below)),
          )
          refl)
]

pub wide-leb_value : (k v : ℕ) (rest : List ℕ) → v < 128 ^ suc k → leb_value (wide k v ++ rest) ≡ v
unfolding wide leb_value
wide-leb_value zero v rest h = ground arith
wide-leb_value (suc k) v rest h =
    let below : v < 128 ^ suc k * 128 = rw pow-suc at h in
    ground (arith, wide-leb_value k (v / 128) rest)

pub wide-IsByte :
    (k v : ℕ) (rest : List ℕ) → v < 128 ^ suc k → All IsByte rest → All IsByte (wide k v ++ rest)
unfolding wide
wide-IsByte zero v rest h hr = (omega (arith, h), (omega arith, hr))
wide-IsByte (suc k) v rest h hr =
    let below : v < 128 ^ suc k * 128 = rw pow-suc at h in
    ground (arith, wide-IsByte k (v / 128) rest)
