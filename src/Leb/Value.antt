-- ===== src/Leb/Value.antt =====
-- What bytes and septets stand for: the numbers that src/leb.c converts between.
use kanana.Base.{
  ℕ, zero, suc, ◌+◌, ◌*◌, ◌/◌, ◌%◌, ◌^◌, ◌≤◌, ◌<◌, ◌≡◌, refl, ap, arith, List, [], ◌∷◌, ltb,
  if◌then◌else◌, length, get_or, set, drop, All, replicate,
}
use kanana.Base.Memory.{IsByte}
use native.Mathlib.Nat.{pow-suc, pow-le-pow_right}
use native.Mathlib.Numerals.{towards_suc}

-- Little-endian bytes as a number.
unfoldable pub le_value : List ℕ → ℕ
le_value [] = 0
le_value (b ∷ bs) = b + 256 * le_value bs

-- The number that the septets up to the first without a top bit stand for.
unfoldable pub leb_value : List ℕ → ℕ
leb_value [] = 0
leb_value (b ∷ bs) = if ltb b 128 then b else b % 128 + 128 * leb_value bs

-- The lowest `k` septets of `v`, the last one with no top bit.
unfoldable pub septets : ℕ → ℕ → List ℕ
septets zero v = []
septets (suc zero) v = v % 128 ∷ []
septets (suc (suc k)) v = (v % 128 + 128) ∷ septets (suc k) (v / 128)

-- The shortest encoding of `v`, for `v` below 128 ^ (k + 1).
unfoldable pub uleb : ℕ → ℕ → List ℕ
uleb zero v = v ∷ []
uleb (suc k) v = let rest = uleb k (v / 128) in if ltb v 128 then v ∷ [] else (v % 128 + 128) ∷ rest

pub le_value-lt : (bs : List ℕ) → All IsByte bs → le_value bs < 256 ^ length bs
unfolding le_value
le_value-lt [] h = omega arith
le_value-lt (b ∷ bs) h = omega (arith, le_value-lt bs h.1, pow-suc 256 (length bs))

pub le_value-replicate : (n : ℕ) → le_value (replicate n 0) ≡ 0
unfolding le_value
le_value-replicate zero = refl
le_value-replicate (suc n) = omega (arith, le_value-replicate n)

-- The bytes from an index on, split at that byte.
pub le_value-drop :
    (bs : List ℕ) (i : ℕ)
    → i < length bs
    → le_value (drop i bs) ≡ get_or bs i 0 + 256 * le_value (drop (i + 1) bs)
unfolding le_value
le_value-drop [] i h = absurd (omega arith)
le_value-drop (b ∷ bs) zero h = refl
le_value-drop (b ∷ bs) (suc i) h = ground (arith, le_value-drop bs i)

pub drop_all : (bs : List ℕ) (i : ℕ) → length bs ≤ i → le_value (drop i bs) ≡ 0
unfolding le_value
drop_all [] zero h = refl
drop_all [] (suc i) h = refl
drop_all (b ∷ bs) zero h = absurd (omega arith)
drop_all (b ∷ bs) (suc i) h = drop_all bs i (omega arith)

pub get_or-IsByte : (bs : List ℕ) (i : ℕ) → All IsByte bs → get_or bs i 0 < 256
get_or-IsByte [] i h = omega arith
get_or-IsByte (b ∷ bs) zero h = h.0
get_or-IsByte (b ∷ bs) (suc i) h = get_or-IsByte bs i h.1

-- A write changes the number by the difference at its place.
pub le_value-set :
    (bs : List ℕ) (i v : ℕ)
    → i < length bs
    → le_value (set bs i v) + 256 ^ i * get_or bs i 0 ≡ le_value bs + 256 ^ i * v
unfolding le_value
le_value-set [] i v h = absurd (omega arith)
le_value-set (b ∷ bs) zero v h = omega arith
le_value-set (b ∷ bs) (suc i) v h = rw pow-suc (omega (arith, le_value-set bs i v (omega arith)))

-- A bound on the number bounds the byte at its top.
pub get_or-lt : (bs : List ℕ) (i m : ℕ) → 0 < m → le_value bs < m * 256 ^ i → get_or bs i 0 < m
unfolding le_value
get_or-lt [] i m pos h = pos
get_or-lt (b ∷ bs) zero m pos h = omega arith
get_or-lt (b ∷ bs) (suc i) m pos h = get_or-lt bs i m pos (omega (arith, rw pow-suc at h))

pub set-IsByte : (bs : List ℕ) (i v : ℕ) → v < 256 → All IsByte bs → All IsByte (set bs i v)
set-IsByte [] i v hv h = h
set-IsByte (b ∷ bs) zero v hv h = (hv, h.1)
set-IsByte (b ∷ bs) (suc i) v hv h = (h.0, set-IsByte bs i v hv h.1)

two_pow_eight : (n : ℕ) → 2 ^ (n + 8) ≡ 2 ^ n * 256
two_pow_eight n = simp towards_suc (omega arith)

two_pow_seven : (n : ℕ) → 2 ^ (n + 7) ≡ 2 ^ n * 128
two_pow_seven n = simp towards_suc (omega arith)

pow_256 : (n : ℕ) → 256 ^ n ≡ 2 ^ (8 * n)
pow_256 zero = refl
pow_256 (suc n) =
    let next : 8 * suc n ≡ 8 * n + 8 = omega arith in
    rw (pow-suc, next, two_pow_eight) (ap (λ t. t * 256) (pow_256 n))

pow_128 : (n : ℕ) → 128 ^ n ≡ 2 ^ (7 * n)
pow_128 zero = refl
pow_128 (suc n) =
    let next : 7 * suc n ≡ 7 * n + 7 = omega arith in
    rw (pow-suc, next, two_pow_seven) (ap (λ t. t * 128) (pow_128 n))

-- Enough septets hold all the bits of the bytes.
pub pow_256-le-pow_128 : (n k : ℕ) → 8 * n ≤ 7 * k → 256 ^ n ≤ 128 ^ k
pow_256-le-pow_128 n k h = rw (pow_256, pow_128) (pow-le-pow_right (omega arith) h)

-- Enough bytes hold all the bits of the septets.
pub pow_128-le-pow_256 : (k n : ℕ) → 7 * k ≤ 8 * n → 128 ^ k ≤ 256 ^ n
pow_128-le-pow_256 k n h = rw (pow_256, pow_128) (pow-le-pow_right (omega arith) h)
