-- ===== src/Leb/Trim.antt =====
-- The unsigned encoder of src/leb.c drops the septets that are zero and no more.
use kanana.Base.{
  ℕ, zero, suc, ◌+◌, ◌*◌, ◌/◌, ◌%◌, ◌^◌, ◌≤◌, ◌<◌, ◌≡◌, ◌≢◌, ◌⊎◌, refl, sym, ap, ◌∙◌, arith, List,
  [], ◌∷◌, some, ltb, ◌==◌, length, get_elem?, set, take, All, inl, inr, false, Bool-cases, ==_iff,
  bit_and,
}
use kanana.Base.Bits.{low_bits}
use kanana.Base.Memory.{IsByte, store-some}
use kanana.Leb.{num_septets, trim_zeros, finish, encode_as_leb128, encode_as_leb128_no_optimization}
use kanana.Leb.Value.{le_value, le_value-lt, pow_256-le-pow_128, septets, uleb}
use kanana.Leb.Encode.{encode_no_optimization-septets}
use native.Mathlib.Nat.{pow-suc, one-le-pow}

-- The septet at an index.
unfoldable pub digit : ℕ → ℕ → ℕ
digit zero v = v % 128
digit (suc i) v = digit i (v / 128)

pub length-septets : (k v : ℕ) → length (septets k v) ≡ k
unfolding septets
length-septets zero v = refl
length-septets (suc zero) v = refl
length-septets (suc (suc k)) v = ap suc (length-septets (suc k) (v / 128))

pub digit-septets :
    (k i v : ℕ)
    → i < k
    → (b : ℕ) × (get_elem? (septets k v) i ≡ some b) × (bit_and b 0x7f ≡ digit i v)
unfolding septets digit
digit-septets zero i v h = absurd (omega arith)
digit-septets (suc zero) zero v h =
    (v % 128, refl, rw (low_bits (v % 128) (omega arith)) (omega arith))
digit-septets (suc zero) (suc i) v h = absurd (omega arith)
digit-septets (suc (suc k)) zero v h =
    (v % 128 + 128, refl, rw (low_bits (v % 128 + 128) (omega arith)) (omega arith))
digit-septets (suc (suc k)) (suc i) v h = digit-septets (suc k) i (v / 128) (omega arith)

digit_zero : (i v : ℕ) → v < 128 ^ suc i → digit i v ≡ 0 → v < 128 ^ i
unfolding digit
digit_zero zero v h e = omega arith
digit_zero (suc i) v h e =
    let wide : v < 128 ^ suc i * 128 = rw pow-suc at h in
    let small = digit_zero i (v / 128) (omega arith) e in rw pow-suc (omega arith)

digit_nonzero : (i v : ℕ) → digit i v ≢ 0 → 128 ^ i ≤ v
unfolding digit
digit_nonzero zero v ne = omega (arith)
digit_nonzero (suc i) v ne = rw pow-suc (omega (arith, digit_nonzero i (v / 128) ne))

-- `n` septets hold `v`, and no fewer do.
abbrev pub Fits : ℕ → ℕ → Type 0
Fits n v = (v < 128 ^ suc n) × ((n ≡ 0) ⊎ (128 ^ n ≤ v))

-- One round of the loop, on a septet that is zero and on another.
trim_zero :
    (k n v : ℕ)
    → suc n < k
    → digit (suc n) v ≡ 0
    → trim_zeros (septets k v) (suc (suc n)) ≡ trim_zeros (septets k v) (suc n)
trim_zero k n v h z =
    let (b, at, low) = digit-septets k (suc n) v h in unfold trim_zeros in rw (at, low, z)

trim_stop :
    (k n v : ℕ)
    → suc n < k
    → (digit (suc n) v == 0) ≡ false
    → trim_zeros (septets k v) (suc (suc n)) ≡ some (suc (suc n))
trim_stop k n v h nz =
    let (b, at, low) = digit-septets k (suc n) v h in unfold trim_zeros in rw (at, low, nz)

trim_zeros-Fits :
    (k n v : ℕ)
    → n < k
    → v < 128 ^ suc n
    → (m : ℕ) × (trim_zeros (septets k v) (suc n) ≡ some (suc m)) × (m ≤ n) × Fits m v
trim_zeros-Fits k zero v h fits = (0, unfold trim_zeros in refl, omega arith, (fits, inl refl))
trim_zeros-Fits k (suc n) v h fits = elim (Bool-cases (digit (suc n) v == 0)) [
  | inl z ↦
      let zero_digit = (==_iff _ _).0 z in
      let (m, e, le, f) =
        trim_zeros-Fits k n v (omega arith) (digit_zero (suc n) v fits zero_digit) in
      (m, trim_zero k n v h zero_digit ∙ e, omega arith, f)
  | inr nz ↦ (
    suc n,
    trim_stop k n v h nz,
    omega arith,
    (fits, inr (digit_nonzero (suc n) v (λ z. ground arith))),
  )
]

-- What is cut off behind a septet, and that septet's top bit, make no difference.
take-septets :
    (k m v : ℕ) → m < k → take (suc m) (set (septets k v) m (digit m v)) ≡ septets (suc m) v
unfolding septets digit
take-septets zero m v h = absurd (omega arith)
take-septets (suc zero) zero v h = refl
take-septets (suc zero) (suc m) v h = absurd (omega arith)
take-septets (suc (suc k)) zero v h = refl
take-septets (suc (suc k)) (suc m) v h =
    ap (λ l. (v % 128 + 128) ∷ l) (take-septets (suc k) m (v / 128) (omega arith))

finish-septets : (k m v : ℕ) → m < k → finish (septets k v) (suc m) ≡ some (septets (suc m) v)
unfolding finish
finish-septets k m v h =
    let (b, at, low) = digit-septets k m v h in
    rw (
      at,
      low,
      store-some (septets k v) m (digit m v) (omega (arith, length-septets k v)),
      take-septets k m v h,
    )

-- The septets that hold `v` and no more are its shortest encoding.
pub uleb-septets : (k m v : ℕ) → m ≤ k → Fits m v → uleb k v ≡ septets (suc m) v
unfolding uleb septets
uleb-septets zero zero v h f = ap (λ b. b ∷ []) (omega arith)
uleb-septets zero (suc m) v h f = absurd (omega arith)
uleb-septets (suc k) zero v h f = ground arith
uleb-septets (suc k) (suc m) v h (f, inl e) = absurd (omega arith)
uleb-septets (suc k) (suc m) v h (f, inr least) =
    let upper : v < 128 ^ suc m * 128 = rw pow-suc at f in
    let lower : 128 ^ m * 128 ≤ v = rw pow-suc at least in
    let big : ltb v 128 ≡ false = ground (arith, one-le-pow m 128 (omega arith)) in
    rw big (
      ap (λ l. (v % 128 + 128) ∷ l)
        (uleb-septets k m (v / 128) (omega arith) (omega arith, inr (omega arith))))

pub bytes_fit :
    (bytes : List ℕ) → All IsByte bytes → le_value bytes < 128 ^ num_septets (length bytes)
bytes_fit bytes h =
    let n = length bytes in
    omega (arith, le_value-lt bytes h, pow_256-le-pow_128 n (num_septets n) (omega arith))

encode_from :
    (bytes : List ℕ) (j v : ℕ)
    → encode_as_leb128_no_optimization bytes false ≡ some (septets (suc j) v)
    → v < 128 ^ suc j
    → encode_as_leb128 bytes false ≡ some (uleb (suc j) v)
unfolding encode_as_leb128
encode_from bytes j v raw fits =
    let (m, e, le, f) = trim_zeros-Fits (suc j) j v (omega arith) fits in
    rw (raw, length-septets (suc j) v, e, finish-septets (suc j) m v (omega arith))
      (ap some (sym (uleb-septets (suc j) m v (omega arith) f)))

-- `encodeAsLEB128`, unsigned, writes the shortest encoding of the number that the bytes hold.
pub encode_as_leb128-uleb :
    (bytes : List ℕ)
    → All IsByte bytes
    → 0 < length bytes
    → encode_as_leb128 bytes false ≡ some (uleb (num_septets (length bytes)) (le_value bytes))
encode_as_leb128-uleb bytes h pos =
    go (num_septets (length bytes)) refl (encode_no_optimization-septets bytes h)
      (bytes_fit bytes h)
  where
    go :
        (k : ℕ)
        → num_septets (length bytes) ≡ k
        → encode_as_leb128_no_optimization bytes false ≡ some (septets k (le_value bytes))
        → le_value bytes < 128 ^ k
        → encode_as_leb128 bytes false ≡ some (uleb k (le_value bytes))
    go zero e raw fits = absurd (omega arith)
    go (suc j) e raw fits = encode_from bytes j (le_value bytes) raw fits
