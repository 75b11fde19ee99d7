-- ===== src/Leb/Words/Laws.antt =====
-- What the conversions of ints and words in src/leb.c do one after the other.
use kanana.Base.{
  ℕ, zero, suc, ◌+◌, ◌*◌, ◌/◌, ◌^◌, ◌≤◌, ◌<◌, ◌≡◌, ◌⊎◌, refl, ap, ◌∙◌, arith, some, List, ◌++◌,
  true, false, ltb, leb, length, All, inl, inr, Bool-cases,
}
use kanana.Base.Memory.{IsByte}
use kanana.Leb.{num_septets, encode_as_leb128, decode_leb128}
use kanana.Leb.Value.{le_value, uleb, pow_256-le-pow_128}
use kanana.Leb.Trim.{encode_as_leb128-uleb, bytes_fit}
use kanana.Leb.Result.{decode_leb128-unsigned, Narrow}
use kanana.Leb.RoundTrip.{uleb-leb_value, uleb-count, uleb-IsByte}
use kanana.Leb.Words.{
  le_bytes, bytes_needed, uint_to_leb128, decoded, leb128_to_uint, leb128_to_uword,
}
use native.Mathlib.Nat.{pow-suc}

pub length-le_bytes : (n v : ℕ) → length (le_bytes n v) ≡ n
unfolding le_bytes
length-le_bytes zero v = refl
length-le_bytes (suc n) v = ap suc (length-le_bytes n (v / 256))

pub le_bytes-IsByte : (n v : ℕ) → All IsByte (le_bytes n v)
unfolding le_bytes
le_bytes-IsByte zero v = tt
le_bytes-IsByte (suc n) v = (omega arith, le_bytes-IsByte n (v / 256))

pub le_value-le_bytes : (n v : ℕ) → v < 256 ^ n → le_value (le_bytes n v) ≡ v
unfolding le_bytes le_value
le_value-le_bytes zero v h = omega arith
le_value-le_bytes (suc n) v h =
    let small : v / 256 < 256 ^ n = let wide : v < 256 ^ n * 256 = rw pow-suc at h in omega arith in
    omega (arith, le_value-le_bytes n (v / 256) small)

-- The septet that a shortest encoding ends in is not zero, unless it is the only one.
pub uleb-least : (k v : ℕ) → (m : ℕ) × (length (uleb k v) ≡ suc m) × ((m ≡ 0) ⊎ (128 ^ m ≤ v))
unfolding uleb
uleb-least zero v = (0, refl, inl refl)
uleb-least (suc k) v = elim (Bool-cases (ltb v 128)) [
  | inl small ↦ (0, rw small, inl refl)
  | inr big ↦
      let (m, e, least) = uleb-least k (v / 128) in
      (suc m, rw big (ap suc e), inr (rw pow-suc (more m big least)))
]
  where
    more : (m : ℕ) → ltb v 128 ≡ false → (m ≡ 0) ⊎ (128 ^ m ≤ v / 128) → 128 ^ m * 128 ≤ v
    more m big (inl z) = rw z (ground arith)
    more m big (inr h) = omega arith

-- The shortest encoding of a number of `n` bytes has no more septets than its bits need.
uleb-Narrow : (k n v : ℕ) → 0 < n → v < 256 ^ n → Narrow (length (uleb k v)) v n
uleb-Narrow k n v pos h = let (m, e, least) = uleb-least k v in (pos, h, few m e least)
  where
    few :
        (m : ℕ)
        → length (uleb k v) ≡ suc m
        → (m ≡ 0) ⊎ (128 ^ m ≤ v)
        → 7 * length (uleb k v) < 8 * n + 8
    few m e (inl z) = omega arith
    few m e (inr h') = elim (Bool-cases (ltb (7 * m) (8 * n))) [
      | inl lt ↦ ground arith
      | inr ge ↦ absurd (omega (arith, pow_256-le-pow_128 n m (ground arith)))
    ]

-- Reading back a shortest encoding of a number of `n` bytes takes no more bytes than that.
pub decode-uleb :
    (k n v : ℕ) (rest : List ℕ)
    → 0 < n
    → v < 256 ^ n
    → v < 128 ^ suc k
    → All IsByte rest
    → (out : List ℕ) × (decode_leb128 (uleb k v ++ rest) false ≡ some (out, length (uleb k v)))
      × (le_value out ≡ v)
      × (leb (length out) n ≡ true)
      × All IsByte out
decode-uleb k n v rest pos h wide hr =
    let (out, run, same, bytes, _, narrow) =
      decode_leb128-unsigned (uleb k v ++ rest) (length (uleb k v)) (uleb-IsByte k v rest wide hr)
        (uleb-count k v rest wide) in
    let value = uleb-leb_value k v rest wide in
    (out, run, same ∙ value, ground (arith, narrow n (rw value (uleb-Narrow k n v pos h))), bytes)

pub bytes_needed-fits :
    (value : ℕ)
    → value < 2 ^ 32
    → (0 < bytes_needed value) × (value < 256 ^ bytes_needed value) × (bytes_needed value ≤ 4)
unfolding bytes_needed
bytes_needed-fits value h = elim (Bool-cases (ltb 0 (value / 2 ^ 24))) [
  | inl e ↦ rw e (omega arith)
  | inr e ↦ elim (Bool-cases (ltb 0 (value / 2 ^ 16))) [
    | inl e' ↦ rw (e, e') (omega arith, ground arith, omega arith)
    | inr e' ↦ elim (Bool-cases (ltb 0 (value / 2 ^ 8))) [
      | inl e'' ↦ rw (e, e', e'') (omega arith, ground arith, omega arith)
      | inr e'' ↦ rw (e, e', e'') (omega arith, ground arith, omega arith)
    ]
  ]
]

-- What `encodeAsLEB128` writes for an unsigned object of `n` bytes.
pub encode-le_bytes :
    (n v : ℕ)
    → 0 < n
    → v < 256 ^ n
    → (encode_as_leb128 (le_bytes n v) false ≡ some (uleb (num_septets n) v))
      × (v < 128 ^ suc (num_septets n))
encode-le_bytes n v pos h =
    let len = length-le_bytes n v in
    let value = le_value-le_bytes n v h in
    (
      rw (len, value) at (encode_as_leb128-uleb (le_bytes n v) (le_bytes-IsByte n v) (rw len pos)),
      rw pow-suc
          (omega (arith, rw (len, value) at (bytes_fit (le_bytes n v) (le_bytes-IsByte n v)))),
    )

-- `uintToLEB128`, on any 32-bit number, writes septets that `leb128ToUInt` reads back as that number,
-- whatever bytes follow; it reports the number of septets written.
pub leb128_to_uint-uint_to_leb128 :
    (value : ℕ) (rest : List ℕ)
    → value < 2 ^ 32
    → All IsByte rest
    → (written : List ℕ) × (uint_to_leb128 value ≡ some written)
      × (leb128_to_uint (written ++ rest) ≡ some (value, length written))
unfolding uint_to_leb128 leb128_to_uint decoded
leb128_to_uint-uint_to_leb128 value rest h hr =
    let n = bytes_needed value in
    let (pos, fits, few) = bytes_needed-fits value h in
    let (enc, wide) = encode-le_bytes n value pos fits in
    let (out, run, same, size, _) =
      decode-uleb (num_septets n) 4 value rest (omega arith) h wide hr in
    (
      uleb (num_septets n) value,
      enc,
      rw (run, size) (ap (λ x. some (x, length (uleb (num_septets n) value))) same),
    )

-- `encodeAsLEB128` of a 64-bit word, unsigned, is read back by `leb128ToUWord`, whatever bytes follow.
pub leb128_to_uword-encode :
    (value : ℕ) (rest : List ℕ)
    → value < 2 ^ 64
    → All IsByte rest
    → (written : List ℕ) × (encode_as_leb128 (le_bytes 8 value) false ≡ some written)
      × (leb128_to_uword (written ++ rest) ≡ some (value, length written))
unfolding leb128_to_uword decoded
leb128_to_uword-encode value rest h hr =
    let (enc, wide) = encode-le_bytes 8 value (omega arith) h in
    let (out, run, same, size, _) =
      decode-uleb (num_septets 8) 8 value rest (omega arith) h wide hr in
    (
      uleb (num_septets 8) value,
      enc,
      rw (run, size) (ap (λ x. some (x, length (uleb (num_septets 8) value))) same),
    )
