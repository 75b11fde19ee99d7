-- ===== src/Leb/Septets.antt =====
-- One septet of src/leb.c as arithmetic: the masks and shifts of a round of the encoder.
use kanana.Base.{
  ℕ, zero, suc, ◌+◌, ◌-◌, ◌*◌, ◌/◌, ◌%◌, ◌^◌, ◌<◌, ◌≡◌, refl, arith, List, some, ltb, leb,
  if◌then◌else◌, length, get_or, drop, All, ◌⊎◌, ap, ltb→lt, inl, inr, false, Bool-cases, bit_and,
  bit_or,
}
use kanana.Base.Bits.{grid, agree₂}
use kanana.Base.Memory.{IsByte, get_elem?-some}
use kanana.Leb.{set_bits, first_bits, join_bits, bits_retrieved, septet_at}
use kanana.Leb.Value.{le_value, le_value-drop, drop_all, get_or-IsByte}

first_bits-mod : (s b : ℕ) → s < 8 → b < 256 → first_bits s b ≡ b / 2 ^ s % 2 ^ bits_retrieved s
unfolding first_bits grid
first_bits-mod s b hs hb =
    agree₂ 8 256 first_bits (λ s b. b / 2 ^ s % 2 ^ bits_retrieved s) refl s b hs hb

low_mask : (r c : ℕ) → r < 8 → c < 256 → bit_and (set_bits (7 - r) 0 0) c ≡ c % 2 ^ (7 - r)
unfolding set_bits grid
low_mask = agree₂ 8 256 (λ r c. bit_and (set_bits (7 - r) 0 0) c) (λ r c. c % 2 ^ (7 - r)) refl

-- The two parts of a septet, split at bit `r`, do not overlap.
or_parts : (r y : ℕ) → r < 8 → y < 128 → bit_or (y % 2 ^ r) (y / 2 ^ r * 2 ^ r) % 256 ≡ y
unfolding grid
or_parts = agree₂ 8 128 (λ r y. bit_or (y % 2 ^ r) (y / 2 ^ r * 2 ^ r) % 256) (λ r y. y) refl

-- The parts of the septet at bit `s` of a byte `b` that is followed by `c`.
parts :
    (s b c : ℕ)
    → s < 8
    → b < 256
    → let y = (b + 256 * c) / 2 ^ s % 128 in
      (y % 2 ^ bits_retrieved s ≡ b / 2 ^ s % 2 ^ bits_retrieved s)
      × (y / 2 ^ bits_retrieved s ≡ c % 2 ^ (7 - bits_retrieved s))
parts zero b c hs hb = (omega arith, omega arith)
parts (suc zero) b c hs hb = (omega arith, omega arith)
parts (suc (suc zero)) b c hs hb = (omega arith, omega arith)
parts (suc (suc (suc zero))) b c hs hb = (omega arith, omega arith)
parts (suc (suc (suc (suc zero)))) b c hs hb = (omega arith, omega arith)
parts (suc (suc (suc (suc (suc zero))))) b c hs hb = (omega arith, omega arith)
parts (suc (suc (suc (suc (suc (suc zero)))))) b c hs hb = (omega arith, omega arith)
parts (suc (suc (suc (suc (suc (suc (suc zero))))))) b c hs hb = (omega arith, omega arith)
parts (suc (suc (suc (suc (suc (suc (suc (suc s)))))))) b c hs hb = absurd (omega arith)

-- A septet of a byte `b` at bit `s`, when the next byte is `c`.
join_lem :
    (s b c : ℕ)
    → s < 8
    → b < 256
    → c < 256
    → join_bits (bits_retrieved s) (first_bits s b) c ≡ (b + 256 * c) / 2 ^ s % 128
unfolding join_bits
join_lem s b c hs hb hc =
    let (low, high) = parts s b c hs hb in
    rw (
      first_bits-mod s b hs hb,
      low_mask (bits_retrieved s) c (ground arith) hc,
      ← low,
      ← high,
      or_parts (bits_retrieved s) ((b + 256 * c) / 2 ^ s % 128) (ground arith) (omega arith),
    )

-- Seven bits of a byte, or all that are left of the last one, need no other.
first_only :
    (s b rest : ℕ)
    → s < 8
    → b < 256
    → (ltb (bits_retrieved s) 7 ≡ false) ⊎ (rest ≡ 0)
    → b / 2 ^ s % 2 ^ bits_retrieved s ≡ (b + 256 * rest) / 2 ^ s % 128
first_only zero b rest hs hb h = omega arith
first_only (suc zero) b rest hs hb h = omega arith
first_only (suc (suc zero)) b rest hs hb h = ground arith
first_only (suc (suc (suc zero))) b rest hs hb h = ground arith
first_only (suc (suc (suc (suc zero)))) b rest hs hb h = ground arith
first_only (suc (suc (suc (suc (suc zero))))) b rest hs hb h = ground arith
first_only (suc (suc (suc (suc (suc (suc zero)))))) b rest hs hb h = ground arith
first_only (suc (suc (suc (suc (suc (suc (suc zero))))))) b rest hs hb h = ground arith
first_only (suc (suc (suc (suc (suc (suc (suc (suc s)))))))) b rest hs hb h = absurd (omega arith)

-- The bytes behind the next one do not reach into a septet.
above_mod : (s a c : ℕ) → s < 8 → (a + 65536 * c) / 2 ^ s % 128 ≡ a / 2 ^ s % 128
above_mod zero a c hs = omega arith
above_mod (suc zero) a c hs = omega arith
above_mod (suc (suc zero)) a c hs = omega arith
above_mod (suc (suc (suc zero))) a c hs = omega arith
above_mod (suc (suc (suc (suc zero)))) a c hs = omega arith
above_mod (suc (suc (suc (suc (suc zero))))) a c hs = omega arith
above_mod (suc (suc (suc (suc (suc (suc zero)))))) a c hs = omega arith
above_mod (suc (suc (suc (suc (suc (suc (suc zero))))))) a c hs = omega arith
above_mod (suc (suc (suc (suc (suc (suc (suc (suc s)))))))) a c hs = absurd (omega arith)

-- What is still to be encoded, from a position on.
unfoldable pub tail_value : List ℕ → ℕ → ℕ → ℕ
tail_value bytes i s = le_value (drop i bytes) / 2 ^ s

module _ (bytes : List ℕ) (i s : ℕ) (h : All IsByte bytes) (hi : i < length bytes)
    (hs : s < 8) where
  tail_first :
      (ltb (bits_retrieved s) 7 ≡ false) ⊎ (le_value (drop (i + 1) bytes) ≡ 0)
      → first_bits s (get_or bytes i 0) ≡ tail_value bytes i s % 128
  unfolding tail_value
  tail_first e =
      rw (le_value-drop bytes i hi, first_bits-mod s _ hs (get_or-IsByte bytes i h))
        (first_only s _ _ hs (get_or-IsByte bytes i h) e)

  tail_join :
      i + 1 < length bytes
      → join_bits (bits_retrieved s) (first_bits s (get_or bytes i 0)) (get_or bytes (i + 1) 0)
        ≡ tail_value bytes i s % 128
  unfolding tail_value
  tail_join more =
      let b = get_or bytes i 0 in
      let c = get_or bytes (i + 1) 0 in
      let rest = le_value (drop (i + 1 + 1) bytes) in
      let regroup : b + 256 * (c + 256 * rest) ≡ b + 256 * c + 65536 * rest = omega arith in
      rw
        (le_value-drop bytes i hi, le_value-drop bytes (i + 1) more, regroup, above_mod s _ rest hs)
        (join_lem s b c hs (get_or-IsByte bytes i h) (get_or-IsByte bytes (i + 1) h))

  -- The encoder reads, inside the object, the lowest septet of what is left.
  pub septet_at_lem : septet_at bytes i s ≡ some (tail_value bytes i s % 128)
  unfolding septet_at
  septet_at_lem = rw (get_elem?-some bytes i 0 hi) (elim (Bool-cases (ltb (bits_retrieved s) 7)) [
    | inl few ↦ elim (Bool-cases (ltb (i + 1) (length bytes))) [
      | inl more ↦
          rw (few, more, get_elem?-some bytes (i + 1) 0 (ltb→lt _ _ more))
            (ap some (tail_join (ltb→lt _ _ more)))
      | inr none_left ↦
          rw (few, none_left) (ap some (tail_first (inr (drop_all bytes (i + 1) (ground arith)))))
    ]
    | inr enough ↦ rw enough (ap some (tail_first (inl enough)))
  ])

-- What is left after a septet.
pub tail_value_step :
    (bytes : List ℕ) (i s : ℕ)
    → All IsByte bytes
    → i < length bytes
    → s < 8
    → tail_value bytes i s / 128
      ≡ (if leb 8 (s + 7) then tail_value bytes (i + 1) (s + 7 - 8) else tail_value bytes i (s + 7))
unfolding tail_value
tail_value_step bytes i zero h hi hs =
    omega (arith, le_value-drop bytes i hi, get_or-IsByte bytes i h)
tail_value_step bytes i (suc zero) h hi hs =
    omega (arith, le_value-drop bytes i hi, get_or-IsByte bytes i h)
tail_value_step bytes i (suc (suc zero)) h hi hs =
    omega (arith, le_value-drop bytes i hi, get_or-IsByte bytes i h)
tail_value_step bytes i (suc (suc (suc zero))) h hi hs =
    omega (arith, le_value-drop bytes i hi, get_or-IsByte bytes i h)
tail_value_step bytes i (suc (suc (suc (suc zero)))) h hi hs =
    omega (arith, le_value-drop bytes i hi, get_or-IsByte bytes i h)
tail_value_step bytes i (suc (suc (suc (suc (suc zero))))) h hi hs =
    omega (arith, le_value-drop bytes i hi, get_or-IsByte bytes i h)
tail_value_step bytes i (suc (suc (suc (suc (suc (suc zero)))))) h hi hs =
    omega (arith, le_value-drop bytes i hi, get_or-IsByte bytes i h)
tail_value_step bytes i (suc (suc (suc (suc (suc (suc (suc zero))))))) h hi hs =
    omega (arith, le_value-drop bytes i hi, get_or-IsByte bytes i h)
tail_value_step bytes i (suc (suc (suc (suc (suc (suc (suc (suc s)))))))) h hi hs =
    absurd (omega arith)
