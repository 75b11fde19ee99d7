-- ===== src/Leb/Encode.antt =====
-- What the encoders of src/leb.c produce.
use kanana.Base.{
  ℕ, zero, suc, ◌+◌, ◌-◌, ◌*◌, ◌%◌, ◌<◌, ◌≡◌, refl, ap, arith, List, ◌∷◌, some, leb, ◌==◌,
  if◌then◌else◌, length, All, inl, inr, false, Bool-cases, bit_or,
}
use kanana.Base.Bits.{low_bits, set_top_bit}
use kanana.Base.Memory.{IsByte, get_elem?-some, ◌>>=◌}
use kanana.Leb.{num_septets, septet_at, last_septet, encode_loop, encode_as_leb128_no_optimization}
use kanana.Leb.Value.{le_value, septets}
use kanana.Leb.Septets.{tail_value, septet_at_lem, tail_value_step}

last_unsigned :
    (bytes : List ℕ) (v : ℕ) → 0 < length bytes → last_septet bytes false (v % 128) ≡ some (v % 128)
unfolding last_septet
last_unsigned bytes v h =
    rw (get_elem?-some bytes (length bytes - 1) 0 (omega arith), low_bits (v % 128) (omega arith))
      (ap some (omega arith))

-- A septet that is not the last.
encode_loop_more :
    (n i s val : ℕ) (bytes : List ℕ)
    → septet_at bytes i s ≡ some val
    → encode_loop (suc (suc n)) bytes false i s ≡ (
        encode_loop
          (suc n)
          bytes
          false
          (if leb 8 (s + 7) then i + 1 else i)
          (if leb 8 (s + 7) then s + 7 - 8 else s + 7)
        >>= λ rest. some (bit_or val 0x80 ∷ rest))
unfolding encode_loop
encode_loop_more n i s val bytes e = let more : (suc n == 0) ≡ false = ground arith in rw (e, more)

-- A position of `n` septets before the end lies inside the object.
encode_loop-septets :
    (n i s : ℕ) (bytes : List ℕ)
    → All IsByte bytes
    → s < 8
    → 8 * i + s + 7 * n < 8 * length bytes + 7
    → encode_loop n bytes false i s ≡ some (septets n (tail_value bytes i s))
unfolding septets
encode_loop-septets zero i s bytes h hs room = unfold encode_loop in refl
encode_loop-septets (suc zero) i s bytes h hs room =
    unfold encode_loop in
    rw (
      septet_at_lem bytes i s h (omega arith) hs,
      last_unsigned bytes (tail_value bytes i s) (omega arith),
    )
encode_loop-septets (suc (suc n)) i s bytes h hs room =
    let hi : i < length bytes = omega arith in
    rw
      (
        encode_loop_more n i s _ bytes (septet_at_lem bytes i s h hi hs),
        set_top_bit (tail_value bytes i s % 128) (omega arith),
        tail_value_step bytes i s h hi hs,
      )
      (elim (Bool-cases (leb 8 (s + 7))) [
        | inl wraps ↦ rw (
          wraps,
          encode_loop-septets (suc n) (i + 1) (s + 7 - 8) bytes h (omega arith) (ground arith),
        )
        | inr stays ↦
            rw (stays, encode_loop-septets (suc n) i (s + 7) bytes h (ground arith) (ground arith))
      ])

-- Unsigned, the encoder writes the septets of the number, `ceil(8n/7)` of them.
pub encode_no_optimization-septets :
    (bytes : List ℕ)
    → All IsByte bytes
    → encode_as_leb128_no_optimization bytes false
      ≡ some (septets (num_septets (length bytes)) (le_value bytes))
unfolding encode_as_leb128_no_optimization tail_value
encode_no_optimization-septets bytes h =
    rw (encode_loop-septets (num_septets (length bytes)) 0 0 bytes h (omega arith) (omega arith))
      (ap (λ v. some (septets (num_septets (length bytes)) v)) (omega arith))
