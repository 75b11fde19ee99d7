-- ===== src/Leb/Tests.antt =====
-- Runs of src/leb.c on small inputs, and its theorems at concrete inputs.
use kanana.Base.{
  ℕ, ◌+◌, ◌*◌, ◌^◌, ◌<◌, ◌≤◌, ◌≡◌, refl, arith, List, [], ◌∷◌, ◌++◌, some, length, All, true, false,
}
use kanana.Base.Memory.{IsByte}
use kanana.Leb.{
  count_septets, encode_as_leb128, encode_as_leb128_no_optimization, decode_leb128, encode_loop,
  septet_at, first_bits, join_bits, last_septet, extend_septet, trim_zeros, trim_signs, finish,
  decode_loop, decode_step, sign_extend, drop_zero,
}
use kanana.Leb.Value.{le_value, leb_value, uleb, septets}
use kanana.Leb.Encode.{encode_no_optimization-septets}
use kanana.Leb.Trim.{encode_as_leb128-uleb}
use kanana.Leb.Result.{Narrow, decode_leb128-unsigned}
use kanana.Leb.Signed.{SameSigned, decode_leb128-signed}
use kanana.Leb.RoundTrip.{decode-encode}
use kanana.Leb.Words.{uint_to_leb128, leb128_to_uint}
use kanana.Leb.Words.Laws.{leb128_to_uint-uint_to_leb128}

-- 624485 is the example of the DWARF standard.
abbrev number : List ℕ
number = 0x65 ∷ 0x87 ∷ 0x09 ∷ 0x00 ∷ []

abbrev septets_of : List ℕ
septets_of = 0xe5 ∷ 0x8e ∷ 0x26 ∷ []

encode_unsigned : encode_as_leb128 number false ≡ some septets_of
unfolding encode_as_leb128 encode_as_leb128_no_optimization encode_loop septet_at first_bits
    join_bits last_septet extend_septet trim_zeros finish
encode_unsigned = refl

encode_minus_two : encode_as_leb128 (0xfe ∷ 0xff ∷ []) true ≡ some (0x7e ∷ [])
unfolding encode_as_leb128 encode_as_leb128_no_optimization encode_loop septet_at first_bits
    join_bits last_septet extend_septet trim_signs finish
encode_minus_two = refl

decode_unsigned : decode_leb128 septets_of false ≡ some (0x65 ∷ 0x87 ∷ 0x09 ∷ [], 3)
unfolding decode_leb128 count_septets decode_loop decode_step drop_zero
decode_unsigned = refl

decode_minus_two : decode_leb128 (0x7e ∷ []) true ≡ some (0xfe ∷ [], 1)
unfolding decode_leb128 count_septets decode_loop decode_step sign_extend
decode_minus_two = refl

encode_no_optimization-septets_example :
    encode_as_leb128_no_optimization number false ≡ some (septets 5 (le_value number))
encode_no_optimization-septets_example = encode_no_optimization-septets number (omega arith)

encode_as_leb128-uleb_example : encode_as_leb128 number false ≡ some (uleb 5 (le_value number))
encode_as_leb128-uleb_example = encode_as_leb128-uleb number (omega arith) (omega arith)

decode_leb128-unsigned_example :
    (out : List ℕ) × (decode_leb128 septets_of false ≡ some (out, 3))
    × (le_value out ≡ leb_value septets_of)
    × All IsByte out
    × (8 * length out < 7 * 3 + 8)
    × ((n : ℕ) → Narrow 3 (leb_value septets_of) n → length out ≤ n)
unfolding count_septets
decode_leb128-unsigned_example = decode_leb128-unsigned septets_of 3 (omega arith) refl

decode_leb128-signed_example :
    (out : List ℕ) × (decode_leb128 (0x7e ∷ []) true ≡ some (out, 1))
    × All IsByte out
    × (8 * length out < 7 * 1 + 8)
    × SameSigned (128 ^ 1) (leb_value (0x7e ∷ [])) (256 ^ length out) (le_value out)
unfolding count_septets
decode_leb128-signed_example = decode_leb128-signed (0x7e ∷ []) 1 (omega arith) refl

decode-encode_example :
    (written out : List ℕ) × (encode_as_leb128 number false ≡ some written)
    × (decode_leb128 (written ++ (0xff ∷ [])) false ≡ some (out, length written))
    × (le_value out ≡ le_value number)
decode-encode_example = decode-encode number (0xff ∷ []) (omega arith) (omega arith) (omega arith)

leb128_to_uint-uint_to_leb128_example :
    (written : List ℕ) × (uint_to_leb128 624485 ≡ some written)
    × (leb128_to_uint (written ++ (0xff ∷ [])) ≡ some (624485, length written))
leb128_to_uint-uint_to_leb128_example =
    leb128_to_uint-uint_to_leb128 624485 (0xff ∷ []) (omega arith) (omega arith)
