-- ===== src/Leb.antt =====
-- src/leb.c: conversion between little-endian bytes and LEB128 septets.
-- A `byte*` with a count is a list of numbers below 256; a pointer into a section is the list of
-- the bytes from there on. A result array that is filled from the front is the list of its bytes.
pub mod Value
pub mod Septets
pub mod Encode
pub mod Trim
pub mod Total
pub mod Rounds
pub mod Decode
pub mod Result
pub mod Signed
pub mod RoundTrip
pub mod Words
mod Tests
use kanana.Base.{
  ℕ, zero, suc, ◌+◌, ◌-◌, ◌*◌, ◌/◌, ◌%◌, ◌^◌, bit_and, bit_or, Bool, true, false, ◌&&◌, not, Option,
  none, some, List, [], ◌∷◌, ltb, leb, ◌==◌, if◌then◌else◌, length, get_elem?, take, replicate,
}
use kanana.Base.Memory.{◌>>=◌, store}

-- `for(j=0;j<n;j++) mask|=1<<(from+j)`
unfoldable pub set_bits : ℕ → ℕ → ℕ → ℕ
set_bits zero from mask = mask
set_bits (suc n) from mask = set_bits n (from + 1) (bit_or mask (2 ^ from))

-- `for(j=0;j<n;j++) mask|=1<<(7-j-1)`
unfoldable pub set_high_bits : ℕ → ℕ → ℕ → ℕ
set_high_bits zero j mask = mask
set_high_bits (suc n) j mask = set_high_bits n (j + 1) (bit_or mask (2 ^ (7 - j - 1)))

-- `bitsRetrieved`: how many bits of the septet the current byte still holds.
abbrev pub bits_retrieved : ℕ → ℕ
bits_retrieved bit_offset = if ltb (8 - bit_offset) 7 then 8 - bit_offset else 7

-- The bits that the current byte gives, and those of the next byte put behind them.
unfoldable pub first_bits : ℕ → ℕ → ℕ
unfolding set_bits
first_bits bit_offset b =
    bit_and (set_bits (bits_retrieved bit_offset) bit_offset 0) b / 2 ^ bit_offset

unfoldable pub join_bits : ℕ → ℕ → ℕ → ℕ
unfolding set_bits
join_bits retrieved val next =
    bit_or val (bit_and (set_bits (7 - retrieved) 0 0) next * 2 ^ retrieved) % 256

-- `val`, the septet at a position, before its top bit is decided.
unfoldable pub septet_at : List ℕ → ℕ → ℕ → Option ℕ
septet_at bytes byte_offset bit_offset = do
  b ← get_elem? bytes byte_offset
  let retrieved = bits_retrieved bit_offset
  let val = first_bits bit_offset b
  let more = get_elem? bytes (byte_offset + 1) >>= λ next. some (join_bits retrieved val next)
  if ltb retrieved 7 && ltb (byte_offset + 1) (length bytes) then more else some val

-- `signExtendBits` of an object of `n` bytes.
abbrev pub sign_extend_bits : ℕ → ℕ
sign_extend_bits n = let bits = 7 - n * 8 % 7 in if bits == 7 then 0 else bits

unfoldable pub extend_septet : ℕ → ℕ → ℕ
unfolding set_high_bits
extend_septet bits val =
    let mask = set_high_bits bits 0 0 in
    if bit_and val 0x40 == 0 then bit_or val mask else bit_and val (255 - mask)

-- The last septet: sign-extended if the number is signed and negative, and with no top bit.
unfoldable pub last_septet : List ℕ → Bool → ℕ → Option ℕ
last_septet bytes signed val = do
  top ← get_elem? bytes (length bytes - 1)
  let negative = signed && not (bit_and top 0x80 == 0)
  let val' = if negative then extend_septet (sign_extend_bits (length bytes)) val else val
  some (bit_and val' 0x7f)

-- The loop of `encodeAsLEB128NoOptimization`; the first argument counts the septets to come.
unfoldable pub encode_loop : ℕ → List ℕ → Bool → ℕ → ℕ → Option (List ℕ)
encode_loop zero bytes signed byte_offset bit_offset = some []
encode_loop (suc n) bytes signed byte_offset bit_offset = do
  val ← septet_at bytes byte_offset bit_offset
  let wraps = leb 8 (bit_offset + 7)
  let last = last_septet bytes signed val
  out ← (if n == 0 then last else some (bit_or val 0x80))
  rest ←
      encode_loop n bytes signed (if wraps then byte_offset + 1 else byte_offset)
        (if wraps then bit_offset + 7 - 8 else bit_offset + 7)
  some (out ∷ rest)

-- `ceil((float)numBytes*8.0/7.0)`
abbrev pub num_septets : ℕ → ℕ
num_septets n = (8 * n + 6) / 7

unfoldable pub encode_as_leb128_no_optimization : List ℕ → Bool → Option (List ℕ)
encode_as_leb128_no_optimization bytes signed =
    encode_loop (num_septets (length bytes)) bytes signed 0 0

-- `while(n>1 && (result[n-1]&0x7f)==0) n--`
unfoldable pub trim_zeros : List ℕ → ℕ → Option ℕ
trim_zeros result zero = some 0
trim_zeros result (suc zero) = some 1
trim_zeros result (suc (suc n)) = do
  let fewer = trim_zeros result (suc n)
  b ← get_elem? result (suc n)
  if bit_and b 0x7f == 0 then fewer else some (suc (suc n))

-- The loop that chops off septets of nothing but copies of the sign bit.
unfoldable pub trim_signs : ℕ → ℕ → List ℕ → ℕ → Option ℕ
trim_signs ext ext_sixth result zero = some 0
trim_signs ext ext_sixth result (suc zero) = some 1
trim_signs ext ext_sixth result (suc (suc n)) = do
  let fewer = trim_signs ext ext_sixth result (suc n)
  b ← get_elem? result (suc n)
  below ← get_elem? result n
  if bit_and b 0x7f == ext && bit_and below 0x40 == ext_sixth then fewer else some (suc (suc n))

-- `result[n-1]&=0x7f`, and the first `n` bytes, which is what the caller is told to read.
unfoldable pub finish : List ℕ → ℕ → Option (List ℕ)
finish result zero = none
finish result (suc n) = do
  b ← get_elem? result n
  result' ← store result n (bit_and b 0x7f)
  some (take (suc n) result')

unfoldable pub encode_as_leb128 : List ℕ → Bool → Option (List ℕ)
encode_as_leb128 bytes false = do
  result ← encode_as_leb128_no_optimization bytes false
  n ← trim_zeros result (length result)
  finish result n
encode_as_leb128 bytes true = do
  result ← encode_as_leb128_no_optimization bytes true
  top ← get_elem? bytes (length bytes - 1)
  let positive = bit_and top 0x80 == 0
  n ←
      trim_signs (if positive then 0 else 0x7f) (if positive then 0 else 0x40) result
        (length result)
  finish result n

-- `while(bytes[numSeptets++]&(1<<7)) {}`
unfoldable pub count_septets : List ℕ → Option ℕ
count_septets [] = none
count_septets (b ∷ bs) =
    if bit_and b 0x80 == 0 then some 1 else (count_septets bs >>= λ n. some (suc n))

-- The variables of the loop of `decodeLEB128`.
pub record Decoder : Type 0 where
  pub result : List ℕ
  pub byte_idx : ℕ
  pub bits_left : ℕ

-- One round, on the septet with its top bit cleared.
unfoldable pub decode_step : ℕ → Decoder → Option Decoder
decode_step septet d = do
  let shift = 8 - d.bits_left
  current ← get_elem? d.result d.byte_idx
  result ← store d.result d.byte_idx (bit_or current (septet * 2 ^ shift % 256))
  let next = d.byte_idx + 1
  let spill = store result next (septet / 2 ^ (8 - shift)) >>= λ result'.
      some (record { result = result'; byte_idx = next; bits_left = d.bits_left + 1 })
  if d.bits_left == 8
      then some (record { result = result; byte_idx = d.byte_idx; bits_left = 1 })
      else (if d.bits_left == 7
          then some (record { result = result; byte_idx = next; bits_left = 8 })
          else spill)

unfoldable pub decode_loop : ℕ → List ℕ → Decoder → Option Decoder
decode_loop zero bytes d = some d
decode_loop (suc n) [] d = none
decode_loop (suc n) (b ∷ bytes) d = decode_step (bit_and b 0x7f) d >>= decode_loop n bytes

-- The sign extension of a signed number, and the zero byte that an unsigned one does without.
unfoldable pub sign_extend : Decoder → Option Decoder
unfolding set_bits
sign_extend d =
    let extended = get_elem? d.result d.byte_idx >>= λ current.
    (let ones = store d.result d.byte_idx (set_bits d.bits_left (8 - d.bits_left) current) in
      if bit_and current (2 ^ (7 - d.bits_left)) == 0
      then some d
      else (ones >>= λ result. some (record d { result = result }))) in
    if ltb d.bits_left 8 then extended else some d

unfoldable pub drop_zero : Decoder → Option Decoder
drop_zero d =
    let dropped = get_elem? d.result d.byte_idx >>= λ current.
    some (if current == 0 && ltb 0 d.byte_idx then record d { byte_idx = d.byte_idx - 1 } else d) in
    if d.bits_left == 8 then some d else dropped

-- The bytes and the number of septets read. Shrinking the array to `numBytes` is `take`.
unfoldable pub decode_leb128 : List ℕ → Bool → Option (List ℕ × ℕ)
decode_leb128 bytes signed = do
  septets ← count_septets bytes
  let empty : Decoder = record {
    result = replicate ((septets * 7 + 7) / 8) 0;
    byte_idx = 0;
    bits_left = 8;
  }
  d ← decode_loop septets bytes empty
  d' ← (if signed then sign_extend d else drop_zero d)
  some (take (if d'.bits_left == 8 then d'.byte_idx else d'.byte_idx + 1) d'.result, septets)
