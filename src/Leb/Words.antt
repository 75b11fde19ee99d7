-- ===== src/Leb/Words.antt =====
-- The ints and words of src/leb.c, and `sextend` of src/util/util.c.
-- An `int` and an `sword_t` are their bit patterns, below 2 ^ 32 and 2 ^ 64.
pub mod Laws
pub mod Uleb
use kanana.Base.{
  ℕ, zero, suc, ◌+◌, ◌-◌, ◌*◌, ◌/◌, ◌%◌, ◌^◌, Option, none, some, List, [], ◌∷◌, Bool, true, false,
  ltb, leb, ◌==◌, if◌then◌else◌, length, ◌&&◌,
}
use kanana.Base.Memory.{◌>>=◌, ◌>>◌, assert}
use kanana.Leb.{encode_as_leb128, decode_leb128}
use kanana.Leb.Value.{le_value}

-- The first `n` bytes of an object that holds `v`, on a little-endian machine.
unfoldable pub le_bytes : ℕ → ℕ → List ℕ
le_bytes zero v = []
le_bytes (suc n) v = v % 256 ∷ le_bytes n (v / 256)

-- `bytesNeeded`: the masks 0xFF000000, 0xFFFF0000 and 0xFFFFFF00 leave the bits from 24, 16 and 8 on.
unfoldable pub bytes_needed : ℕ → ℕ
bytes_needed value =
    if ltb 0 (value / 2 ^ 24)
    then 4
    else (if ltb 0 (value / 2 ^ 16) then 3 else (if ltb 0 (value / 2 ^ 8) then 2 else 1))

unfoldable pub uint_to_leb128 : ℕ → Option (List ℕ)
uint_to_leb128 value = encode_as_leb128 (le_bytes (bytes_needed value) value) false

unfoldable pub int_to_leb128 : ℕ → Option (List ℕ)
int_to_leb128 value =
    if ltb value (2 ^ 31) then uint_to_leb128 value else encode_as_leb128 (le_bytes 4 value) true

-- `sextend`: the mask is the int `1<<(8*fromWhichByte-1)`, which is undefined for no byte and for
-- more than four. At four bytes it is the least int, and stands for bit 31 and all above it.
unfoldable pub sextend : ℕ → ℕ → Option ℕ
sextend val from =
    if from == 8
    then some val
    else (if ltb 0 from && leb from 4
        then (if val / 2 ^ (8 * from - 1) % 2 == 1
            then some (val % 2 ^ (8 * from) + (2 ^ 64 - 2 ^ (8 * from)))
            else some val)
        else none)

-- `memcpy(&val,result,resultBytes)` into a zero word of `size` bytes, behind the `assert`.
unfoldable pub decoded : ℕ → List ℕ → Option ℕ
decoded size out = do assert (leb (length out) size); some (le_value out)

unfoldable pub leb128_to_uint : List ℕ → Option (ℕ × ℕ)
leb128_to_uint bytes = do
  (out, read) ← decode_leb128 bytes false
  val ← decoded 4 out
  some (val, read)

-- The word is cut back to an int.
unfoldable pub leb128_to_int : List ℕ → Option (ℕ × ℕ)
leb128_to_int bytes = do
  (out, read) ← decode_leb128 bytes true
  val ← decoded 4 out
  let extended = sextend val (length out) >>= λ word. some (word % 2 ^ 32, read)
  if ltb (length out) 4 then extended else some (val, read)

unfoldable pub leb128_to_uword : List ℕ → Option (ℕ × ℕ)
leb128_to_uword bytes = do
  (out, read) ← decode_leb128 bytes false
  val ← decoded 8 out
  some (val, read)

unfoldable pub leb128_to_sword : List ℕ → Option (ℕ × ℕ)
leb128_to_sword bytes = do
  (out, read) ← decode_leb128 bytes true
  val ← decoded 8 out
  let extended = sextend val (length out) >>= λ word. some (word, read)
  if ltb (length out) 8 then extended else some (val, read)
