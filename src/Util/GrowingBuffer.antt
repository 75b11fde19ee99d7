-- ===== src/Util/GrowingBuffer.antt =====
-- src/util/growingBuffer.c: a byte buffer that grows. `len` is the length of the bytes held; the
-- allocation is tracked to see that a copy stays inside it.
use kanana.Base.{
  ℕ, ◌+◌, ◌*◌, ◌≤◌, ◌≡◌, refl, sym, arith, true, false, Option, none, some, List, [], ◌∷◌, ◌++◌,
  leb, ltb, ◌==◌, if◌then◌else◌, length, length-append, Bool-cases, inl, inr,
}
use mathlib.Core.List.{append-nil}
use kanana.Base.Memory.{◌>>=◌}
use kanana.Leb.{encode_as_leb128}
use kanana.Leb.Words.{le_bytes}

pub record GrowingBuffer : Type 0 where
  pub bytes : List ℕ
  pub allocated : ℕ

abbrev pub zeroed : GrowingBuffer
zeroed = record { bytes = []; allocated = 0 }

-- `memcpy(buf->data+buf->len,data,dataLen)`, which must end inside the allocation.
unfoldable pub copy_in : GrowingBuffer → List ℕ → Option GrowingBuffer
copy_in buf new =
    if leb (length buf.bytes + length new) buf.allocated
    then some (record buf { bytes = buf.bytes ++ new })
    else none

unfoldable pub add_to_growing_buffer : GrowingBuffer → List ℕ → Option GrowingBuffer
add_to_growing_buffer buf new =
    let need = length buf.bytes + length new in
    let grown : GrowingBuffer =
      if ltb buf.allocated need then record buf { allocated = need * 2 } else buf in
    if length new == 0 then some buf else copy_in grown new

unfoldable pub add_uleb_to_growing_buffer : GrowingBuffer → ℕ → Option GrowingBuffer
add_uleb_to_growing_buffer buf word =
    encode_as_leb128 (le_bytes 8 word) false >>= add_to_growing_buffer buf

unfoldable pub add_sleb_to_growing_buffer : GrowingBuffer → ℕ → Option GrowingBuffer
add_sleb_to_growing_buffer buf word =
    encode_as_leb128 (le_bytes 8 word) true >>= add_to_growing_buffer buf

abbrev pub IsBuffer : GrowingBuffer → Type 0
IsBuffer buf = length buf.bytes ≤ buf.allocated

copy_in-some :
    (buf : GrowingBuffer) (new : List ℕ)
    → length buf.bytes + length new ≤ buf.allocated
    → copy_in buf new ≡ some (record buf { bytes = buf.bytes ++ new })
unfolding copy_in
copy_in-some buf new h =
    let room : leb (length buf.bytes + length new) buf.allocated ≡ true = ground arith in rw room

-- `addToGrowingBuffer` never copies past the allocation, appends exactly the new bytes, and keeps
-- the buffer within its allocation.
pub add_to_growing_buffer-append :
    (buf : GrowingBuffer) (new : List ℕ)
    → IsBuffer buf
    → (buf' : GrowingBuffer) × (add_to_growing_buffer buf new ≡ some buf')
      × (buf'.bytes ≡ buf.bytes ++ new)
      × IsBuffer buf'
add_to_growing_buffer-append buf [] h =
    (buf, unfold add_to_growing_buffer in refl, sym (append-nil _), h)
add_to_growing_buffer-append buf (b ∷ new) h =
    let need = length buf.bytes + length (b ∷ new) in
    let len = length-append buf.bytes (b ∷ new) in
    let some_bytes : (length (b ∷ new) == 0) ≡ false = ground arith in
    elim (Bool-cases (ltb buf.allocated need)) [
      | inl full ↦
          let grown : GrowingBuffer = record buf { allocated = need * 2 } in
          (
            record grown { bytes = buf.bytes ++ b ∷ new },
            unfold add_to_growing_buffer in
                rw (some_bytes, full) (copy_in-some grown (b ∷ new) (omega arith)),
            refl,
            omega (arith, len),
          )
      | inr room ↦ (
        record buf { bytes = buf.bytes ++ b ∷ new },
        unfold add_to_growing_buffer in
            rw (some_bytes, room) (copy_in-some buf (b ∷ new) (ground arith)),
        refl,
        ground (arith, len),
      )
    ]
