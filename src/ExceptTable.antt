-- ===== src/ExceptTable.antt =====
-- src/exceptTable.c: the tables of .gcc_except_table, as `buildExceptTableRawData` writes them. An int is its
-- bit pattern, and an index or an offset is a word.
pub mod Build
pub mod Read
pub mod Chains
pub mod Returns
pub mod Room
pub mod Wide
pub mod Fits
pub mod Actions
pub mod Parse
pub mod Fields
pub mod CallSites
mod Tests
use kanana.Base.{
  ℕ, zero, suc, ◌+◌, ◌-◌, ◌*◌, ◌/◌, ◌%◌, ◌^◌, bit_and, bit_or, Option, none, some, List, [], ◌∷◌,
  ◌++◌, Bool, true, false, not, leb, ltb, ◌==◌, ◌&&◌, ◌||◌, if◌then◌else◌, length, get_elem?,
  replicate, take,
}
use kanana.Base.Memory.{◌>>=◌, ◌>>◌, assert, store}
use kanana.Leb.{encode_as_leb128}
use kanana.Leb.Words.{le_bytes}
use kanana.Dwarf.Cfa.Parse.{int_to_word}
use kanana.EhPe.{
  PeCodes, Format, uleb128, sub_addr, get_pointer_size_from_eh_pointer_encoding,
  encode_eh_pointer_from_encoding,
}
use kanana.Util.GrowingBuffer.{
  GrowingBuffer, zeroed, add_to_growing_buffer, add_uleb_to_growing_buffer,
  add_sleb_to_growing_buffer,
}

pub record CallSiteRecord : Type 0 where
  pub position : ℕ
  pub call_length : ℕ
  pub landing_pad_position : ℕ
  pub first_action : ℕ
  pub has_action : Bool

pub record ActionRecord : Type 0 where
  pub type_filter_index : ℕ
  pub next_action : ℕ
  pub has_next_action : Bool

pub record Lsda : Type 0 where
  pub lp_start : ℕ
  pub call_site_table : List CallSiteRecord
  pub action_table : List ActionRecord
  pub tt_encoding : ℕ
  pub type_table : List ℕ

-- The offsets of the actions, zero for those that are not written, and what is written of them.
pub record Written : Type 0 where
  pub offsets : List ℕ
  pub buf : GrowingBuffer

-- What is written behind the type index of an action: nothing more, the way to an action that is written,
-- or the way to the one that is written next.
unfoldable pub end_chain : List ℕ → GrowingBuffer → List ℕ → Option Written
end_chain offsets buf bytes = do
  buf' ← add_to_growing_buffer buf bytes
  some (record { offsets = offsets; buf = buf' })

unfoldable pub link_back : List ℕ → GrowingBuffer → ℕ → Option Written
link_back offsets buf there = do
  buf' ← add_sleb_to_growing_buffer buf (sub_addr there (length buf.bytes))
  some (record { offsets = offsets; buf = buf' })

-- The chain of actions from one on; the first argument bounds the rounds.
unfoldable pub write_chain : ℕ → List ActionRecord → ℕ → Written → Option Written
write_chain zero table idx w = none
write_chain (suc fuel) table idx w = do
  offsets ← store w.offsets idx (length w.buf.bytes)
  action ← get_elem? table idx
  buf ← add_uleb_to_growing_buffer w.buf (int_to_word ((action.type_filter_index + 1) % 2 ^ 32))
  let onward = do
    buf' ← add_to_growing_buffer buf (1 ∷ [])
    write_chain fuel table action.next_action (record { offsets = offsets; buf = buf' })
  let chained = get_elem? offsets action.next_action >>= λ there.
      if not (there == 0) || action.next_action == 0 then link_back offsets buf there else onward
  if action.has_next_action then chained else end_chain offsets buf (0 ∷ [])

-- The loop over all actions; the first argument counts those to come.
unfoldable pub write_actions_from : ℕ → List ActionRecord → ℕ → Written → Option Written
write_actions_from zero table j w = some w
write_actions_from (suc n) table j w = do
  there ← get_elem? w.offsets j
  w' ← if not (there == 0) then some w else write_chain (suc (length table)) table j w
  write_actions_from n table (suc j) w'

unfoldable pub write_actions : List ActionRecord → Option Written
write_actions table =
    write_actions_from (length table) table 0
      (record { offsets = replicate (length table) 0; buf = zeroed })

-- The offset is one more than it is, since none is written as zero.
unfoldable pub write_action_of : List ℕ → CallSiteRecord → GrowingBuffer → Option GrowingBuffer
write_action_of offsets site buf = do
  let first =
      get_elem? offsets site.first_action >>= λ there. add_uleb_to_growing_buffer buf (1 + there)
  if site.has_action then first else add_to_growing_buffer buf (0 ∷ [])

unfoldable pub write_call_sites :
    List ℕ → List CallSiteRecord → GrowingBuffer → Option GrowingBuffer
write_call_sites offsets [] buf = some buf
write_call_sites offsets (site ∷ sites) buf = do
  buf1 ← add_uleb_to_growing_buffer buf site.position
  buf2 ← add_uleb_to_growing_buffer buf1 site.call_length
  buf3 ← add_uleb_to_growing_buffer buf2 site.landing_pad_position
  buf4 ← write_action_of offsets site buf3
  write_call_sites offsets sites buf4

-- Whether a few more can be added to a number without another septet: whether some septet but the first
-- is not full, or the first is not nearly full.
unfoldable pub not_full : List ℕ → Bool
not_full [] = false
not_full (b ∷ bs) = not (bit_and b 0x7f == 0x7f) || not_full bs

unfoldable pub found_room : List ℕ → Bool
found_room [] = false
found_room (b ∷ bs) = not (bit_and b 0x70 == 0x70) || not_full bs

unfoldable pub misalignment : ℕ → ℕ
misalignment n = if n % 4 == 0 then 0 else 4 - n % 4

-- The number written in one byte more than it takes.
unfoldable pub widened : List ℕ → ℕ → Option (List ℕ)
widened bytes space = do
  assert (space - length bytes == 1)
  last ← get_elem? bytes (space - 2)
  bytes' ← store bytes (space - 2) (bit_or last 0x80)
  some (bytes' ++ 0 ∷ [])

-- `ttBaseOffset`: the bytes that it is written as, how far the type table must be moved to be aligned.
pub record TtBase : Type 0 where
  pub offset_bytes : List ℕ
  pub moved : ℕ

-- `before` is what stands in front of the offset, and `guess` what stands between it and the table's end.
unfoldable pub tt_base : ℕ → ℕ → ℕ → Option TtBase
tt_base before guess tt_size = do
  guess_bytes ← encode_as_leb128 (le_bytes 8 guess) false
  let space = if found_room guess_bytes then length guess_bytes else length guess_bytes + 1
  let moved = misalignment (before + space + (guess - tt_size))
  bytes ← encode_as_leb128 (le_bytes 8 (guess + moved)) false
  let narrow = widened bytes space >>= λ wide. some (record { offset_bytes = wide; moved = moved })
  if ltb (length bytes) space
      then narrow
      else some (record { offset_bytes = take space bytes; moved = moved })
