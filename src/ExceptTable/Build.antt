-- ===== src/ExceptTable/Build.antt =====
-- `buildExceptTableRawData` of src/exceptTable.c.
use kanana.Base.{
  ℕ, zero, suc, ◌+◌, ◌-◌, ◌*◌, ◌%◌, ◌^◌, Option, some, List, [], ◌∷◌, false, ◌==◌, if◌then◌else◌,
  length, replicate, get_elem?,
}
use kanana.Base.Memory.{◌>>=◌, ◌>>◌, assert}
use kanana.Leb.{encode_as_leb128}
use kanana.Leb.Words.{le_bytes}
use kanana.EhPe.{
  PeCodes, Format, uleb128, get_pointer_size_from_eh_pointer_encoding,
  encode_eh_pointer_from_encoding,
}
use kanana.Util.GrowingBuffer.{
  GrowingBuffer, zeroed, add_to_growing_buffer, add_uleb_to_growing_buffer,
}
use kanana.CallFrame.{add_all}
use kanana.ExceptTable.{Lsda, write_actions, write_call_sites, tt_base, misalignment}

-- Zero bytes up to a multiple of four.
unfoldable pub align : GrowingBuffer → Option GrowingBuffer
align buf = add_to_growing_buffer buf (replicate (misalignment (length buf.bytes)) 0)

-- The numbers of the formats, and DW_EH_PE_omit, are those of <dwarf.h>.
module _ (pe : PeCodes) (bitwidth : ℕ) (number : Format → ℕ) where
  unfoldable pub write_lp_start : Lsda → GrowingBuffer → Option GrowingBuffer
  write_lp_start lsda buf = do
    let given = do
      buf' ← add_to_growing_buffer buf (number uleb128 % 256 ∷ [])
      add_uleb_to_growing_buffer buf' lsda.lp_start
    if lsda.lp_start == 0 then add_to_growing_buffer buf (pe.omit % 256 ∷ []) else given

  -- The types from the last to the first; the first argument counts those to come.
  unfoldable pub write_types : ℕ → List ℕ → ℕ → ℕ → ℕ → GrowingBuffer → Option GrowingBuffer
  write_types zero types encoding size address buf = some buf
  write_types (suc j) types encoding size address buf = do
    type ← get_elem? types j
    (info, written) ←
        encode_eh_pointer_from_encoding pe bitwidth type encoding
          ((address + length buf.bytes + j * size) % 2 ^ 64)
    assert (written == size)
    buf' ← add_to_growing_buffer buf (le_bytes size info)
    write_types j types encoding size address buf'

  -- The tables of one LSDA, behind its header.
  unfoldable pub write_tables : Lsda → ℕ → ℕ → GrowingBuffer → Option GrowingBuffer
  write_tables lsda address start buf = do
    actions ← write_actions lsda.action_table
    sites ← write_call_sites actions.offsets lsda.call_site_table zeroed
    size ← get_pointer_size_from_eh_pointer_encoding pe bitwidth lsda.tt_encoding
    let tt_size = size * length lsda.type_table
    sites_length ← encode_as_leb128 (le_bytes 4 (length sites.bytes)) false
    base ←
        tt_base (length buf.bytes - start)
          (1 + length sites_length + length sites.bytes + length actions.buf.bytes + tt_size)
          tt_size
    let omitted = lsda.tt_encoding == pe.omit
    buf' ← add_all buf (
        (if omitted then [] else base.offset_bytes)
        ∷ (number uleb128 % 256 ∷ [])
        ∷ sites_length
        ∷ sites.bytes
        ∷ actions.buf.bytes
        ∷ [])
    let types = do
      buf'' ← add_to_growing_buffer buf' (replicate base.moved 0)
      write_types (length lsda.type_table) lsda.type_table lsda.tt_encoding size address buf''
    if omitted then some buf' else types

  -- One LSDA: the buffer, and the address that the LSDA comes to stand at.
  unfoldable pub write_lsda : ℕ → Lsda → GrowingBuffer → Option (GrowingBuffer × ℕ)
  write_lsda address lsda buf = do
    aligned ← align buf
    buf1 ← write_lp_start lsda aligned
    buf2 ← add_to_growing_buffer buf1 (lsda.tt_encoding % 256 ∷ [])
    buf3 ← write_tables lsda address (length aligned.bytes) buf2
    some (buf3, (address + length aligned.bytes) % 2 ^ 64)

  unfoldable pub build_except_table_raw_data :
      ℕ → List Lsda → GrowingBuffer → Option (GrowingBuffer × List ℕ)
  build_except_table_raw_data address [] buf = some (buf, [])
  build_except_table_raw_data address (lsda ∷ lsdas) buf = do
    (buf', pointer) ← write_lsda address lsda buf
    (buf'', pointers) ← build_except_table_raw_data address lsdas buf'
    some (buf'', pointer ∷ pointers)
