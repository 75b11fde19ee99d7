-- ===== src/CallFrame/FdeBytes.antt =====
-- `buildFDERawData` of src/callFrameInfo.c.
use kanana.Base.{
  ℕ, ◌+◌, ◌-◌, ◌%◌, ◌^◌, Option, some, List, [], ◌∷◌, ◌++◌, not, leb, ◌==◌, ◌&&◌, if◌then◌else◌,
  length, get_elem?,
}
use kanana.Base.Memory.{◌>>=◌, ◌>>◌, assert}
use kanana.Leb.Words.{le_bytes, uint_to_leb128}
use kanana.Dwarf.Op.{OpCodes}
use kanana.Dwarf.Cfa.{CfaCodes, serialize_dwarf_reg_instructions}
use kanana.Dwarf.Cfa.Parse.{int_to_word}
use kanana.EhPe.{PeCodes, encode_eh_pointer_from_encoding}
use kanana.Util.GrowingBuffer.{GrowingBuffer}
use kanana.CallFrame.{Fde, Section, padding_needed, padding, add_all}

pub record FdeParts : Type 0 where
  pub cie_offset : ℕ
  pub initial_location : List ℕ
  pub address_range : List ℕ
  pub augmentation_length : List ℕ
  pub augmentation_data : List ℕ
  pub instrs : List ℕ

-- The pointer back to the CIE of .eh_frame is relative to its own place.
unfoldable pub cie_pointer : Section → GrowingBuffer → ℕ → ℕ
cie_pointer cfi buf offset =
    if cfi.is_eh_frame then (length buf.bytes + 2 ^ 32 - offset + 4) % 2 ^ 32 else offset

-- `header.length` before the padding
abbrev pub fde_length : FdeParts → ℕ
fde_length p =
    8
    - 4
    + length p.initial_location
    + length p.address_range
    + length p.augmentation_length
    + length p.augmentation_data
    + length p.instrs

abbrev pub address_range_size : Section → Fde → ℕ
address_range_size cfi fde = if cfi.is_eh_frame then 4 else fde.cie.address_size

unfoldable pub fde_pieces : CfaCodes → Fde → FdeParts → List (List ℕ)
fde_pieces codes fde p =
    let len = fde_length p in
    let size = fde.cie.address_size in
    (le_bytes 4 (len + padding_needed size len) ++ le_bytes 4 p.cie_offset)
    ∷ p.initial_location
    ∷ p.address_range
    ∷ p.augmentation_length
    ∷ p.augmentation_data
    ∷ p.instrs
    ∷ padding codes size len
    ∷ []

module _ (pe : PeCodes) (bitwidth : ℕ) (codes : CfaCodes) (ops : OpCodes) where
  unfoldable pub initial_location : Section → Fde → GrowingBuffer → Option (List ℕ)
  initial_location cfi fde buf = do
    let relative =
        encode_eh_pointer_from_encoding pe bitwidth (int_to_word fde.lowpc)
          fde.cie.fde_pointer_encoding ((cfi.eh_address + length buf.bytes + 8) % 2 ^ 64)
        >>= λ (address, size). some (le_bytes size address)
    if cfi.is_eh_frame
        then relative
        else some (le_bytes fde.cie.address_size (int_to_word fde.lowpc))

  -- The pointer to the LSDA, behind one byte for the length of the augmentation data.
  unfoldable pub lsda_pointer : Section → Fde → GrowingBuffer → List ℕ → ℕ → Option (List ℕ)
  lsda_pointer cfi fde buf lsda_pointers before = do
    pointer ← get_elem? lsda_pointers fde.lsda_idx
    (address, size) ←
        encode_eh_pointer_from_encoding pe bitwidth pointer fde.cie.fde_lsda_pointer_encoding
          ((cfi.eh_address + length buf.bytes + 8 + before + 1) % 2 ^ 64)
    some (le_bytes size address)

  unfoldable pub fde_parts : Section → Fde → List ℕ → List ℕ → GrowingBuffer → Option FdeParts
  fde_parts cfi fde cie_offsets lsda_pointers buf = do
    raw ← serialize_dwarf_reg_instructions codes ops fde.instructions
    offset ← get_elem? cie_offsets fde.cie.idx
    start ← initial_location cfi fde buf
    assert (leb (address_range_size cfi fde) 8)
    let range =
        le_bytes (address_range_size cfi fde)
          (int_to_word ((fde.highpc + 2 ^ 32 - fde.lowpc) % 2 ^ 32))
    let with_lsda = fde.cie.data_present && (fde.cie.fde_lsda && fde.has_lsda_pointer)
    aug ←
        if with_lsda
        then lsda_pointer cfi fde buf lsda_pointers (length start + length range)
        else some []
    aug_length ← if fde.cie.data_present then uint_to_leb128 (length aug) else some []
    some (record {
      cie_offset = cie_pointer cfi buf offset;
      initial_location = start;
      address_range = range;
      augmentation_length = aug_length;
      augmentation_data = aug;
      instrs = raw.instrs;
    })

  unfoldable pub build_fde_raw_data :
      Section → Fde → List ℕ → List ℕ → GrowingBuffer → Option GrowingBuffer
  build_fde_raw_data cfi fde cie_offsets lsda_pointers buf = do
    p ← fde_parts cfi fde cie_offsets lsda_pointers buf
    assert (not (fde.cie.address_size == 0))
    add_all buf (fde_pieces codes fde p)
