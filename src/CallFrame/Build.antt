-- ===== src/CallFrame/Build.antt =====
-- `buildCallFrameSectionData` of src/callFrameInfo.c.
use kanana.Base.{
  ℕ, ◌+◌, ◌-◌, ◌%◌, ◌^◌, bit_or, Option, some, List, [], ◌∷◌, ◌++◌, map, Bool, leb, ◌==◌, ◌||◌,
  if◌then◌else◌, length,
}
use kanana.Base.Memory.{◌>>=◌, ◌>>◌, assert}
use kanana.Leb.Words.{le_bytes}
use kanana.Dwarf.Op.{OpCodes}
use kanana.Dwarf.Cfa.{CfaCodes}
use kanana.Dwarf.Cfa.Parse.{int_to_word}
use kanana.EhPe.{PeCodes, Format, udata4, sdata4, encode_eh_pointer_from_encoding}
use kanana.Util.GrowingBuffer.{GrowingBuffer, zeroed}
use kanana.ExceptTable.{Lsda}
use kanana.ExceptTable.Build.{build_except_table_raw_data}
use kanana.CallFrame.{Cie, Fde, Section, add_all}
use kanana.CallFrame.CieBytes.{build_cie_raw_data}
use kanana.CallFrame.FdeBytes.{build_fde_raw_data}

-- `CallFrameInfo`; without an exception table there are no LSDAs to point at.
pub record CallFrameInfo : Type 0 where
  pub section : Section
  pub cies : List Cie
  pub fdes : List Fde
  pub except_table : List Lsda
  pub except_table_address : ℕ

-- The bytes of the sections; .debug_frame has no header.
pub record CallFrameSectionData : Type 0 where
  pub gcc_except_table_data : List ℕ
  pub eh_data : List ℕ
  pub eh_hdr_data : List ℕ

pub record EhFrameHdrTableEntry : Type 0 where
  pub initial_location : ℕ
  pub fde_address : ℕ

-- Whether `compareEhFrameHdrTableEntries`, an int, is not above zero.
abbrev pub at_most : EhFrameHdrTableEntry → EhFrameHdrTableEntry → Bool
at_most a b =
    let difference = (a.initial_location + 2 ^ 32 - b.initial_location) % 2 ^ 32 in
    (difference == 0) || leb (2 ^ 31) difference

-- `qsort` of <stdlib.h>, with a comparison that says whether an element may stand before another.
unfoldable pub insert {ℓ} : {A : Type ℓ} → (A → A → Bool) → A → List A → List A
insert before x [] = x ∷ []
insert before x (y ∷ ys) =
    let rest = insert before x ys in if before x y then x ∷ y ∷ ys else y ∷ rest

unfoldable pub qsort {ℓ} : {A : Type ℓ} → (A → A → Bool) → List A → List A
qsort before [] = []
qsort before (x ∷ xs) = insert before x (qsort before xs)

-- One entry for each FDE, relative to the header.
unfoldable pub hdr_entry : Section → Fde → ℕ → EhFrameHdrTableEntry
hdr_entry cfi fde offset = record {
  initial_location = (int_to_word fde.lowpc + 2 ^ 64 - cfi.eh_hdr_address) % 2 ^ 32;
  fde_address = (cfi.eh_address + offset + 2 ^ 64 - cfi.eh_hdr_address) % 2 ^ 32;
}

unfoldable pub hdr_table : Section → List Fde → List ℕ → List EhFrameHdrTableEntry
hdr_table cfi [] offsets = []
hdr_table cfi (fde ∷ fdes) [] = []
hdr_table cfi (fde ∷ fdes) (offset ∷ offsets) =
    hdr_entry cfi fde offset ∷ hdr_table cfi fdes offsets

abbrev pub entry_bytes : EhFrameHdrTableEntry → List ℕ
entry_bytes e = le_bytes 4 e.initial_location ++ le_bytes 4 e.fde_address

abbrev eh_frame_hdr_version : ℕ
eh_frame_hdr_version = 1

-- `buf`, before anything is written
abbrev pub initial_buffer : GrowingBuffer
initial_buffer = record { bytes = []; allocated = 10000 }

-- The loops over the CIEs and the FDEs: the buffer, and the offset of each.
unfoldable pub build_each {ℓ} :
    {A : Type ℓ}
    → (A → GrowingBuffer → Option GrowingBuffer)
    → List A
    → GrowingBuffer
    → Option (GrowingBuffer × List ℕ)
build_each build [] buf = some (buf, [])
build_each build (x ∷ xs) buf = do
  buf' ← build x buf
  (buf'', offsets) ← build_each build xs buf'
  some (buf'', length buf.bytes % 2 ^ 32 ∷ offsets)

-- The numbers of the formats and of DW_EH_PE_pcrel.
module _ (pe : PeCodes) (bitwidth : ℕ) (number : Format → ℕ) where
  -- `hdrHeader`
  unfoldable pub hdr_header : ℕ → Section → ℕ → Option (List ℕ)
  hdr_header pcrel_number cfi fde_count = do
    let ptr_enc = bit_or (number sdata4) pcrel_number
    (ptr, written) ←
        encode_eh_pointer_from_encoding pe bitwidth cfi.eh_address ptr_enc
          ((cfi.eh_hdr_address + 4) % 2 ^ 64)
    assert (written == 4)
    some (
        (eh_frame_hdr_version ∷ ptr_enc ∷ number udata4 ∷ cfi.hdr_table_encoding % 256 ∷ [])
        ++ (le_bytes 4 ptr ++ le_bytes 4 fde_count))

  unfoldable pub build_eh_frame_hdr : ℕ → Section → List Fde → List ℕ → Option GrowingBuffer
  build_eh_frame_hdr pcrel_number cfi fdes fde_offsets = do
    header ← hdr_header pcrel_number cfi (length fdes)
    add_all zeroed (header ∷ map entry_bytes (qsort at_most (hdr_table cfi fdes fde_offsets)))

  module _ (stale : List ℕ) (codes : CfaCodes) (ops : OpCodes) where
    unfoldable pub build_call_frame_section_data : ℕ → CallFrameInfo → Option CallFrameSectionData
    build_call_frame_section_data pcrel_number info = do
      let cfi = info.section
      (except_table, lsda_pointers) ←
          if cfi.is_eh_frame
          then build_except_table_raw_data pe bitwidth number info.except_table_address
              info.except_table zeroed
          else some (zeroed, [])
      (buf, cie_offsets) ←
          build_each (λ cie buf. build_cie_raw_data pe bitwidth number stale codes ops cie buf cfi)
            info.cies initial_buffer
      (buf', fde_offsets) ←
          build_each
            (λ fde buf.
              build_fde_raw_data pe bitwidth codes ops cfi fde cie_offsets lsda_pointers buf)
            info.fdes buf
      hdr ←
          if cfi.is_eh_frame
          then build_eh_frame_hdr pcrel_number cfi info.fdes fde_offsets
          else some zeroed
      some (record {
        gcc_except_table_data = except_table.bytes;
        eh_data = buf'.bytes;
        eh_hdr_data = hdr.bytes;
      })
