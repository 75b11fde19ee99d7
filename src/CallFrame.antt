-- ===== src/CallFrame.antt =====
-- src/callFrameInfo.c: CIEs and FDEs as the bytes of .debug_frame or .eh_frame, and .eh_frame_hdr. An int
-- is its bit pattern, below 2 ^ 32, and an address is below 2 ^ 64. DWARF is in its 32-bit format.
pub mod CieBytes
pub mod FdeBytes
pub mod Sizes
pub mod Build
pub mod Layout
pub mod Qsort
pub mod Hdr
pub mod Augmentation
pub mod Read
pub mod Augmented
pub mod Search
pub mod RoundTrip
mod Tests
use kanana.Base.{
  ℕ, zero, suc, ◌+◌, ◌-◌, ◌*◌, ◌/◌, ◌%◌, ◌^◌, Option, none, some, List, [], ◌∷◌, ◌++◌, Bool, true,
  false, not, leb, ltb, ◌==◌, ◌&&◌, if◌then◌else◌, length, get_elem?, replicate,
}
use kanana.Base.Memory.{◌>>=◌, ◌>>◌, assert}
use kanana.Leb.Words.{le_bytes, uint_to_leb128, int_to_leb128}
use kanana.Dwarf.Op.{OpCodes}
use kanana.Dwarf.Cfa.{CfaCodes, CfaOp, nop, RegInstruction, serialize_dwarf_reg_instructions}
use kanana.Dwarf.Cfa.Parse.{int_to_word}
use kanana.EhPe.{PeCodes, Format, udata8, encode_eh_pointer_from_encoding}
use kanana.Util.GrowingBuffer.{GrowingBuffer, add_to_growing_buffer}

-- `CIE`, with a Boolean for each flag of `augmentationFlags`; the rules that the initial instructions make
-- are those of src/dwarfvm.c.
pub record Cie : Type 0 where
  pub initial_instructions : List RegInstruction
  pub data_align : ℕ
  pub code_align : ℕ
  pub return_addr_rule_num : ℕ
  pub idx : ℕ
  pub version : ℕ
  pub address_size : ℕ
  pub segment_size : ℕ
  pub data_present : Bool
  pub fde_enc : Bool
  pub fde_lsda : Bool
  pub personality : Bool
  pub fde_pointer_encoding : ℕ
  pub fde_lsda_pointer_encoding : ℕ
  pub personality_pointer_encoding : ℕ
  pub personality_function : ℕ

pub record Fde : Type 0 where
  pub cie : Cie
  pub instructions : List RegInstruction
  pub lowpc : ℕ
  pub highpc : ℕ
  pub mem_size : ℕ
  pub offset : ℕ
  pub idx : ℕ
  pub has_lsda_pointer : Bool
  pub lsda_idx : ℕ

-- What `CallFrameInfo` says of the section, besides its CIEs and FDEs.
pub record Section : Type 0 where
  pub is_eh_frame : Bool
  pub eh_address : ℕ
  pub eh_hdr_address : ℕ
  pub hdr_table_encoding : ℕ

-- What is added to `n` to reach a multiple of `size`.
unfoldable pub padding_needed : ℕ → ℕ → ℕ
padding_needed size n = if n % size == 0 then 0 else size - n % size

-- One `addToGrowingBuffer` for each piece; to add no bytes is to do nothing.
unfoldable pub add_all : GrowingBuffer → List (List ℕ) → Option GrowingBuffer
add_all buf [] = some buf
add_all buf (piece ∷ pieces) = do buf' ← add_to_growing_buffer buf piece; add_all buf' pieces

abbrev pub flagged : Bool → List ℕ → List ℕ
flagged b bytes = if b then bytes else []

unfoldable pub augmentation_string : Cie → List ℕ
augmentation_string cie = flagged cie.data_present (
    b'z' ∷ flagged cie.personality (b'P' ∷ [])
    ++ (flagged cie.fde_lsda (b'L' ∷ []) ++ flagged cie.fde_enc (b'R' ∷ [])))

-- The instruction that fills up to a multiple of the address size.
abbrev pub padding : CfaCodes → ℕ → ℕ → List ℕ
padding codes size n = replicate (padding_needed size n) (codes.code nop % 256)
