-- ===== src/CallFrame/CieBytes.antt =====
-- `buildCIERawData` of src/callFrameInfo.c.
use kanana.Base.{
  ℕ, ◌+◌, ◌-◌, ◌/◌, ◌%◌, ◌^◌, Option, some, List, [], ◌∷◌, ◌++◌, not, leb, ltb, ◌==◌, if◌then◌else◌,
  length,
}
use kanana.Base.Memory.{◌>>=◌, ◌>>◌, assert}
use kanana.Leb.Words.{le_bytes, uint_to_leb128, int_to_leb128}
use kanana.Dwarf.Op.{OpCodes}
use kanana.Dwarf.Cfa.{CfaCodes, serialize_dwarf_reg_instructions}
use kanana.EhPe.{PeCodes, Format, udata8, encode_eh_pointer_from_encoding}
use kanana.Util.GrowingBuffer.{GrowingBuffer}
use kanana.CallFrame.{Cie, Section, padding_needed, padding, add_all, flagged, augmentation_string}

-- The fields of a CIE that `buildCIERawData` prepares before it knows the length.
pub record CieParts : Type 0 where
  pub string : List ℕ
  pub sizes : List ℕ
  pub code_align : List ℕ
  pub data_align : List ℕ
  pub return_addr_reg : List ℕ
  pub augmentation_length : List ℕ
  pub augmentation_data : List ℕ
  pub instrs : List ℕ

-- `header1.length` before the padding
abbrev pub cie_length : CieParts → ℕ
cie_length p =
    9
    - 4
    + length p.string
    + 1
    + length p.code_align
    + length p.data_align
    + length p.return_addr_reg
    + length p.augmentation_data
    + length p.augmentation_length
    + length p.instrs
    + length p.sizes

-- `header2`, only in version 4
abbrev pub header2 : Cie → List ℕ
header2 cie = if leb 4 cie.version then cie.address_size % 256 ∷ cie.segment_size % 256 ∷ [] else []

abbrev eh_cie_id : ℕ
eh_cie_id = 0

abbrev debug_cie_id : ℕ
debug_cie_id = 0xffffffff

abbrev pub header1 : Cie → Section → ℕ → List ℕ
header1 cie cfi len =
    le_bytes 4 len
    ++ (le_bytes 4 (if cfi.is_eh_frame then eh_cie_id else debug_cie_id) ++ cie.version % 256 ∷ [])

unfoldable pub cie_pieces : CfaCodes → Cie → Section → CieParts → List (List ℕ)
cie_pieces codes cie cfi p =
    let len = cie_length p in
    header1 cie cfi (len + padding_needed cie.address_size len)
    ∷ (p.string ++ 0 ∷ [])
    ∷ p.sizes
    ∷ p.code_align
    ∷ p.data_align
    ∷ p.return_addr_reg
    ∷ p.augmentation_length
    ∷ p.augmentation_data
    ∷ p.instrs
    ∷ padding codes cie.address_size len
    ∷ []

-- The numbers of the formats in <dwarf.h>. `stale` is what the last four bytes of a personality of eight
-- bytes hold, of which only four are copied.
module _ (pe : PeCodes) (bitwidth : ℕ) (number : Format → ℕ) (stale : List ℕ) where
  unfoldable pub personality_bytes : Cie → ℕ → Option (List ℕ)
  personality_bytes cie location = do
    let long = number udata8 ∷ le_bytes 4 cie.personality_function ++ stale
    let short =
        encode_eh_pointer_from_encoding pe bitwidth cie.personality_function
          cie.personality_pointer_encoding location
        >>= λ (address, size). some (cie.personality_pointer_encoding ∷ le_bytes size address)
    if cie.personality_function / 2 ^ 32 == 0 then short else some long

  -- `cieAugmentationData`, where the pointer to the personality comes to stand at `location`.
  unfoldable pub cie_augmentation_data : Cie → ℕ → Option (List ℕ)
  cie_augmentation_data cie location = do
    function ← if cie.personality then personality_bytes cie location else some []
    some (
        function
        ++ (flagged cie.fde_lsda (cie.fde_lsda_pointer_encoding ∷ [])
            ++ flagged cie.fde_enc (cie.fde_pointer_encoding ∷ [])))

  -- The address of the augmentation data behind its first byte, as it is computed: with no byte for the
  -- data's own length.
  unfoldable pub personality_location : Section → GrowingBuffer → ℕ → ℕ → ℕ
  personality_location cfi buf string alignments =
      (cfi.eh_address + length buf.bytes + 9 + string + 1 + alignments + 1) % 2 ^ 64

  module _ (codes : CfaCodes) (ops : OpCodes) where
    unfoldable pub cie_parts : Cie → Section → GrowingBuffer → Option CieParts
    cie_parts cie cfi buf = do
      assert (ltb cie.address_size 256)
      assert (ltb cie.segment_size 256)
      code ← uint_to_leb128 (cie.code_align % 2 ^ 32)
      factor ← int_to_leb128 (cie.data_align % 2 ^ 32)
      return_reg ← uint_to_leb128 cie.return_addr_rule_num
      let string = augmentation_string cie
      let location =
          personality_location cfi buf (length string)
            (length code + length factor + length return_reg)
      aug ← if cie.data_present then cie_augmentation_data cie location else some []
      aug_length ← if cie.data_present then uint_to_leb128 (length aug) else some []
      raw ← serialize_dwarf_reg_instructions codes ops cie.initial_instructions
      some (record {
        string = string;
        sizes = header2 cie;
        code_align = code;
        data_align = factor;
        return_addr_reg = return_reg;
        augmentation_length = aug_length;
        augmentation_data = aug;
        instrs = raw.instrs;
      })

    unfoldable pub build_cie_raw_data : Cie → GrowingBuffer → Section → Option GrowingBuffer
    build_cie_raw_data cie buf cfi = do
      p ← cie_parts cie cfi buf
      assert (not (cie.address_size == 0))
      add_all buf (cie_pieces codes cie cfi p)
