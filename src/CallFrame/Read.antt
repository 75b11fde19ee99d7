-- ===== src/CallFrame/Read.antt =====
-- CIEs and FDEs read from a binary, in src/fderead.c. What libdwarf makes of the section is given.
use kanana.Base.{
  ℕ, zero, suc, ◌+◌, ◌%◌, ◌^◌, Option, none, some, List, [], ◌∷◌, Bool, true, false, ltb, leb, ◌==◌,
  ◌||◌, ◌&&◌, if◌then◌else◌, not, length, get_elem?, take, drop,
}
use kanana.Base.Memory.{◌>>=◌, ◌>>◌, assert}
use kanana.Dwarf.Op.{OpCodes}
use kanana.Dwarf.Cfa.{CfaCodes}
use kanana.Dwarf.Cfa.Parse.{parse_fde_instructions}
use kanana.DwarfVm
use kanana.DwarfVm.{VmState, evaluate_instructions_to_rules}
use kanana.DwarfVm.Dictionary.{RuleDict}
use kanana.EhPe.{PeCodes}
use kanana.CallFrame.{Cie, Fde, Section}
use kanana.CallFrame.Augmentation.{parse_augmentation_string_and_data, parse_fde_augmentation_data}

-- What `dwarf_get_cie_info` and its like give of a CIE: `augdata` and `instrs` are the bytes from there on.
pub record CieInfo : Type 0 where
  pub version : ℕ
  pub augmenter : List ℕ
  pub code_align : ℕ
  pub data_align : ℕ
  pub return_addr_rule_num : ℕ
  pub instrs : List ℕ
  pub instrs_len : ℕ
  pub augdata : List ℕ
  pub augdata_len : ℕ
  pub offset : ℕ

pub record FdeInfo : Type 0 where
  pub instrs : List ℕ
  pub instrs_len : ℕ
  pub cie_index : ℕ
  pub low_pc : ℕ
  pub addr_range : ℕ
  pub bytes : List ℕ
  pub bytes_len : ℕ
  pub offset : ℕ
  pub augdata : List ℕ
  pub augdata_len : ℕ

-- A CIE of zeroed memory.
abbrev pub zeroed_cie : ℕ → Cie
zeroed_cie i = record {
  initial_instructions = [];
  data_align = 0;
  code_align = 0;
  return_addr_rule_num = 0;
  idx = i;
  version = 0;
  address_size = 0;
  segment_size = 0;
  data_present = false;
  fde_enc = false;
  fde_lsda = false;
  personality = false;
  fde_pointer_encoding = 0;
  fde_lsda_pointer_encoding = 0;
  personality_pointer_encoding = 0;
  personality_function = 0;
}

-- `augdataAddress`, with one byte for each alignment and for the return address
unfoldable pub augdata_address : Section → CieInfo → ℕ
augdata_address cfi info =
    (cfi.eh_address + info.offset + 4 + 4 + 1 + length info.augmenter + 1 + 1 + 1 + 1) % 2 ^ 64

-- `memchr` of <string.h>
unfoldable pub memchr : ℕ → List ℕ → ℕ → Option ℕ
memchr c bytes zero = none
memchr c [] (suc n) = none
memchr c (b ∷ bytes) (suc n) =
    let later = memchr c bytes n >>= λ i. some (suc i) in if b == c then some 0 else later

-- Whether some bytes are those that stand at a place.
unfoldable pub is_match : List ℕ → List ℕ → Bool
is_match [] bytes = true
is_match (a ∷ augdata) [] = false
is_match (a ∷ augdata) (b ∷ bytes) = (a == b) && is_match augdata bytes

-- The search for the augmentation data among the bytes of the FDE and what follows them, from the offset
-- `at` on; the first argument bounds the rounds.
unfoldable pub find_augdata : ℕ → List ℕ → List ℕ → ℕ → ℕ → Option ℕ
find_augdata zero augdata bytes len at_offset = none
find_augdata (suc rounds) augdata bytes len at_offset = do
  first ← get_elem? augdata 0
  i ← memchr first (drop at_offset bytes) len
  let next = find_augdata rounds augdata bytes len (at_offset + i + 1)
  if is_match augdata (drop (at_offset + i) bytes) then some (at_offset + i) else next

-- The alignments that the initial instructions are evaluated with.
abbrev pub alignments : ℕ → ℕ → DwarfVm.Cie
alignments code factor = record { code_align = code; data_align = factor }

module _ (pe : PeCodes) (bitwidth : ℕ) (codes : CfaCodes) (ops : OpCodes) where
  -- The signed alignment is its word, of 64 bits. The initial rules, a dictionary that is created empty, are
  -- given beside the CIE, with the stack of remembered rules, which is one for the program.
  unfoldable pub read_cie :
      {D : Type 0} (dict : RuleDict D)
      → D
      → List D
      → Section
      → ℕ
      → CieInfo
      → Option (Cie × VmState dict)
  read_cie dict empty saved cfi i info = do
    assert (ltb info.code_align 64)
    assert (ltb info.data_align 64 || leb (2 ^ 63) info.data_align)
    assert (ltb info.return_addr_rule_num 64)
    let cie = record (zeroed_cie i) {
      version = info.version;
      code_align = info.code_align;
      data_align = info.data_align;
      return_addr_rule_num = info.return_addr_rule_num;
    }
    cie' ←
        parse_augmentation_string_and_data pe bitwidth cie info.augmenter info.augdata
          info.augdata_len (augdata_address cfi info)
    instrs ← parse_fde_instructions codes ops info.instrs info.instrs_len
    (_, rules) ←
        evaluate_instructions_to_rules dict (alignments cie'.code_align cie'.data_align) none instrs
          0 (record { rules = empty; saved = saved })
    some (record cie' { initial_instructions = instrs; code_align = 1 }, rules)

  -- The FDE, and the pointers to LSDAs found so far.
  unfoldable pub read_fde : Section → Bool → List Cie → List ℕ → ℕ → FdeInfo → Option (Fde × List ℕ)
  read_fde cfi is_po cies lsda_pointers i info = do
    cie ← get_elem? cies info.cie_index
    instrs ← parse_fde_instructions codes ops info.instrs info.instrs_len
    let fde : Fde = record {
      cie = cie;
      instructions = instrs;
      lowpc = info.low_pc % 2 ^ 32;
      highpc = if is_po then 0 else (info.low_pc + info.addr_range) % 2 ^ 32;
      mem_size = if is_po then info.addr_range % 2 ^ 32 else 0;
      offset = info.offset % 2 ^ 32;
      idx = i;
      has_lsda_pointer = false;
      lsda_idx = 0;
    }
    let augmented = do
      found ←
          find_augdata (suc (length info.bytes)) (take info.augdata_len info.augdata) info.bytes
            info.bytes_len 0
      parse_fde_augmentation_data pe bitwidth fde ((cfi.eh_address + info.offset + found) % 2 ^ 64)
          info.augdata info.augdata_len lsda_pointers
    if cfi.is_eh_frame && not (info.augdata_len == 0) then augmented else some (fde, lsda_pointers)
