-- ===== src/CallFrame/Tests.antt =====
-- A small .eh_frame with the numbers of x86-64.
use kanana.Base.{
  ℕ, ◌+◌, ◌-◌, ◌^◌, ◌≡◌, refl, arith, none, some, List, [], ◌∷◌, ◌++◌, map, All, true, false,
}
use kanana.Leb.{
  encode_as_leb128, encode_as_leb128_no_optimization, encode_loop, septet_at, first_bits, join_bits,
  last_septet, extend_septet, trim_zeros, trim_signs, set_bits, set_high_bits, finish,
}
use kanana.Leb.Words.{le_bytes, uint_to_leb128, int_to_leb128, bytes_needed}
use kanana.Dwarf.Register.{encode_reg_as_leb128}
use kanana.Dwarf.Numbers.{codes, cfa_codes}
use kanana.Dwarf.Cfa.{
  add_bytes, copy_bytes, add_instruction, instruction_bytes, reg_instruction_to_raw, reg_word,
  raw_offset, serialize_from, serialize_dwarf_reg_instructions,
}
use kanana.Dwarf.Cfa.Frame.{FrameInstr, cfa_at, offset_at, advance, reg_instruction, Fits}
use kanana.EhPe.{
  format, application, format_size, applied, encode_eh_pointer_from_encoding,
  get_pointer_size_from_eh_pointer_encoding,
}
use kanana.EhPe.Numbers.{lsb, number, pcrel_number}
use kanana.Util.GrowingBuffer.{add_to_growing_buffer, copy_in, zeroed}
use kanana.ExceptTable.Build.{build_except_table_raw_data}
use kanana.CallFrame.{Cie, Fde, Section, padding_needed, add_all, augmentation_string}
use kanana.CallFrame.CieBytes.{
  CieParts, personality_bytes, cie_augmentation_data, personality_location, cie_parts, cie_pieces,
  build_cie_raw_data,
}
use kanana.CallFrame.FdeBytes.{
  cie_pointer, fde_pieces, initial_location, fde_parts, build_fde_raw_data,
}
use kanana.CallFrame.Build.{
  CallFrameInfo, CallFrameSectionData, insert, qsort, hdr_entry, hdr_table, build_each, hdr_header,
  build_eh_frame_hdr, build_call_frame_section_data,
}
use kanana.DwarfVm.{VmState, evaluate_instructions_to_rules}
use kanana.DwarfVm.Assoc.{pairs_dict}
use kanana.CallFrame.Read.{is_match, alignments, read_cie}
use kanana.CallFrame.Search.{IsFirst, find_augdata-IsFirst}
use kanana.CallFrame.Hdr.{
  Frames, Table, build_call_frame_section_data-LaidOut, build_call_frame_section_data-Ascends,
}
use kanana.CallFrame.RoundTrip.{found, as_read, read_cie-cie_parts}

-- The frame is at register 7 and 16, register 6 is saved below it.
abbrev prologue : List FrameInstr
prologue = cfa_at 7 16 ∷ offset_at 6 2 ∷ advance 4 ∷ []

-- The augmentation is zPLR: an address of four bytes, and pointers relative to their place.
abbrev cie : Cie
cie = record {
  initial_instructions = map reg_instruction prologue;
  data_align = 2 ^ 64 - 8;
  code_align = 1;
  return_addr_rule_num = 16;
  idx = 0;
  version = 1;
  address_size = 8;
  segment_size = 0;
  data_present = true;
  fde_enc = true;
  fde_lsda = true;
  personality = true;
  fde_pointer_encoding = 0x1b;
  fde_lsda_pointer_encoding = 0x03;
  personality_pointer_encoding = 0x03;
  personality_function = 0x4000;
}

abbrev section : Section
section = record {
  is_eh_frame = true;
  eh_address = 0x1000;
  eh_hdr_address = 0x2000;
  hdr_table_encoding = 0x3b;
}

abbrev fde_at : ℕ → ℕ → Fde
fde_at low i = record {
  cie = cie;
  instructions = map reg_instruction (advance 1 ∷ []);
  lowpc = low;
  highpc = low + 16;
  mem_size = 0;
  offset = 0;
  idx = i;
  has_lsda_pointer = false;
  lsda_idx = 0;
}

-- The second function stands before the first, and before the header.
abbrev info : CallFrameInfo
info = record {
  section = section;
  cies = cie ∷ [];
  fdes = fde_at 0x3000 0 ∷ fde_at 0x1800 1 ∷ [];
  except_table = [];
  except_table_address = 0;
}

abbrev cie_bytes : List ℕ
cie_bytes =
    32 ∷ 0 ∷ 0 ∷ 0 ∷ 0 ∷ 0 ∷ 0 ∷ 0 ∷ 1 ∷ 122 ∷ 80 ∷ 76 ∷ 82 ∷ 0 ∷ 1 ∷ 120 ∷ 16 ∷ 7 ∷ 3 ∷ 0 ∷ 64 ∷ 0
    ∷ 0 ∷ 3 ∷ 27 ∷ 12 ∷ 7 ∷ 16 ∷ 134 ∷ 2 ∷ 68 ∷ 0 ∷ 0 ∷ 0 ∷ 0 ∷ 0 ∷ []

abbrev fde_bytes : List ℕ
fde_bytes =
    16 ∷ 0 ∷ 0 ∷ 0 ∷ 40 ∷ 0 ∷ 0 ∷ 0 ∷ 212 ∷ 31 ∷ 0 ∷ 0 ∷ 16 ∷ 0 ∷ 0 ∷ 0 ∷ 0 ∷ 65 ∷ 0 ∷ 0 ∷ []

abbrev fde'_bytes : List ℕ
fde'_bytes =
    16 ∷ 0 ∷ 0 ∷ 0 ∷ 60 ∷ 0 ∷ 0 ∷ 0 ∷ 192 ∷ 7 ∷ 0 ∷ 0 ∷ 16 ∷ 0 ∷ 0 ∷ 0 ∷ 0 ∷ 65 ∷ 0 ∷ 0 ∷ []

-- The version and the encodings, the way to .eh_frame, the number of FDEs, and the two entries in order.
abbrev hdr_bytes : List ℕ
hdr_bytes =
    1 ∷ 27 ∷ 3 ∷ 59 ∷ 252 ∷ 239 ∷ 255 ∷ 255 ∷ 2 ∷ 0 ∷ 0 ∷ 0 ∷ 0 ∷ 248 ∷ 255 ∷ 255 ∷ 56 ∷ 240 ∷ 255
    ∷ 255 ∷ 0 ∷ 16 ∷ 0 ∷ 0 ∷ 36 ∷ 240 ∷ 255 ∷ 255 ∷ []

abbrev out : CallFrameSectionData
out = record {
  gcc_except_table_data = [];
  eh_data = cie_bytes ++ (fde_bytes ++ fde'_bytes);
  eh_hdr_data = hdr_bytes;
}

build_info :
    build_call_frame_section_data lsb 64 number [] cfa_codes codes pcrel_number info ≡ some out
unfolding build_call_frame_section_data build_each build_cie_raw_data build_fde_raw_data cie_parts
    fde_parts cie_pieces fde_pieces padding_needed add_all augmentation_string cie_augmentation_data
    personality_bytes personality_location initial_location cie_pointer build_eh_frame_hdr
    hdr_header hdr_table hdr_entry insert qsort build_except_table_raw_data
    encode_eh_pointer_from_encoding get_pointer_size_from_eh_pointer_encoding format application
    format_size applied add_to_growing_buffer copy_in serialize_dwarf_reg_instructions
    serialize_from reg_instruction_to_raw reg_word raw_offset add_instruction instruction_bytes
    add_bytes copy_bytes encode_reg_as_leb128 uint_to_leb128 int_to_leb128 bytes_needed le_bytes
    encode_as_leb128 encode_as_leb128_no_optimization encode_loop septet_at first_bits join_bits
    last_septet extend_septet trim_zeros trim_signs finish set_bits set_high_bits
build_info = refl

build_call_frame_section_data-LaidOut_example :
    (cie_offsets : List ℕ) × (fde_offsets : List ℕ) × Frames info cie_offsets fde_offsets
      out.eh_data
build_call_frame_section_data-LaidOut_example =
    build_call_frame_section_data-LaidOut lsb 64 number pcrel_number [] cfa_codes codes info out
      build_info

build_call_frame_section_data-Ascends_example :
    (cie_offsets : List ℕ) × (fde_offsets : List ℕ) × Frames info cie_offsets fde_offsets
      out.eh_data
    × Table lsb 64 number pcrel_number [] cfa_codes codes info fde_offsets 0xfffff800
        out.eh_hdr_data
unfolding hdr_entry
build_call_frame_section_data-Ascends_example =
    build_call_frame_section_data-Ascends lsb 64 number pcrel_number [] cfa_codes codes info out
      0xfffff800 build_info refl (omega arith) (omega arith, (omega arith, tt))

abbrev parts : CieParts
parts = record {
  string = 122 ∷ 80 ∷ 76 ∷ 82 ∷ [];
  sizes = [];
  code_align = 1 ∷ [];
  data_align = 120 ∷ [];
  return_addr_reg = 16 ∷ [];
  augmentation_length = 7 ∷ [];
  augmentation_data = 3 ∷ 0 ∷ 64 ∷ 0 ∷ 0 ∷ 3 ∷ 27 ∷ [];
  instrs = 12 ∷ 7 ∷ 16 ∷ 134 ∷ 2 ∷ 68 ∷ [];
}

cie_parts-cie : cie_parts lsb 64 number [] cfa_codes codes cie section zeroed ≡ some parts
unfolding cie_parts augmentation_string cie_augmentation_data personality_bytes personality_location
    encode_eh_pointer_from_encoding get_pointer_size_from_eh_pointer_encoding format application
    format_size applied serialize_dwarf_reg_instructions serialize_from reg_instruction_to_raw
    reg_word raw_offset add_instruction instruction_bytes add_bytes copy_bytes encode_reg_as_leb128
    uint_to_leb128 int_to_leb128 bytes_needed le_bytes encode_as_leb128
    encode_as_leb128_no_optimization encode_loop septet_at first_bits join_bits last_septet
    extend_septet trim_zeros trim_signs finish set_bits set_high_bits
cie_parts-cie = refl

prologue-Fits : All (Fits cfa_codes codes) prologue
prologue-Fits = (
  ((omega arith, refl, refl), omega arith, omega arith),
  (
    ((2, omega arith, refl, refl), omega arith, omega arith),
    (((1, omega arith, refl, refl), omega arith), tt),
  ),
)

-- Behind the instructions come two bytes of padding, behind the data the instructions.
read_cie-cie_parts_example :
    (loc : ℕ) × (rules : VmState pairs_dict) × (evaluate_instructions_to_rules pairs_dict
        (alignments 1 (2 ^ 64 - 8))
        none
        (map reg_instruction prologue)
        0
        (record { rules = []; saved = [] })
      ≡ some (loc, rules))
    × (read_cie lsb 64 cfa_codes codes pairs_dict [] [] section 0
          (found cie parts 0 (0 ∷ 0 ∷ []) parts.instrs)
        ≡ some (as_read cie, rules))
unfolding format application format_size applied personality_location
read_cie-cie_parts_example =
    read_cie-cie_parts lsb 64 number [] cfa_codes codes pairs_dict [] [] prologue cie section zeroed
      parts (0 ∷ 0 ∷ []) parts.instrs (omega arith) cie_parts-cie refl refl
      (λ _. (4, 0x4000, omega arith, refl, refl, refl, omega arith, refl)) refl (omega arith) refl
      (omega arith) refl prologue-Fits refl (omega arith) (omega arith, (omega arith, tt))

-- The data stands at the sixth byte, where it is found: a byte before it is only the first of them.
find_augdata-IsFirst_example : IsFirst 7 (8 ∷ []) 9 (1 ∷ 7 ∷ 3 ∷ 2 ∷ 0 ∷ 7 ∷ 8 ∷ []) 7 0 5
unfolding is_match
find_augdata-IsFirst_example =
    find_augdata-IsFirst 7 (8 ∷ []) 9 (1 ∷ 7 ∷ 3 ∷ 2 ∷ 0 ∷ 7 ∷ 8 ∷ []) 7 0 5 refl (omega arith)
      (omega arith)
