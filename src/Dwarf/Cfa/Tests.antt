-- ===== src/Dwarf/Cfa/Tests.antt =====
-- Runs of the call frame code on the opcode numbers of the DWARF standard, and its theorems there.
use kanana.Base.{◌+◌, ◌^◌, ◌%◌, ◌≡◌, refl, arith, none, some, List, [], ◌∷◌, ◌++◌, map, length, All}
use kanana.Leb.{
  encode_as_leb128, encode_as_leb128_no_optimization, encode_loop, septet_at, first_bits, join_bits,
  last_septet, extend_septet, trim_zeros, finish,
}
use kanana.Leb.Words.{le_bytes, uint_to_leb128, int_to_leb128, bytes_needed}
use kanana.Dwarf.Register.{encode_reg_as_leb128}
use kanana.Dwarf.Numbers.{codes, cfa_codes}
use kanana.Dwarf.Cfa.{
  DwarfInstructions, raw, add_bytes, copy_bytes, add_instruction, instruction_bytes,
  reg_instruction_to_raw, reg_word, raw_offset, serialize_from, serialize_dwarf_reg_instructions,
  set_loc, advance_loc2, remember_state,
}
use kanana.Dwarf.Cfa.Parse.{blank, parse_one, parse_fde_instructions}
use kanana.Dwarf.Cfa.Frame.{FrameInstr, cfa_at, offset_at, advance, reg_instruction, Fits}
use kanana.Dwarf.Cfa.RoundTrip.{IsInside, serialize-IsInside, parse_fde_instructions-serialize}
use kanana.Dwarf.Cfa.Limits.{serialize-set_loc, parse_one-advance_loc2}

-- The usual prologue on x86-64: the frame is at register 7 and 16, register 6 is saved below it.
abbrev prologue : List FrameInstr
prologue = cfa_at 7 16 ∷ offset_at 6 2 ∷ advance 4 ∷ []

prologue-Fits : All (Fits cfa_codes codes) prologue
prologue-Fits = (
  ((omega arith, refl, refl), omega arith, omega arith),
  (
    ((2, omega arith, refl, refl), omega arith, omega arith),
    (((1, omega arith, refl, refl), omega arith), tt),
  ),
)

abbrev written : DwarfInstructions
written = record { instrs = 0x0c ∷ 7 ∷ 16 ∷ 0x86 ∷ 2 ∷ 0x44 ∷ []; allocated = 6 }

serialize_prologue :
    serialize_dwarf_reg_instructions cfa_codes codes (map reg_instruction prologue) ≡ some written
unfolding serialize_dwarf_reg_instructions serialize_from reg_instruction_to_raw reg_word raw_offset
    add_instruction instruction_bytes add_bytes copy_bytes encode_reg_as_leb128 uint_to_leb128
    int_to_leb128 bytes_needed le_bytes encode_as_leb128 encode_as_leb128_no_optimization
    encode_loop septet_at first_bits join_bits last_septet extend_septet trim_zeros finish
serialize_prologue = refl

serialize-IsInside_example :
    (out : DwarfInstructions) × (serialize_dwarf_reg_instructions cfa_codes codes
        (map reg_instruction prologue)
      ≡ some out)
    × IsInside out
serialize-IsInside_example = serialize-IsInside cfa_codes codes prologue prologue-Fits

parse_fde_instructions-serialize_example :
    parse_fde_instructions cfa_codes codes (written.instrs ++ 0 ∷ []) (length written.instrs)
    ≡ some (map reg_instruction prologue)
parse_fde_instructions-serialize_example =
    parse_fde_instructions-serialize cfa_codes codes prologue written (0 ∷ []) prologue-Fits
      serialize_prologue (omega arith) (omega arith)

-- Behind an instruction that is serialized.
serialize-set_loc_example :
    (serialize_dwarf_reg_instructions cfa_codes codes
        (blank remember_state ∷ record (blank set_loc) { arg1 = 4096 } ∷ [])
      ≡ none)
    × (instruction_bytes cfa_codes
          (record (raw set_loc) { arg1_bytes = le_bytes 8 (2 ^ 32 + 7) })
          set_loc
        ≡ some (1 ∷ le_bytes 8 (2 ^ 32 + 7)))
    × (parse_one cfa_codes codes 1 (le_bytes 8 (2 ^ 32 + 7) ++ [])
        ≡ some (some (record (blank set_loc) { arg1 = (2 ^ 32 + 7) % 2 ^ 32 }), 4))
serialize-set_loc_example =
    serialize-set_loc cfa_codes codes (blank remember_state ∷ []) []
      (record (blank set_loc) { arg1 = 4096 }) (2 ^ 32 + 7) [] (omega arith, refl, refl) refl

parse_one-advance_loc2_example :
    (instruction_bytes cfa_codes (record (raw advance_loc2) { arg1 = 300 }) advance_loc2
      ≡ some (3 ∷ le_bytes 2 300))
    × (parse_one cfa_codes codes 3 (le_bytes 2 300 ++ [])
        ≡ some (some (record (blank advance_loc2) { arg1 = 44 }), 2))
parse_one-advance_loc2_example =
    parse_one-advance_loc2 cfa_codes codes 300 [] (omega arith, refl, refl) (omega arith)
