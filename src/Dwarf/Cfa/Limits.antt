-- ===== src/Dwarf/Cfa/Limits.antt =====
-- Call frame instructions that src/dwarf_instr.c takes and src/fderead.c does not read back.
use kanana.Base.{
  ℕ, ◌^◌, ◌%◌, ◌<◌, ◌≡◌, refl, ap, ◌∙◌, arith, inl, inr, Option-cases, none, some, List, [], ◌∷◌,
  ◌++◌, true, ltb, leb, length,
}
use kanana.Leb.Value.{le_value}
use kanana.Leb.Words.{le_bytes}
use kanana.Dwarf.Op.{OpCodes}
use kanana.Dwarf.Register.{basic_reg, read_reg_from_leb128}
use kanana.Dwarf.Register.Laws.{IsBasic, read_reg_from_leb128-encode}
use kanana.Leb.{decode_leb128, count_septets}
use kanana.Dwarf.Cfa.{
  CfaCodes, RegInstruction, DwarfInstructions, raw, reg_instruction_to_raw, reg_only,
  instruction_bytes, location, add_instruction, add_bytes, copy_bytes, serialize_from,
  serialize_dwarf_reg_instructions, set_loc, same_value, advance_loc2,
}
use kanana.Dwarf.Cfa.Parse.{blank, parse_one, parse_case, parse_low, parse_reg, parse_location}
use kanana.Dwarf.Cfa.Carried.{LawfulLow, parse_one-low}

module _ (codes : CfaCodes) (ops : OpCodes) where
  serialize_from-set_loc :
      (is js : List RegInstruction) (i : RegInstruction) (buf : DwarfInstructions)
      → i.type ≡ set_loc
      → serialize_from codes ops buf (is ++ i ∷ js) ≡ none
  unfolding serialize_from
  serialize_from-set_loc [] js i buf h =
      unfold reg_instruction_to_raw add_instruction instruction_bytes in rw h refl
  serialize_from-set_loc (i' ∷ is) js i buf h =
      elim (Option-cases (reg_instruction_to_raw ops i' i'.type)) [
        | inl e ↦ rw e refl
        | inr (r, e) ↦ elim (Option-cases (add_instruction codes buf r)) [
          | inl e' ↦ rw (e, e') refl
          | inr (buf', e') ↦ rw (e, e') (serialize_from-set_loc is js i buf' h)
        ]
      ]

  -- No list of instructions with a DW_CFA_set_loc in it is serialized, wherever it stands and whatever its
  -- fields are. The location that `addInstruction` asserts to be there takes eight bytes, of which
  -- `parseFDEInstructions` reads and steps over four: it makes the location modulo 2 ^ 32 of them.
  pub serialize-set_loc :
      (is js : List RegInstruction) (i : RegInstruction) (n : ℕ) (rest : List ℕ)
      → LawfulLow codes ops set_loc
      → i.type ≡ set_loc
      → (serialize_dwarf_reg_instructions codes ops (is ++ i ∷ js) ≡ none)
        × (instruction_bytes codes (record (raw set_loc) { arg1_bytes = le_bytes 8 n }) set_loc
            ≡ some (codes.code set_loc ∷ le_bytes 8 n))
        × (parse_one codes ops (codes.code set_loc) (le_bytes 8 n ++ rest)
            ≡ some (some (record (blank set_loc) { arg1 = n % 2 ^ 32 }), 4))
  unfolding serialize_dwarf_reg_instructions instruction_bytes parse_case parse_low parse_location
      le_bytes le_value
  serialize-set_loc is js i n rest lawful h =
      let (small, _, _) = lawful in
      let byte : codes.code set_loc % 256 ≡ codes.code set_loc = omega (arith, small) in
      let four : leb 4 (length (le_bytes 8 n ++ rest)) ≡ true = ground arith in
      (
        serialize_from-set_loc is js i _ h,
        rw byte refl,
        parse_one-low codes ops set_loc (le_bytes 8 n ++ rest) lawful
            ∙ rw four
                (ap (λ v. some (some (record (blank set_loc) { arg1 = v }), 4)) (omega arith)),
      )

  -- The delta of a DW_CFA_advance_loc2 is written in two bytes, and of these `parseFDEInstructions`
  -- reads the first: it steps over both, and the delta it makes is the one written modulo 256.
  pub parse_one-advance_loc2 :
      (n : ℕ) (rest : List ℕ)
      → LawfulLow codes ops advance_loc2
      → n < 2 ^ 16
      → (instruction_bytes codes (record (raw advance_loc2) { arg1 = n }) advance_loc2
          ≡ some (codes.code advance_loc2 ∷ le_bytes 2 n))
        × (parse_one codes ops (codes.code advance_loc2) (le_bytes 2 n ++ rest)
            ≡ some (some (record (blank advance_loc2) { arg1 = n % 256 }), 2))
  unfolding instruction_bytes location parse_case parse_low parse_location le_bytes le_value
  parse_one-advance_loc2 n rest lawful h =
      let (small, _, _) = lawful in
      let byte : codes.code advance_loc2 % 256 ≡ codes.code advance_loc2 = omega (arith, small) in
      let fits : ltb n (2 ^ 16) ≡ true = ground arith in
      let one : leb 1 (length (le_bytes 2 n ++ rest)) ≡ true = ground arith in
      (
        rw (fits, byte) refl,
        parse_one-low codes ops advance_loc2 (le_bytes 2 n ++ rest) lawful
            ∙ rw one
                (ap (λ v. some (some (record (blank advance_loc2) { arg1 = v }), 2)) (omega arith)),
      )

  -- A DW_CFA_same_value is written as its opcode alone, without the register that it is about, and
  -- where it is the last instruction of a section `parseFDEInstructions` reads past the end for it.
  pub serialize-same_value :
      (r : ℕ)
      → LawfulLow codes ops same_value
      → IsBasic r
      → (out : DwarfInstructions) × (serialize_dwarf_reg_instructions codes ops
            (record (blank same_value) { arg1_reg = basic_reg r } ∷ [])
          ≡ some out)
        × (out.instrs ≡ codes.code same_value ∷ [])
        × (parse_one codes ops (codes.code same_value) [] ≡ none)
  unfolding serialize_dwarf_reg_instructions serialize_from reg_instruction_to_raw reg_only
      add_instruction instruction_bytes add_bytes copy_bytes parse_case parse_low parse_reg
      read_reg_from_leb128 decode_leb128 count_septets
  serialize-same_value r lawful h =
      let (ys, enc, _) = read_reg_from_leb128-encode r [] h tt in
      let (small, _, _) = lawful in
      let byte : codes.code same_value % 256 ≡ codes.code same_value = omega (arith, small) in
      (
        record { instrs = codes.code same_value ∷ []; allocated = 2 },
        rw (enc, byte) refl,
        refl,
        parse_one-low codes ops same_value [] lawful ∙ refl,
      )
