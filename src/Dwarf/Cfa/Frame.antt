-- ===== src/Dwarf/Cfa/Frame.antt =====
-- The call frame instructions that src/dwarf_instr.c can write and src/fderead.c can read back, each
-- with its operands: what the two files promise each other.
use kanana.Base.{
  ℕ, ◌-◌, ◌^◌, ◌%◌, ◌<◌, ◌≡◌, ap, arith, some, List, ◌++◌, true, false, ltb, length, take-length,
  All, length-append,
}
use kanana.Leb.Value.{uleb}
use kanana.Leb.{num_septets, encode_as_leb128}
use kanana.Leb.Words.{le_bytes, int_to_leb128, leb128_to_uint, leb128_to_uword}
use kanana.Leb.Words.Laws.{encode-le_bytes}
use kanana.Leb.Words.Uleb.{
  Operand, uint_to_leb128-uleb, length-uleb, leb128_to_uint-uleb, leb128_to_uword-uleb,
}
use kanana.Dwarf.Op.{OpCodes}
use kanana.Dwarf.Register.{basic_reg, encode_reg_as_leb128, read_reg_from_leb128}
use kanana.Dwarf.Register.Laws.{IsBasic, read_reg_from_leb128-uleb}
use kanana.Dwarf.Expr.{ExprInstr, parse_form_block}
use kanana.Dwarf.Expr.RoundTrip.{Survives, all_bytes}
use kanana.Dwarf.Expr.Blocks.{parse_form_block-Operand, encode_block-uleb}
use kanana.Dwarf.Cfa.{
  CfaOp, CfaCodes, RegInstruction, encode_block, offset, restore, undefined, register, def_cfa,
  def_cfa_register, def_cfa_offset, def_cfa_expression, expression, val_expression, gnu_args_size,
  advance_loc, advance_loc1, advance_loc4, remember_state, restore_state,
}
use kanana.Dwarf.Cfa.Parse.{blank}
use kanana.Dwarf.Cfa.Carried.{LawfulLow, LawfulHigh}

pub data FrameInstr : Type 0 where
  advance advance_one advance_four : ℕ → FrameInstr
  offset_at in_register cfa_at : ℕ → ℕ → FrameInstr
  cfa_register cfa_offset args_size undefined_reg restored : ℕ → FrameInstr
  remember recall : FrameInstr
  cfa_expression : List ExprInstr → FrameInstr
  reg_expression reg_val_expression : ℕ → List ExprInstr → FrameInstr

abbrev pub with_low : CfaOp → ℕ → RegInstruction
with_low o n = record (blank o) { arg1 = n; arg1_reg = basic_reg n }

-- As the parser makes them.
abbrev pub reg_instruction : FrameInstr → RegInstruction
reg_instruction (advance n) = with_low advance_loc n
reg_instruction (advance_one n) = record (blank advance_loc1) { arg1 = n }
reg_instruction (advance_four n) = record (blank advance_loc4) { arg1 = n }
reg_instruction (offset_at r n) = record (with_low offset r) { arg2 = n }
reg_instruction (in_register r r') = record (blank register) {
  arg1_reg = basic_reg r;
  arg2_reg = basic_reg r';
}
reg_instruction (cfa_at r n) = record (blank def_cfa) { arg1_reg = basic_reg r; arg2 = n }
reg_instruction (cfa_register r) = record (blank def_cfa_register) { arg1_reg = basic_reg r }
reg_instruction (cfa_offset n) = record (blank def_cfa_offset) { arg1 = n }
reg_instruction (args_size n) = record (blank gnu_args_size) { arg1 = n }
reg_instruction (undefined_reg r) = record (blank undefined) { arg1_reg = basic_reg r }
reg_instruction (restored r) = with_low restore r
reg_instruction remember = blank remember_state
reg_instruction recall = blank restore_state
reg_instruction (cfa_expression is) = record (blank def_cfa_expression) { expr = is }
reg_instruction (reg_expression r is) = record (blank expression) {
  arg1_reg = basic_reg r;
  expr = is;
}
reg_instruction (reg_val_expression r is) = record (blank val_expression) {
  arg1_reg = basic_reg r;
  expr = is;
}

module _ (codes : CfaCodes) (ops : OpCodes) where
  -- An expression whose block's length is heard of in full.
  abbrev pub IsShort : List ExprInstr → Type 0
  IsShort is = All (Survives ops) is × (length (all_bytes ops is) < 2 ^ 16 - 6)

  -- The operands that fit what is written for them.
  abbrev pub Fits : FrameInstr → Type 0
  Fits (advance n) = LawfulHigh codes ops advance_loc × (n < 64)
  Fits (advance_one n) = LawfulLow codes ops advance_loc1 × (n < 256)
  Fits (advance_four n) = LawfulLow codes ops advance_loc4 × (n < 2 ^ 32)
  Fits (offset_at r n) = LawfulHigh codes ops offset × (r < 64) × (n < 2 ^ 31)
  Fits (in_register r r') = LawfulLow codes ops register × IsBasic r × IsBasic r'
  Fits (cfa_at r n) = LawfulLow codes ops def_cfa × IsBasic r × (n < 2 ^ 32)
  Fits (cfa_register r) = LawfulLow codes ops def_cfa_register × IsBasic r
  Fits (cfa_offset n) = LawfulLow codes ops def_cfa_offset × (n < 2 ^ 32)
  Fits (args_size n) = LawfulLow codes ops gnu_args_size × (n < 2 ^ 32)
  Fits (undefined_reg r) = LawfulLow codes ops undefined × IsBasic r
  Fits (restored r) = LawfulHigh codes ops restore × (r < 64)
  Fits remember = LawfulLow codes ops remember_state
  Fits recall = LawfulLow codes ops restore_state
  Fits (cfa_expression is) = LawfulLow codes ops def_cfa_expression × IsShort is
  Fits (reg_expression r is) = LawfulLow codes ops expression × IsBasic r × IsShort is
  Fits (reg_val_expression r is) = LawfulLow codes ops val_expression × IsBasic r × IsShort is

  -- What `encodeRegAsLEB128` writes for a basic register, and that it is read back.
  pub encode_reg-Operand :
      (r : ℕ)
      → IsBasic r
      → (ys : List ℕ) × (encode_reg_as_leb128 (basic_reg r) ≡ some ys)
        × Operand read_reg_from_leb128 ys (basic_reg r)
  unfolding encode_reg_as_leb128
  encode_reg-Operand r h =
      let (k, enc, wide, _) = uint_to_leb128-uleb r h.0 in
      (uleb k r, enc, read_reg_from_leb128-uleb k r wide h)

  -- A word below 2 ^ 32, read back as an unsigned int.
  pub encode_word-Operand :
      (n : ℕ)
      → n < 2 ^ 32
      → (ys : List ℕ) × (encode_as_leb128 (le_bytes 8 n) false ≡ some ys)
        × Operand leb128_to_uint ys n
  encode_word-Operand n h =
      let (enc, wide) = encode-le_bytes 8 n (omega arith) (omega arith) in
      (uleb (num_septets 8) n, enc, leb128_to_uint-uleb (num_septets 8) n wide h)

  -- The offset of a DW_CFA_offset, written as an int that is not negative.
  pub int_to_leb128-Operand :
      (n : ℕ)
      → n < 2 ^ 31
      → (ys : List ℕ) × (int_to_leb128 n ≡ some ys) × Operand leb128_to_uword ys n
  unfolding int_to_leb128
  int_to_leb128-Operand n h =
      let positive : ltb n (2 ^ 31) ≡ true = ground arith in
      let (k, enc, wide, _) = uint_to_leb128-uleb n (omega arith) in
      (uleb k n, rw positive enc, leb128_to_uword-uleb k n wide (omega arith))

  -- An expression as a block that its caller takes in full.
  pub encode_block-Operand :
      (is : List ExprInstr)
      → IsShort is
      → (ys : List ℕ) × (encode_block ops is ≡ some ys) × Operand (parse_form_block ops) ys is
  unfolding encode_block
  encode_block-Operand is (his, short) =
      let body = all_bytes ops is in
      let (k, few, wide, enc) = encode_block-uleb ops is his (omega (arith, short)) in
      let block = uleb k (length body) ++ body in
      let size : length block % 2 ^ 16 ≡ length block = omega (
        arith,
        short,
        few,
        length-append (uleb k (length body)) body,
        length-uleb k (length body),
      ) in
      (
        block,
        rw (enc, size) (ap some (take-length block)),
        parse_form_block-Operand ops is k his (omega (arith, short)) wide,
      )
