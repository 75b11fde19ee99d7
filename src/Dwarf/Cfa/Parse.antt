-- ===== src/Dwarf/Cfa/Parse.antt =====
-- `parseFDEInstructions` of src/fderead.c. The bytes are those of the section from the instructions
-- on; an `int` is its bit pattern.
use kanana.Base.{
  ℕ, zero, suc, ◌+◌, ◌-◌, ◌*◌, ◌/◌, ◌%◌, ◌^◌, Option, none, some, List, [], ◌∷◌, ltb, ◌&&◌,
  if◌then◌else◌, drop, get_elem?,
}
use kanana.Base.Memory.{◌>>=◌, ◌>>◌, assert, read_bytes}
use kanana.Leb.Value.{le_value}
use kanana.Leb.Words.{leb128_to_uint, leb128_to_int, leb128_to_uword, leb128_to_sword}
use kanana.Dwarf.Op.{OpCodes}
use kanana.Dwarf.Register.{PoReg, no_reg, basic_reg, is_po_reg_type, read_reg_from_leb128}
use kanana.Dwarf.Expr.{less, parse_form_block}
use kanana.Dwarf.Cfa.{
  CfaOp, CfaCodes, RegInstruction, nop, same_value, offset, undefined, register, def_cfa,
  def_cfa_register, def_cfa_offset, def_cfa_offset_sf, def_cfa_expression, expression,
  val_expression, gnu_args_size, offset_extended, offset_extended_sf, katana_fixups,
  katana_fixups_pointer, set_loc, advance_loc1, advance_loc2, advance_loc4, remember_state,
  restore_state,
}

-- A slot of the zeroed array, once its type is set and its registers are marked as unused.
abbrev pub blank : CfaOp → RegInstruction
blank o = record {
  type = o;
  arg1 = 0;
  expr = [];
  arg1_reg = no_reg;
  arg2 = 0;
  arg2_reg = no_reg;
  arg3 = 0;
}

-- An int in a word.
abbrev pub int_to_word : ℕ → ℕ
int_to_word i = if ltb i (2 ^ 31) then i else i + (2 ^ 64 - 2 ^ 32)

-- An instruction, and the number of bytes behind its opcode that the loop steps over.
unfoldable pub parse_number :
    (List ℕ → Option (ℕ × ℕ)) → CfaOp → List ℕ → Option (RegInstruction × ℕ)
parse_number read o rest = do (word, n) ← read rest; some (record (blank o) { arg1 = word }, n)

unfoldable pub parse_reg : CfaOp → List ℕ → Option (RegInstruction × ℕ)
parse_reg o rest = do
  (reg, n) ← read_reg_from_leb128 rest
  some (record (blank o) { arg1_reg = reg }, n)

unfoldable pub parse_reg_number :
    (List ℕ → Option (ℕ × ℕ)) → CfaOp → List ℕ → Option (RegInstruction × ℕ)
parse_reg_number read o rest = do
  (reg, n) ← read_reg_from_leb128 rest
  (word, m) ← read (drop n rest)
  some (record (blank o) { arg1_reg = reg; arg2 = word }, n + m)

-- The number behind the register is read, and not stepped over.
unfoldable pub parse_offset_extended :
    (List ℕ → Option (ℕ × ℕ)) → CfaOp → List ℕ → Option (RegInstruction × ℕ)
parse_offset_extended read o rest = do
  (reg, n) ← read_reg_from_leb128 rest
  (word, m) ← read (drop n rest)
  some (record (blank o) { arg1_reg = reg; arg2 = word }, n)

unfoldable pub parse_registers : CfaOp → List ℕ → Option (RegInstruction × ℕ)
parse_registers o rest = do
  (reg, n) ← read_reg_from_leb128 rest
  (reg', m) ← read_reg_from_leb128 (drop n rest)
  some (record (blank o) { arg1_reg = reg; arg2_reg = reg' }, n + m)

-- The first byte of the number is looked at, before it is decoded.
unfoldable pub read_po_reg : List ℕ → Option (PoReg × ℕ)
read_po_reg rest = do
  first ← get_elem? rest 0
  assert (is_po_reg_type first)
  read_reg_from_leb128 rest

unfoldable pub parse_fixups : CfaOp → List ℕ → Option (RegInstruction × ℕ)
parse_fixups o rest = do
  (reg, n) ← read_po_reg rest
  (reg', m) ← read_po_reg (drop n rest)
  (index, l) ← leb128_to_uint (drop (n + m) rest)
  some (record (blank o) { arg1_reg = reg; arg2_reg = reg'; arg3 = index }, n + m + l)

-- A location of some bytes, of which the first ones are read.
unfoldable pub parse_location : ℕ → ℕ → CfaOp → List ℕ → Option (RegInstruction × ℕ)
parse_location read size o rest = do
  bytes ← read_bytes read rest
  some (record (blank o) { arg1 = le_value bytes }, size)

unfoldable pub parse_low : OpCodes → CfaOp → List ℕ → Option (RegInstruction × ℕ)
parse_low ops set_loc rest = parse_location 4 4 set_loc rest
parse_low ops advance_loc1 rest = parse_location 1 1 advance_loc1 rest
parse_low ops advance_loc2 rest = parse_location 1 2 advance_loc2 rest
parse_low ops advance_loc4 rest = parse_location 4 4 advance_loc4 rest
parse_low ops offset_extended rest = parse_offset_extended leb128_to_uword offset_extended rest
parse_low ops offset_extended_sf rest =
    parse_offset_extended leb128_to_sword offset_extended_sf rest
parse_low ops undefined rest = parse_reg undefined rest
parse_low ops same_value rest = parse_reg same_value rest
parse_low ops register rest = parse_registers register rest
parse_low ops katana_fixups rest = parse_fixups katana_fixups rest
parse_low ops katana_fixups_pointer rest = parse_fixups katana_fixups_pointer rest
parse_low ops def_cfa rest = parse_reg_number leb128_to_uint def_cfa rest
parse_low ops def_cfa_register rest = parse_reg def_cfa_register rest
parse_low ops def_cfa_offset rest = parse_number leb128_to_uint def_cfa_offset rest
parse_low ops gnu_args_size rest = parse_number leb128_to_uint gnu_args_size rest
parse_low ops def_cfa_offset_sf rest = do
  (int, n) ← leb128_to_int rest
  some (record (blank def_cfa_offset_sf) { arg1 = int_to_word int }, n)
parse_low ops remember_state rest = some (blank remember_state, 0)
parse_low ops restore_state rest = some (blank restore_state, 0)
parse_low ops expression rest = do
  (reg, n) ← read_reg_from_leb128 rest
  (is, m) ← parse_form_block ops (drop n rest)
  some (record (blank expression) { arg1_reg = reg; expr = is }, n + m)
parse_low ops val_expression rest = do
  (reg, n) ← read_reg_from_leb128 rest
  (is, m) ← parse_form_block ops (drop n rest)
  some (record (blank val_expression) { arg1_reg = reg; expr = is }, n + m)
parse_low ops def_cfa_expression rest = do
  (is, n) ← parse_form_block ops rest
  some (record (blank def_cfa_expression) { expr = is }, n)
parse_low ops _ rest = none

-- An instruction with an operand in the low bits of its opcode.
unfoldable pub parse_high : CfaOp → ℕ → List ℕ → Option (RegInstruction × ℕ)
parse_high o low rest =
    let with_low = record (blank o) { arg1 = low; arg1_reg = basic_reg low } in
    elim o [
      | offset ↦ leb128_to_uword rest >>= λ (word, n). some (record with_low { arg2 = word }, n)
      | _ ↦ some (with_low, 0)
    ]

-- `none` inside the option is a DW_CFA_nop, which takes no slot.
unfoldable pub parse_case : OpCodes → CfaOp → List ℕ → Option (Option RegInstruction × ℕ)
parse_case ops nop rest = some (none, 0)
parse_case ops o rest = parse_low ops o rest >>= λ (i, n). some (some i, n)

module _ (codes : CfaCodes) (ops : OpCodes) where
  -- The outer `switch`, on the two high bits, and the inner one, on the six others.
  unfoldable pub parse_byte : Option CfaOp → ℕ → List ℕ → Option (Option RegInstruction × ℕ)
  parse_byte (some o) low rest = parse_high o low rest >>= λ (i, n). some (some i, n)
  parse_byte none low rest = codes.low low >>= λ o. parse_case ops o rest

  unfoldable pub parse_one : ℕ → List ℕ → Option (Option RegInstruction × ℕ)
  unfolding parse_byte
  parse_one byte rest = parse_byte (codes.high (byte / 64 * 64)) (byte % 64) rest

  abbrev pub into_slots : Option RegInstruction → List RegInstruction → List RegInstruction
  into_slots none is = is
  into_slots (some i) is = i ∷ is

  -- The loop, while 0 < len as an int. Each round takes one byte at least, so there are no more
  -- rounds than bytes.
  unfoldable pub parse_rounds : ℕ → List ℕ → ℕ → Option (List RegInstruction)
  parse_rounds zero bytes len = if ltb 0 len && ltb len (2 ^ 31) then none else some []
  parse_rounds (suc rounds) [] len = if ltb 0 len && ltb len (2 ^ 31) then none else some []
  parse_rounds (suc rounds) (byte ∷ rest) len =
      let more = (do
        (i, n) ← parse_one byte rest
        is ← parse_rounds rounds (drop n rest) (less len n)
        some (into_slots i is)) in
      if ltb 0 len && ltb len (2 ^ 31) then more else some []

  unfoldable pub parse_fde_instructions : List ℕ → ℕ → Option (List RegInstruction)
  parse_fde_instructions bytes len = parse_rounds len bytes len
