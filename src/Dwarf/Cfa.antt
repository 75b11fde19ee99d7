-- ===== src/Dwarf/Cfa.antt =====
-- Call frame instructions: `regInstructionToRawDwarfInstruction`, `addInstruction` and
-- `serializeDwarfRegInstructions` of src/dwarf_instr.c.
pub mod Parse
pub mod Carried
pub mod Frame
pub mod Instrs
pub mod RoundTrip
pub mod Limits
mod Tests
use kanana.Base.{
  ℕ, zero, suc, ◌+◌, ◌-◌, ◌*◌, ◌/◌, ◌%◌, ◌^◌, ◌≤◌, bit_or, Option, none, some, List, [], ◌∷◌, ◌++◌,
  Bool, true, false, leb, ltb, ◌==◌, if◌then◌else◌, length, take,
}
use kanana.Base.Memory.{◌>>=◌, ◌>>◌, assert}
use kanana.Leb.{encode_as_leb128}
use kanana.Leb.Words.{le_bytes, int_to_leb128}
use kanana.Dwarf.Op.{OpCodes}
use kanana.Dwarf.Register.{PoReg, RegType, no_reg, encode_reg_as_leb128}
use kanana.Dwarf.Expr.{ExprInstr, encode_dwarf_expr_as_form_block}

-- The DW_CFA opcodes that the source names.
pub data CfaOp : Type 0 where
  nop same_value offset restore restore_extended undefined register : CfaOp
  def_cfa def_cfa_sf def_cfa_register def_cfa_offset def_cfa_offset_sf def_cfa_expression : CfaOp
  expression val_expression gnu_args_size offset_extended offset_extended_sf val_offset
        val_offset_sf :
      CfaOp
  katana_fixups katana_fixups_pointer : CfaOp
  set_loc advance_loc advance_loc1 advance_loc2 advance_loc4 remember_state restore_state : CfaOp

-- Their numbers, from <dwarf.h>, and the cases that the two `switch`es of the parser take.
pub record CfaCodes : Type 0 where
  pub code : CfaOp → ℕ
  pub high : ℕ → Option CfaOp
  pub low : ℕ → Option CfaOp

pub record RegInstruction : Type 0 where
  pub type : CfaOp
  pub arg1 : ℕ
  pub expr : List ExprInstr
  pub arg1_reg : PoReg
  pub arg2 : ℕ
  pub arg2_reg : PoReg
  pub arg3 : ℕ

-- `DwarfInstruction`, where the bytes of an argument are as many as their number says.
pub record RawInstruction : Type 0 where
  pub opcode : CfaOp
  pub arg1_bytes : List ℕ
  pub arg2_bytes : List ℕ
  pub arg3_bytes : List ℕ
  pub arg1 : ℕ
  pub arg2 : ℕ

abbrev pub raw : CfaOp → RawInstruction
raw o = record { opcode = o; arg1_bytes = []; arg2_bytes = []; arg3_bytes = []; arg1 = 0; arg2 = 0 }

abbrev pub raw_bytes : CfaOp → List ℕ → List ℕ → RawInstruction
raw_bytes o xs ys = record (raw o) { arg1_bytes = xs; arg2_bytes = ys }

abbrev encode_word : Bool → ℕ → Option (List ℕ)
encode_word signed word = encode_as_leb128 (le_bytes 8 word) signed

-- An expression of which the caller takes as many bytes as it hears of.
unfoldable pub encode_block : OpCodes → List ExprInstr → Option (List ℕ)
encode_block ops is = do
  (block, number) ← encode_dwarf_expr_as_form_block ops is
  some (take number block)

unfoldable pub reg_only : RegInstruction → Option RawInstruction
reg_only i = do reg ← encode_reg_as_leb128 i.arg1_reg; some (raw_bytes i.type reg [])

unfoldable pub reg_word : Bool → RegInstruction → Option RawInstruction
reg_word signed i = do
  reg ← encode_reg_as_leb128 i.arg1_reg
  word ← encode_word signed i.arg2
  some (raw_bytes i.type reg word)

unfoldable pub reg_block : OpCodes → RegInstruction → Option RawInstruction
reg_block ops i = do
  reg ← encode_reg_as_leb128 i.arg1_reg
  block ← encode_block ops i.expr
  some (raw_bytes i.type reg block)

-- The index of the register becomes a word, and the offset an int.
unfoldable pub raw_offset : RegInstruction → Option RawInstruction
raw_offset i = do
  reg ← encode_reg_as_leb128 i.arg1_reg
  assert (length reg == 1)
  word ← int_to_leb128 (i.arg2 % 2 ^ 32)
  some (record (raw_bytes offset reg word) { arg1 = i.arg1_reg.value; arg2 = i.arg2 })

unfoldable pub reg_instruction_to_raw : OpCodes → RegInstruction → CfaOp → Option RawInstruction
reg_instruction_to_raw ops i set_loc = some (record (raw i.type) { arg1 = i.arg1 })
reg_instruction_to_raw ops i advance_loc = some (record (raw i.type) { arg1 = i.arg1 })
reg_instruction_to_raw ops i advance_loc1 = some (record (raw i.type) { arg1 = i.arg1 })
reg_instruction_to_raw ops i advance_loc2 = some (record (raw i.type) { arg1 = i.arg1 })
reg_instruction_to_raw ops i advance_loc4 = some (record (raw i.type) { arg1 = i.arg1 })
reg_instruction_to_raw ops i offset = raw_offset i
reg_instruction_to_raw ops i register = do
  reg ← encode_reg_as_leb128 i.arg1_reg
  reg' ← encode_reg_as_leb128 i.arg2_reg
  some (raw_bytes i.type reg reg')
reg_instruction_to_raw ops i offset_extended = reg_word false i
reg_instruction_to_raw ops i def_cfa = reg_word false i
reg_instruction_to_raw ops i offset_extended_sf = reg_word true i
reg_instruction_to_raw ops i def_cfa_register = reg_only i
reg_instruction_to_raw ops i restore_extended = reg_only i
reg_instruction_to_raw ops i undefined = reg_only i
reg_instruction_to_raw ops i same_value = reg_only i
reg_instruction_to_raw ops i def_cfa_offset =
    encode_word false i.arg1 >>= λ word. some (raw_bytes i.type word [])
reg_instruction_to_raw ops i gnu_args_size =
    encode_word false i.arg1 >>= λ word. some (raw_bytes i.type word [])
reg_instruction_to_raw ops i def_cfa_offset_sf =
    encode_word true i.arg1 >>= λ word. some (raw_bytes i.type word [])
reg_instruction_to_raw ops i restore = some (record (raw i.type) { arg1 = i.arg1 })
reg_instruction_to_raw ops i remember_state = some (raw i.type)
reg_instruction_to_raw ops i restore_state = some (raw i.type)
reg_instruction_to_raw ops i nop = some (raw i.type)
reg_instruction_to_raw ops i def_cfa_expression =
    encode_block ops i.expr >>= λ block. some (raw_bytes i.type block [])
reg_instruction_to_raw ops i expression = reg_block ops i
reg_instruction_to_raw ops i val_expression = reg_block ops i
reg_instruction_to_raw ops i _ = none

-- `DwarfInstructions`: `numBytes` is the length of the bytes.
pub record DwarfInstructions : Type 0 where
  pub instrs : List ℕ
  pub allocated : ℕ

-- The `memcpy` must end inside the allocation.
unfoldable pub copy_bytes : DwarfInstructions → List ℕ → Option DwarfInstructions
copy_bytes is new =
    if leb (length is.instrs + length new) is.allocated
    then some (record is { instrs = is.instrs ++ new })
    else none

unfoldable pub add_bytes : DwarfInstructions → List ℕ → Option DwarfInstructions
add_bytes is new =
    let double = is.allocated * 2 in
    let longer = is.allocated + length new * 2 in
    let grown : DwarfInstructions = record is {
      allocated = if ltb double longer then longer else double;
    } in
    copy_bytes (if ltb (is.allocated - length is.instrs) (length new) then grown else is) new

-- A location of `n` bytes, which the last number that fits them bounds.
unfoldable pub location : ℕ → ℕ → ℕ → Option (List ℕ)
location number n arg1 = if ltb arg1 (256 ^ n) then some (number ∷ le_bytes n arg1) else none

module _ (codes : CfaCodes) where
  -- The bytes that `addInstruction` adds for one instruction.
  unfoldable pub instruction_bytes : RawInstruction → CfaOp → Option (List ℕ)
  instruction_bytes r nop = some (codes.code nop % 256 ∷ [])
  instruction_bytes r same_value = some (codes.code same_value % 256 ∷ [])
  instruction_bytes r offset = do
    assert (ltb r.arg1 128)
    some (bit_or (codes.code offset) r.arg1 % 256 ∷ r.arg2_bytes)
  instruction_bytes r set_loc = do
    assert (length r.arg1_bytes == 8)
    some (codes.code set_loc % 256 ∷ r.arg1_bytes)
  instruction_bytes r advance_loc =
      if ltb 0xc0 r.arg1 then none else some (bit_or (codes.code advance_loc) r.arg1 % 256 ∷ [])
  instruction_bytes r advance_loc1 = location (codes.code advance_loc1 % 256) 1 r.arg1
  instruction_bytes r advance_loc2 = location (codes.code advance_loc2 % 256) 2 r.arg1
  instruction_bytes r advance_loc4 = location (codes.code advance_loc4 % 256) 4 r.arg1
  instruction_bytes r restore = some (bit_or (codes.code restore) r.arg1 % 256 ∷ [])
  instruction_bytes r remember_state = some (codes.code remember_state % 256 ∷ [])
  instruction_bytes r restore_state = some (codes.code restore_state % 256 ∷ [])
  instruction_bytes r katana_fixups =
      some (codes.code katana_fixups % 256 ∷ r.arg1_bytes ++ (r.arg2_bytes ++ r.arg3_bytes))
  instruction_bytes r katana_fixups_pointer =
      some (codes.code katana_fixups_pointer % 256 ∷ r.arg1_bytes ++ (r.arg2_bytes ++ r.arg3_bytes))
  instruction_bytes r restore_extended = some (codes.code restore_extended % 256 ∷ r.arg1_bytes)
  instruction_bytes r def_cfa_register = some (codes.code def_cfa_register % 256 ∷ r.arg1_bytes)
  instruction_bytes r def_cfa_offset = some (codes.code def_cfa_offset % 256 ∷ r.arg1_bytes)
  instruction_bytes r def_cfa_offset_sf = some (codes.code def_cfa_offset_sf % 256 ∷ r.arg1_bytes)
  instruction_bytes r def_cfa_expression = some (codes.code def_cfa_expression % 256 ∷ r.arg1_bytes)
  instruction_bytes r gnu_args_size = some (codes.code gnu_args_size % 256 ∷ r.arg1_bytes)
  instruction_bytes r undefined = some (codes.code undefined % 256 ∷ r.arg1_bytes)
  -- What is left has two operands.
  instruction_bytes r o = some (codes.code o % 256 ∷ r.arg1_bytes ++ r.arg2_bytes)

  unfoldable pub add_instruction : DwarfInstructions → RawInstruction → Option DwarfInstructions
  add_instruction is r = instruction_bytes r r.opcode >>= add_bytes is

  unfoldable pub serialize_from :
      OpCodes → DwarfInstructions → List RegInstruction → Option DwarfInstructions
  serialize_from ops is [] = some is
  serialize_from ops is (i ∷ rest) = do
    r ← reg_instruction_to_raw ops i i.type
    is' ← add_instruction is r
    serialize_from ops is' rest

  unfoldable pub serialize_dwarf_reg_instructions :
      OpCodes → List RegInstruction → Option DwarfInstructions
  serialize_dwarf_reg_instructions ops = serialize_from ops (record { instrs = []; allocated = 0 })
