-- ===== src/Dwarf/Expr.antt =====
-- DWARF expressions: `encodeDwarfExprInstr`, `encodeDwarfExprAsFormBlock` and `addToDwarfExpression`
-- of src/dwarf_instr.c, `parseDwarfExpression` of src/fderead.c. A word and an address have 8 bytes.
pub mod Operands
pub mod Reads
pub mod RoundTrip
pub mod Measured
pub mod Blocks
pub mod Signed
mod Tests
use kanana.Base.{
  ℕ, zero, suc, ◌+◌, ◌-◌, ◌%◌, ◌^◌, Option, none, some, List, [], ◌∷◌, ◌++◌, Bool, true, false, leb,
  ◌==◌, if◌then◌else◌, length, drop,
}
use kanana.Base.Memory.{◌>>=◌, ◌>>◌, assert, read_bytes}
use kanana.Leb.{decode_leb128}
use kanana.Leb.Value.{le_value}
use kanana.Leb.Words.{le_bytes, uint_to_leb128, leb128_to_uint, sextend, decoded}
use kanana.Util.GrowingBuffer.{
  GrowingBuffer, zeroed, add_to_growing_buffer, add_uleb_to_growing_buffer,
  add_sleb_to_growing_buffer,
}
use kanana.Dwarf.Op.{
  ExprOp, OpCodes, Encoded, nothing, uleb, sleb, uleb_sleb, unsupported, fixed, encoded_as, Parsed,
  none_read, u1, s1, u2, s2, u4, s4, u8, s8, uleb_read, sleb_read, unread, parsed_as,
}

pub record ExprInstr : Type 0 where
  pub type : ExprOp
  pub arg1 : ℕ
  pub arg2 : ℕ

abbrev pub expr_instr : ExprOp → ℕ → ℕ → ExprInstr
expr_instr o a b = record { type = o; arg1 = a; arg2 = b }

unfoldable pub encode_operand : Encoded → ExprInstr → GrowingBuffer → Option GrowingBuffer
encode_operand nothing i buf = some buf
encode_operand (fixed size) i buf = add_to_growing_buffer buf (le_bytes size i.arg1)
encode_operand uleb i buf = add_uleb_to_growing_buffer buf i.arg1
encode_operand sleb i buf = add_sleb_to_growing_buffer buf i.arg1
encode_operand uleb_sleb i buf = do
  buf' ← add_uleb_to_growing_buffer buf i.arg1
  add_sleb_to_growing_buffer buf' i.arg2
encode_operand unsupported i buf = none

-- The address and words that the operands of one opcode make of the bytes behind it, and their number.
unfoldable pub parse_unsigned : ℕ → List ℕ → Option (ℕ × ℕ)
parse_unsigned size rest = read_bytes size rest >>= λ bytes. some (le_value bytes, size)

unfoldable pub parse_signed : ℕ → List ℕ → Option (ℕ × ℕ)
parse_signed size rest = do
  bytes ← read_bytes size rest
  word ← sextend (le_value bytes) size
  some (word, size)

-- The number of a LEB128 operand is copied into the word as it is, also a signed one.
unfoldable pub parse_leb : Bool → List ℕ → Option (ℕ × ℕ)
parse_leb signed rest = do
  (number, read) ← decode_leb128 rest signed
  word ← decoded 8 number
  some (word, read)

unfoldable pub parse_operand : Parsed → List ℕ → Option (ℕ × ℕ)
unfolding parse_unsigned parse_signed parse_leb
parse_operand none_read rest = some (0, 0)
parse_operand u1 rest = parse_unsigned 1 rest
parse_operand s1 rest = parse_signed 1 rest
parse_operand u2 rest = parse_unsigned 2 rest
parse_operand s2 rest = parse_signed 2 rest
parse_operand u4 rest = parse_unsigned 4 rest
parse_operand s4 rest = parse_signed 4 rest
parse_operand u8 rest = parse_unsigned 8 rest
parse_operand s8 rest = parse_signed 8 rest
parse_operand uleb_read rest = parse_leb false rest
parse_operand sleb_read rest = parse_leb true rest
parse_operand unread rest = none

-- `len-=n` and `len--` on a uint.
abbrev pub less : ℕ → ℕ → ℕ
less len n = (len + 2 ^ 32 - (n + 1) % 2 ^ 32) % 2 ^ 32

module _ (codes : OpCodes) where
  unfoldable pub encode_dwarf_expr_instr : ExprInstr → GrowingBuffer → Option GrowingBuffer
  unfolding encode_operand
  encode_dwarf_expr_instr i buf = do
    buf' ← add_to_growing_buffer buf (codes.code i.type % 256 ∷ [])
    encode_operand (encoded_as i.type) i buf'

  unfoldable pub encode_all : List ExprInstr → GrowingBuffer → Option GrowingBuffer
  encode_all [] buf = some buf
  encode_all (i ∷ is) buf = encode_dwarf_expr_instr i buf >>= encode_all is

  -- The block, and the number of its bytes as the caller hears of it, in a short.
  unfoldable pub encode_dwarf_expr_as_form_block : List ExprInstr → Option (List ℕ × ℕ)
  encode_dwarf_expr_as_form_block is = do
    block_data ← encode_all is zeroed
    length_data ← uint_to_leb128 (length block_data.bytes % 2 ^ 32)
    some (length_data ++ block_data.bytes, (length length_data + length block_data.bytes) % 2 ^ 16)

  -- The loop of `parseDwarfExpression`. The array of instructions has a slot for each byte of the
  -- expression, and the bytes are those of the section from the expression on.
  unfoldable pub parse_loop : ℕ → List ℕ → ℕ → Option (List ExprInstr)
  parse_loop zero bytes len = if len == 0 then some [] else none
  parse_loop (suc slots) [] len = if len == 0 then some [] else none
  parse_loop (suc slots) (b ∷ rest) len =
      let more = (do
        o ← codes.op b
        (word, read) ← parse_operand (parsed_as o) rest
        is ← parse_loop slots (drop read rest) (less len read)
        some (expr_instr o word 0 ∷ is)) in
      if len == 0 then some [] else more

  unfoldable pub parse_dwarf_expression : List ℕ → ℕ → Option (List ExprInstr)
  parse_dwarf_expression bytes len = parse_loop len bytes len

  -- How `parseFDEInstructions` reads a block: its length, then the expression behind it.
  unfoldable pub parse_form_block : List ℕ → Option (List ExprInstr × ℕ)
  parse_form_block bytes = do
    (len, read) ← leb128_to_uint bytes
    is ← parse_dwarf_expression (drop read bytes) len
    some (is, read + len)

-- `DwarfExpr`: the number of instructions is the length of the list.
pub record DwarfExpr : Type 0 where
  pub instructions : List ExprInstr
  pub byte_length : ℕ

-- The index of the instruction added, and the expression with it.
unfoldable pub add_to_dwarf_expression : OpCodes → DwarfExpr → ExprInstr → Option (ℕ × DwarfExpr)
add_to_dwarf_expression codes e i = do
  buf ← encode_dwarf_expr_instr codes i zeroed
  some (
    length e.instructions,
    record {
      instructions = e.instructions ++ i ∷ [];
      byte_length = e.byte_length + length buf.bytes;
    },
  )
