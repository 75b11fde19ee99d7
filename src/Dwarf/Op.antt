-- ===== src/Dwarf/Op.antt =====
-- The DW_OP opcodes that src/dwarf_instr.c and src/fderead.c name, and how each file sorts them by
-- operand. `lit n`, `reg n` and `breg n` are DW_OP_lit0 to DW_OP_lit31 and so on.
use kanana.Base.{ℕ, ◌<◌, ◌≡◌, Option, some}

pub data ExprOp : Type 0 where
  lit reg breg : ℕ → ExprOp
  dup drop over swap rot deref xderef push_object_address form_tls_address call_frame_cfa : ExprOp
  abs and div minus modulo mul neg not or plus shl shr shra xor : ExprOp
  le ge eq lt gt ne nop : ExprOp
  const1u const1s pick deref_size xderef_size : ExprOp
  const2u const2s skip bra const4u const4s const8u const8s addr : ExprOp
  constu plus_uconst consts fbreg bregx : ExprOp
  regx piece call2 call4 call_ref bit_piece implicit_value stack_value : ExprOp

-- The operands that `encodeDwarfExprInstr` writes behind the opcode.
pub data Encoded : Type 0 where
  nothing uleb sleb uleb_sleb unsupported : Encoded
  fixed : ℕ → Encoded

unfoldable pub encoded_as : ExprOp → Encoded
encoded_as const1u = fixed 1
encoded_as const1s = fixed 1
encoded_as pick = fixed 1
encoded_as deref_size = fixed 1
encoded_as xderef_size = fixed 1
encoded_as const2u = fixed 2
encoded_as const2s = fixed 2
encoded_as skip = fixed 2
encoded_as bra = fixed 2
encoded_as const4u = fixed 4
encoded_as const4s = fixed 4
encoded_as const8u = fixed 8
encoded_as const8s = fixed 8
encoded_as addr = fixed 8
encoded_as constu = uleb
encoded_as plus_uconst = uleb
encoded_as consts = sleb
encoded_as fbreg = sleb
encoded_as (breg n) = sleb
encoded_as bregx = uleb_sleb
encoded_as regx = unsupported
encoded_as piece = unsupported
encoded_as call2 = unsupported
encoded_as call4 = unsupported
encoded_as call_ref = unsupported
encoded_as bit_piece = unsupported
encoded_as implicit_value = unsupported
encoded_as stack_value = unsupported
encoded_as _ = nothing

-- The operands that `parseDwarfExpression` reads behind the opcode.
pub data Parsed : Type 0 where
  none_read u1 s1 u2 s2 u4 s4 u8 s8 uleb_read sleb_read unread : Parsed

unfoldable pub parsed_as : ExprOp → Parsed
parsed_as const1u = u1
parsed_as pick = u1
parsed_as deref_size = u1
parsed_as xderef_size = u1
parsed_as const1s = s1
parsed_as const2u = u2
parsed_as const2s = s2
parsed_as skip = s2
parsed_as bra = s2
parsed_as const4u = u4
parsed_as const4s = s4
parsed_as const8u = u8
parsed_as const8s = s8
parsed_as addr = u8
parsed_as constu = uleb_read
parsed_as plus_uconst = uleb_read
parsed_as consts = sleb_read
parsed_as fbreg = sleb_read
parsed_as (breg n) = sleb_read
parsed_as bregx = unread
parsed_as regx = unread
parsed_as piece = unread
parsed_as call2 = unread
parsed_as call4 = unread
parsed_as call_ref = unread
parsed_as bit_piece = unread
parsed_as implicit_value = unread
parsed_as stack_value = unread
parsed_as _ = none_read

-- The numbers of the opcodes, from <dwarf.h>: `op` is the case of a `switch` that a byte takes.
pub record OpCodes : Type 0 where
  pub code : ExprOp → ℕ
  pub op : ℕ → Option ExprOp

-- What the two files rely on: an opcode is a byte, and its case is that opcode's.
pub record LawfulAt (codes : OpCodes) (o : ExprOp) : Type 0 where
  pub is_byte : codes.code o < 256
  pub case_of : codes.op (codes.code o) ≡ some o
