-- ===== src/Dwarf/Numbers.antt =====
-- The opcode numbers of the DWARF standard, for runs of the code.
use kanana.Base.{ℕ, ◌+◌, ◌-◌, Option, none, some, List, [], ◌∷◌, leb, ◌==◌, ◌&&◌, if◌then◌else◌}
use kanana.Dwarf.Op.{ExprOp, lit, OpCodes}
use kanana.Dwarf.Cfa.{CfaOp, CfaCodes}

-- The numbers of <dwarf.h>.
abbrev number : ExprOp → ℕ
number (lit n) = 0x30 + n
number (ExprOp.reg n) = 0x50 + n
number (ExprOp.breg n) = 0x70 + n
number ExprOp.addr = 0x03
number ExprOp.deref = 0x06
number ExprOp.const1u = 0x08
number ExprOp.const1s = 0x09
number ExprOp.const2u = 0x0a
number ExprOp.const2s = 0x0b
number ExprOp.const4u = 0x0c
number ExprOp.const4s = 0x0d
number ExprOp.const8u = 0x0e
number ExprOp.const8s = 0x0f
number ExprOp.constu = 0x10
number ExprOp.consts = 0x11
number ExprOp.dup = 0x12
number ExprOp.drop = 0x13
number ExprOp.over = 0x14
number ExprOp.pick = 0x15
number ExprOp.swap = 0x16
number ExprOp.rot = 0x17
number ExprOp.xderef = 0x18
number ExprOp.abs = 0x19
number ExprOp.and = 0x1a
number ExprOp.div = 0x1b
number ExprOp.minus = 0x1c
number ExprOp.modulo = 0x1d
number ExprOp.mul = 0x1e
number ExprOp.neg = 0x1f
number ExprOp.not = 0x20
number ExprOp.or = 0x21
number ExprOp.plus = 0x22
number ExprOp.plus_uconst = 0x23
number ExprOp.shl = 0x24
number ExprOp.shr = 0x25
number ExprOp.shra = 0x26
number ExprOp.xor = 0x27
number ExprOp.bra = 0x28
number ExprOp.eq = 0x29
number ExprOp.ge = 0x2a
number ExprOp.gt = 0x2b
number ExprOp.le = 0x2c
number ExprOp.lt = 0x2d
number ExprOp.ne = 0x2e
number ExprOp.skip = 0x2f
number ExprOp.regx = 0x90
number ExprOp.fbreg = 0x91
number ExprOp.bregx = 0x92
number ExprOp.piece = 0x93
number ExprOp.deref_size = 0x94
number ExprOp.xderef_size = 0x95
number ExprOp.nop = 0x96
number ExprOp.push_object_address = 0x97
number ExprOp.call2 = 0x98
number ExprOp.call4 = 0x99
number ExprOp.call_ref = 0x9a
number ExprOp.form_tls_address = 0x9b
number ExprOp.call_frame_cfa = 0x9c
number ExprOp.bit_piece = 0x9d
number ExprOp.implicit_value = 0x9e
number ExprOp.stack_value = 0x9f

abbrev opcodes : List ExprOp
opcodes =
    ExprOp.addr ∷ ExprOp.deref ∷ ExprOp.const1u ∷ ExprOp.const1s ∷ ExprOp.const2u ∷ ExprOp.const2s
    ∷ ExprOp.const4u ∷ ExprOp.const4s ∷ ExprOp.const8u ∷ ExprOp.const8s ∷ ExprOp.constu
    ∷ ExprOp.consts ∷ ExprOp.dup ∷ ExprOp.drop ∷ ExprOp.over ∷ ExprOp.pick ∷ ExprOp.swap
    ∷ ExprOp.rot ∷ ExprOp.xderef ∷ ExprOp.abs ∷ ExprOp.and ∷ ExprOp.div ∷ ExprOp.minus
    ∷ ExprOp.modulo ∷ ExprOp.mul ∷ ExprOp.neg ∷ ExprOp.not ∷ ExprOp.or ∷ ExprOp.plus
    ∷ ExprOp.plus_uconst ∷ ExprOp.shl ∷ ExprOp.shr ∷ ExprOp.shra ∷ ExprOp.xor ∷ ExprOp.bra
    ∷ ExprOp.eq ∷ ExprOp.ge ∷ ExprOp.gt ∷ ExprOp.le ∷ ExprOp.lt ∷ ExprOp.ne ∷ ExprOp.skip
    ∷ ExprOp.regx ∷ ExprOp.fbreg ∷ ExprOp.bregx ∷ ExprOp.piece ∷ ExprOp.deref_size
    ∷ ExprOp.xderef_size ∷ ExprOp.nop ∷ ExprOp.push_object_address ∷ ExprOp.call2 ∷ ExprOp.call4
    ∷ ExprOp.call_ref ∷ ExprOp.form_tls_address ∷ ExprOp.call_frame_cfa ∷ ExprOp.bit_piece
    ∷ ExprOp.implicit_value ∷ ExprOp.stack_value ∷ []

abbrev find : ℕ → List ExprOp → Option ExprOp
find b [] = none
find b (o ∷ os) = let rest = find b os in if number o == b then some o else rest

abbrev case_of : ℕ → Option ExprOp
case_of b =
    if leb 0x30 b && leb b 0x4f
    then some (lit (b - 0x30))
    else (if leb 0x50 b && leb b 0x6f
        then some (ExprOp.reg (b - 0x50))
        else (if leb 0x70 b && leb b 0x8f then some (ExprOp.breg (b - 0x70)) else find b opcodes))

abbrev pub codes : OpCodes
codes = record { code = number; op = case_of }

abbrev cfa_number : CfaOp → ℕ
cfa_number CfaOp.nop = 0x00
cfa_number CfaOp.set_loc = 0x01
cfa_number CfaOp.advance_loc1 = 0x02
cfa_number CfaOp.advance_loc2 = 0x03
cfa_number CfaOp.advance_loc4 = 0x04
cfa_number CfaOp.offset_extended = 0x05
cfa_number CfaOp.restore_extended = 0x06
cfa_number CfaOp.undefined = 0x07
cfa_number CfaOp.same_value = 0x08
cfa_number CfaOp.register = 0x09
cfa_number CfaOp.remember_state = 0x0a
cfa_number CfaOp.restore_state = 0x0b
cfa_number CfaOp.def_cfa = 0x0c
cfa_number CfaOp.def_cfa_register = 0x0d
cfa_number CfaOp.def_cfa_offset = 0x0e
cfa_number CfaOp.def_cfa_expression = 0x0f
cfa_number CfaOp.expression = 0x10
cfa_number CfaOp.offset_extended_sf = 0x11
cfa_number CfaOp.def_cfa_sf = 0x12
cfa_number CfaOp.def_cfa_offset_sf = 0x13
cfa_number CfaOp.val_offset = 0x14
cfa_number CfaOp.val_offset_sf = 0x15
cfa_number CfaOp.val_expression = 0x16
cfa_number CfaOp.katana_fixups = 0x21
cfa_number CfaOp.katana_fixups_pointer = 0x22
cfa_number CfaOp.gnu_args_size = 0x2e
cfa_number CfaOp.advance_loc = 0x40
cfa_number CfaOp.offset = 0x80
cfa_number CfaOp.restore = 0xc0

abbrev cfa_low : List CfaOp
cfa_low =
    CfaOp.nop ∷ CfaOp.set_loc ∷ CfaOp.advance_loc1 ∷ CfaOp.advance_loc2 ∷ CfaOp.advance_loc4
    ∷ CfaOp.offset_extended ∷ CfaOp.restore_extended ∷ CfaOp.undefined ∷ CfaOp.same_value
    ∷ CfaOp.register ∷ CfaOp.remember_state ∷ CfaOp.restore_state ∷ CfaOp.def_cfa
    ∷ CfaOp.def_cfa_register ∷ CfaOp.def_cfa_offset ∷ CfaOp.def_cfa_expression ∷ CfaOp.expression
    ∷ CfaOp.offset_extended_sf ∷ CfaOp.def_cfa_sf ∷ CfaOp.def_cfa_offset_sf ∷ CfaOp.val_offset
    ∷ CfaOp.val_offset_sf ∷ CfaOp.val_expression ∷ CfaOp.katana_fixups ∷ CfaOp.katana_fixups_pointer
    ∷ CfaOp.gnu_args_size ∷ []

abbrev cfa_high : List CfaOp
cfa_high = CfaOp.advance_loc ∷ CfaOp.offset ∷ CfaOp.restore ∷ []

abbrev find_cfa : ℕ → List CfaOp → Option CfaOp
find_cfa b [] = none
find_cfa b (o ∷ os) = let rest = find_cfa b os in if cfa_number o == b then some o else rest

abbrev pub cfa_codes : CfaCodes
cfa_codes = record {
  code = cfa_number;
  high = λ b. find_cfa b cfa_high;
  low = λ b. find_cfa b cfa_low;
}
