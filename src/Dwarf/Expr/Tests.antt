-- ===== src/Dwarf/Expr/Tests.antt =====
-- Runs of the DWARF expression code on the opcode numbers of the DWARF standard.
use kanana.Base.{
  ℕ, ◌<◌, ◌+◌, ◌%◌, ◌-◌, ◌^◌, ◌≡◌, refl, arith, some, List, [], ◌∷◌, ◌++◌, length, All, inr,
}
use kanana.Leb.Value.{uleb}
use kanana.Leb.Words.{le_bytes, leb128_to_sword}
use kanana.Util.GrowingBuffer.{zeroed}
use kanana.Dwarf.Op.{
  lit, consts, LawfulAt, const2s, plus_uconst, minus, skip, parsed_as, encoded_as, sleb_read,
}
use kanana.Dwarf.Expr.{
  ExprInstr, expr_instr, encode_all, encode_dwarf_expr_as_form_block, parse_form_block,
  parse_operand, DwarfExpr, add_to_dwarf_expression,
}
use kanana.Dwarf.Expr.Measured.{IsMeasured, add_to_dwarf_expression-IsMeasured}
use kanana.Dwarf.Expr.Operands.{operand_bytes, IsSignedWord}
use kanana.Dwarf.Expr.RoundTrip.{Survives, all_bytes}
use kanana.Dwarf.Expr.Blocks.{parse_form_block-encode}
use kanana.Dwarf.Numbers.{codes}
use kanana.Dwarf.Expr.Signed.{parse_operand-leb128_to_sword}

-- -2, then 300 added, subtracted from a literal, and a jump back.
abbrev program : List ExprInstr
program =
    expr_instr (lit 3) 0 0
    ∷ expr_instr const2s (2 ^ 64 - 2) 0
    ∷ expr_instr plus_uconst 300 0
    ∷ expr_instr minus 0 0
    ∷ expr_instr skip (2 ^ 64 - 9) 0
    ∷ []

lawful :
    LawfulAt codes (lit 3)
    × LawfulAt codes const2s
    × LawfulAt codes plus_uconst
    × LawfulAt codes minus
    × LawfulAt codes skip
lawful = (
  record { is_byte = omega arith; case_of = refl },
  record { is_byte = omega arith; case_of = refl },
  record { is_byte = omega arith; case_of = refl },
  record { is_byte = omega arith; case_of = refl },
  record { is_byte = omega arith; case_of = refl },
)

program-Survives : All (Survives codes) program
unfolding parsed_as
program-Survives =
    let (l, c, p, m, s) = lawful in
    let low : IsSignedWord 16 (2 ^ 64 - 2) = inr (omega arith, omega arith) in
    let back : IsSignedWord 16 (2 ^ 64 - 9) = inr (omega arith, omega arith) in
    (
      (l, refl, refl),
      ((c, low, refl), ((p, omega arith, refl), ((m, refl, refl), ((s, back, refl), tt)))),
    )

program_is_short : length (all_bytes codes program) < 2 ^ 32
unfolding operand_bytes parsed_as le_bytes uleb
program_is_short = omega arith

parse_form_block-encode_example :
    (block : List ℕ) × (encode_dwarf_expr_as_form_block codes program
      ≡ some (block, length block % 2 ^ 16))
    × (parse_form_block codes (block ++ (0xff ∷ [])) ≡ some (program, length block))
parse_form_block-encode_example =
    parse_form_block-encode codes program (0xff ∷ []) program-Survives (omega arith)
      program_is_short

abbrev empty : DwarfExpr
empty = record { instructions = []; byte_length = 0 }

empty-IsMeasured : IsMeasured codes empty
unfolding encode_all
empty-IsMeasured = (zeroed, refl, refl, omega arith)

-- An opcode with a negative signed operand, which is not read back.
add_to_dwarf_expression-IsMeasured_example :
    (e' : DwarfExpr) × (add_to_dwarf_expression codes empty (expr_instr consts (2 ^ 64 - 300) 0)
      ≡ some (0, e'))
    × (e'.instructions ≡ expr_instr consts (2 ^ 64 - 300) 0 ∷ [])
    × IsMeasured codes e'
unfolding encoded_as
add_to_dwarf_expression-IsMeasured_example =
    add_to_dwarf_expression-IsMeasured codes empty (expr_instr consts (2 ^ 64 - 300) 0) refl
      empty-IsMeasured

parse_operand-leb128_to_sword_example :
    (leb128_to_sword ((64 + 62) ∷ []) ≡ some (2 ^ 64 - 64 + 62, 1))
    × (parse_operand sleb_read ((64 + 62) ∷ []) ≡ some (192 + 62, 1))
parse_operand-leb128_to_sword_example = parse_operand-leb128_to_sword 62 [] (omega arith)
