-- ===== src/Dwarf/Expr/Blocks.antt =====
-- A DWARF expression as a block: `encodeDwarfExprAsFormBlock` of src/dwarf_instr.c, and how
-- src/fderead.c reads it.
use mathlib.Core.List.{append_assoc}
use kanana.Base.{
  ℕ, suc, ◌^◌, ◌%◌, ◌<◌, ◌≤◌, ◌≡◌, refl, sym, ap, arith, some, List, ◌++◌, length, All,
  length-append,
}
use kanana.Base.Memory.{IsByte}
use kanana.Leb.Value.{uleb}
use kanana.Leb.Words.Uleb.{Operand, leb128_to_uint-uleb, uint_to_leb128-uleb}
use kanana.Util.GrowingBuffer.{zeroed}
use kanana.Dwarf.Op.{OpCodes}
use kanana.Dwarf.Expr.{
  ExprInstr, encode_dwarf_expr_as_form_block, parse_form_block, parse_dwarf_expression,
}
use kanana.Dwarf.Expr.Reads.{drop-append}
use kanana.Dwarf.Expr.RoundTrip.{
  Survives, all_bytes, encode_all-Appends, all_bytes-IsByte, parse_loop-all_bytes,
}

module _ (codes : OpCodes) where
  pub parse_form_block-Operand :
      (is : List ExprInstr) (k : ℕ)
      → All (Survives codes) is
      → length (all_bytes codes is) < 2 ^ 32
      → length (all_bytes codes is) < 128 ^ suc k
      → Operand
          (parse_form_block codes)
          (uleb k (length (all_bytes codes is)) ++ all_bytes codes is)
          is
  unfolding parse_form_block parse_dwarf_expression
  parse_form_block-Operand is k his small wide rest hr =
      let body = all_bytes codes is in
      let size = uleb k (length body) in
      let bytes = all_bytes-IsByte codes is rest his hr in
      let (all, read) = leb128_to_uint-uleb k (length body) wide small (body ++ rest) bytes in
      let run = parse_loop-all_bytes codes is (length body) rest his hr (omega arith) small in
      rw (append_assoc size body rest) (
        all,
        rw (read, drop-append size (body ++ rest), run)
            (ap (λ n. some (is, n)) (sym (length-append size body))),
      )

  -- The block that is written: the length of the expression, and the expression.
  pub encode_block-uleb :
      (is : List ExprInstr)
      → All (Survives codes) is
      → length (all_bytes codes is) < 2 ^ 32
      → (k : ℕ) × (k ≤ 5)
        × (length (all_bytes codes is) < 128 ^ suc k)
        × (encode_dwarf_expr_as_form_block codes is
            ≡ some (
              uleb k (length (all_bytes codes is)) ++ all_bytes codes is,
              length (uleb k (length (all_bytes codes is)) ++ all_bytes codes is) % 2 ^ 16,
            ))
  unfolding encode_dwarf_expr_as_form_block
  encode_block-uleb is his small =
      let (buf, enc, same, _) = encode_all-Appends codes is his zeroed (omega arith) in
      let body = all_bytes codes is in
      let len : length body % 2 ^ 32 ≡ length body = omega (arith, small) in
      let (k, written, wide, few) = uint_to_leb128-uleb (length body) small in
      (k, few, wide, rw (enc, same, len, written, length-append (uleb k (length body)) body) refl)

  -- A list of instructions, encoded as a block by `encodeDwarfExprAsFormBlock` and read back as
  -- `parseFDEInstructions` reads a block, whatever bytes follow, is the same list, and the block is
  -- read to its end; the number of bytes that the encoder reports is that of the block, cut to a short.
  -- The opcodes are those that the encoder supports but DW_OP_consts, DW_OP_fbreg, DW_OP_breg0 to
  -- DW_OP_breg31 and DW_OP_bregx, which have signed LEB128 operands; they are bytes with their own case, and
  -- the operands fit. The expression is shorter than 2 ^ 32 bytes.
  pub parse_form_block-encode :
      (is : List ExprInstr) (rest : List ℕ)
      → All (Survives codes) is
      → All IsByte rest
      → length (all_bytes codes is) < 2 ^ 32
      → (block : List ℕ) × (encode_dwarf_expr_as_form_block codes is
          ≡ some (block, length block % 2 ^ 16))
        × (parse_form_block codes (block ++ rest) ≡ some (is, length block))
  parse_form_block-encode is rest his hr small =
      let (k, few, wide, enc) = encode_block-uleb is his small in
      let (_, read) = parse_form_block-Operand is k his small wide rest hr in
      (uleb k (length (all_bytes codes is)) ++ all_bytes codes is, enc, read)
