-- ===== src/Dwarf/Cfa/Instrs.antt =====
-- Each call frame instruction that fits is carried: written by src/dwarf_instr.c and read back by
-- src/fderead.c.
use kanana.Base.{
  ℕ, ◌^◌, ◌%◌, ◌<◌, ◌≡◌, refl, arith, some, List, [], ◌∷◌, ◌++◌, true, false, ltb, All-append,
}
use kanana.Base.Memory.{IsByte}
use kanana.Leb.Words.{le_bytes, leb128_to_uint, leb128_to_uword}
use kanana.Leb.Words.Laws.{le_value-le_bytes, le_bytes-IsByte, length-le_bytes}
use kanana.Leb.Words.Uleb.{Operand, uint_to_leb128-small}
use kanana.Dwarf.Op.{OpCodes}
use kanana.Dwarf.Register.{basic_reg, encode_reg_as_leb128, read_reg_from_leb128}
use kanana.Dwarf.Expr.{ExprInstr, parse_form_block}
use kanana.Dwarf.Cfa.{
  CfaCodes, raw, raw_bytes, reg_instruction_to_raw, instruction_bytes, reg_only, reg_word,
  reg_block, raw_offset, location, offset, restore, undefined, register, def_cfa, def_cfa_register,
  def_cfa_offset, def_cfa_expression, expression, val_expression, gnu_args_size, advance_loc,
  advance_loc1, advance_loc4, CfaOp, remember_state, restore_state,
}
use kanana.Dwarf.Cfa.Parse.{
  blank, parse_case, parse_low, parse_high, parse_reg, parse_number, parse_reg_number,
  parse_registers, parse_location,
}
use kanana.Dwarf.Cfa.Carried.{Carried, low-Carried, high-Carried, Operand-map, Operand-then}
use kanana.Dwarf.Expr.Reads.{read_bytes-le_bytes}
use kanana.Dwarf.Cfa.Frame.{
  FrameInstr, advance, advance_one, advance_four, offset_at, in_register, cfa_at, cfa_register,
  cfa_offset, args_size, undefined_reg, restored, remember, recall, cfa_expression, reg_expression,
  reg_val_expression, reg_instruction, with_low, Fits, encode_reg-Operand, encode_word-Operand,
  int_to_leb128-Operand, encode_block-Operand,
}

module _ (codes : CfaCodes) (ops : OpCodes) where
  in_register-Carried :
      (r r' : ℕ)
      → Fits codes ops (in_register r r')
      → Carried codes ops (reg_instruction (in_register r r'))
  unfolding reg_instruction_to_raw instruction_bytes parse_case parse_low parse_registers
  in_register-Carried r r' (lawful, h, h') =
      let (ys, enc, read) = encode_reg-Operand codes ops r h in
      let (ys', enc', read') = encode_reg-Operand codes ops r' h' in
      low-Carried codes ops register _ (raw_bytes register ys ys') (ys ++ ys') lawful
        (rw (enc, enc') refl) refl
        (Operand-map (parse_registers register) some (ys ++ ys') _ (
          Operand-then read_reg_from_leb128 read_reg_from_leb128
            (λ reg reg'. record (blank register) { arg1_reg = reg; arg2_reg = reg' }) ys ys' _ _
            read read'))

  cfa_register-Carried :
      (r : ℕ)
      → Fits codes ops (cfa_register r)
      → Carried codes ops (reg_instruction (cfa_register r))
  unfolding reg_instruction_to_raw reg_only instruction_bytes parse_case parse_low parse_reg
  cfa_register-Carried r (lawful, h) =
      let (ys, enc, read) = encode_reg-Operand codes ops r h in
      low-Carried codes ops def_cfa_register _ (raw_bytes def_cfa_register ys []) ys lawful
        (rw enc refl) refl
        (Operand-map (parse_reg def_cfa_register) some ys _ (
          Operand-map read_reg_from_leb128
            (λ reg. record (blank def_cfa_register) { arg1_reg = reg }) ys _ read))

  undefined_reg-Carried :
      (r : ℕ)
      → Fits codes ops (undefined_reg r)
      → Carried codes ops (reg_instruction (undefined_reg r))
  unfolding reg_instruction_to_raw reg_only instruction_bytes parse_case parse_low parse_reg
  undefined_reg-Carried r (lawful, h) =
      let (ys, enc, read) = encode_reg-Operand codes ops r h in
      low-Carried codes ops undefined _ (raw_bytes undefined ys []) ys lawful (rw enc refl) refl (
        Operand-map (parse_reg undefined) some ys _ (
          Operand-map read_reg_from_leb128 (λ reg. record (blank undefined) { arg1_reg = reg }) ys _
            read))

  cfa_offset-Carried :
      (n : ℕ) → Fits codes ops (cfa_offset n) → Carried codes ops (reg_instruction (cfa_offset n))
  unfolding reg_instruction_to_raw instruction_bytes parse_case parse_low parse_number
  cfa_offset-Carried n (lawful, h) =
      let (ys, enc, read) = encode_word-Operand codes ops n h in
      low-Carried codes ops def_cfa_offset _ (raw_bytes def_cfa_offset ys []) ys lawful
        (rw enc refl) refl
        (Operand-map (parse_number leb128_to_uint def_cfa_offset) some ys _ (
          Operand-map leb128_to_uint (λ word. record (blank def_cfa_offset) { arg1 = word }) ys _
            read))

  args_size-Carried :
      (n : ℕ) → Fits codes ops (args_size n) → Carried codes ops (reg_instruction (args_size n))
  unfolding reg_instruction_to_raw instruction_bytes parse_case parse_low parse_number
  args_size-Carried n (lawful, h) =
      let (ys, enc, read) = encode_word-Operand codes ops n h in
      low-Carried codes ops gnu_args_size _ (raw_bytes gnu_args_size ys []) ys lawful (rw enc refl)
        refl
        (Operand-map (parse_number leb128_to_uint gnu_args_size) some ys _ (
          Operand-map leb128_to_uint (λ word. record (blank gnu_args_size) { arg1 = word }) ys _
            read))

  cfa_at-Carried :
      (r n : ℕ) → Fits codes ops (cfa_at r n) → Carried codes ops (reg_instruction (cfa_at r n))
  unfolding reg_instruction_to_raw reg_word instruction_bytes parse_case parse_low parse_reg_number
  cfa_at-Carried r n (lawful, h, h') =
      let (ys, enc, read) = encode_reg-Operand codes ops r h in
      let (ys', enc', read') = encode_word-Operand codes ops n h' in
      low-Carried codes ops def_cfa _ (raw_bytes def_cfa ys ys') (ys ++ ys') lawful
        (rw (enc, enc') refl) refl
        (Operand-map (parse_reg_number leb128_to_uint def_cfa) some (ys ++ ys') _ (
          Operand-then read_reg_from_leb128 leb128_to_uint
            (λ reg word. record (blank def_cfa) { arg1_reg = reg; arg2 = word }) ys ys' _ _ read
            read'))

  cfa_expression-Carried :
      (is : List ExprInstr)
      → Fits codes ops (cfa_expression is)
      → Carried codes ops (reg_instruction (cfa_expression is))
  unfolding reg_instruction_to_raw instruction_bytes parse_case parse_low
  cfa_expression-Carried is (lawful, short) =
      let (ys, enc, read) = encode_block-Operand codes ops is short in
      low-Carried codes ops def_cfa_expression _ (raw_bytes def_cfa_expression ys []) ys lawful
        (rw enc refl) refl
        (Operand-map (parse_low ops def_cfa_expression) some ys _ (
          Operand-map (parse_form_block ops) (λ is. record (blank def_cfa_expression) { expr = is })
            ys _ read))

  reg_expression-Carried :
      (r : ℕ) (is : List ExprInstr)
      → Fits codes ops (reg_expression r is)
      → Carried codes ops (reg_instruction (reg_expression r is))
  unfolding reg_instruction_to_raw reg_block instruction_bytes parse_case parse_low
  reg_expression-Carried r is (lawful, h, short) =
      let (ys, enc, read) = encode_reg-Operand codes ops r h in
      let (ys', enc', read') = encode_block-Operand codes ops is short in
      low-Carried codes ops expression _ (raw_bytes expression ys ys') (ys ++ ys') lawful
        (rw (enc, enc') refl) refl
        (Operand-map (parse_low ops expression) some (ys ++ ys') _ (
          Operand-then read_reg_from_leb128 (parse_form_block ops)
            (λ reg is. record (blank expression) { arg1_reg = reg; expr = is }) ys ys' _ _ read
            read'))

  reg_val_expression-Carried :
      (r : ℕ) (is : List ExprInstr)
      → Fits codes ops (reg_val_expression r is)
      → Carried codes ops (reg_instruction (reg_val_expression r is))
  unfolding reg_instruction_to_raw reg_block instruction_bytes parse_case parse_low
  reg_val_expression-Carried r is (lawful, h, short) =
      let (ys, enc, read) = encode_reg-Operand codes ops r h in
      let (ys', enc', read') = encode_block-Operand codes ops is short in
      low-Carried codes ops val_expression _ (raw_bytes val_expression ys ys') (ys ++ ys') lawful
        (rw (enc, enc') refl) refl
        (Operand-map (parse_low ops val_expression) some (ys ++ ys') _ (
          Operand-then read_reg_from_leb128 (parse_form_block ops)
            (λ reg is. record (blank val_expression) { arg1_reg = reg; expr = is }) ys ys' _ _ read
            read'))

  location-Operand :
      (size n : ℕ) (o : CfaOp)
      → n < 256 ^ size
      → Operand (parse_location size size o) (le_bytes size n) (record (blank o) { arg1 = n })
  unfolding parse_location
  location-Operand size n o h rest hr =
      let value = le_value-le_bytes size n h in
      (
        All-append IsByte (le_bytes size n) rest (le_bytes-IsByte size n) hr,
        rw (read_bytes-le_bytes size n rest, value, length-le_bytes size n) refl,
      )

  advance_one-Carried :
      (n : ℕ) → Fits codes ops (advance_one n) → Carried codes ops (reg_instruction (advance_one n))
  unfolding reg_instruction_to_raw instruction_bytes location parse_case parse_low
  advance_one-Carried n (lawful, h) =
      let small : ltb n (256 ^ 1) ≡ true = ground arith in
      low-Carried codes ops advance_loc1 _ (record (raw advance_loc1) { arg1 = n }) (le_bytes 1 n)
        lawful refl (rw small refl)
        (Operand-map (parse_low ops advance_loc1) some (le_bytes 1 n) _
          (location-Operand 1 n advance_loc1 (omega (arith, h))))

  advance_four-Carried :
      (n : ℕ)
      → Fits codes ops (advance_four n)
      → Carried codes ops (reg_instruction (advance_four n))
  unfolding reg_instruction_to_raw instruction_bytes location parse_case parse_low
  advance_four-Carried n (lawful, h) =
      let small : ltb n (256 ^ 4) ≡ true = ground arith in
      low-Carried codes ops advance_loc4 _ (record (raw advance_loc4) { arg1 = n }) (le_bytes 4 n)
        lawful refl (rw small refl)
        (Operand-map (parse_low ops advance_loc4) some (le_bytes 4 n) _
          (location-Operand 4 n advance_loc4 (omega (arith, h))))

  advance-Carried :
      (n : ℕ) → Fits codes ops (advance n) → Carried codes ops (reg_instruction (advance n))
  unfolding reg_instruction_to_raw instruction_bytes parse_high
  advance-Carried n (lawful, h) =
      let small : ltb 0xc0 n ≡ false = ground arith in
      high-Carried codes ops advance_loc n _ (record (raw advance_loc) { arg1 = n }) [] lawful h
        refl (rw small refl) (λ rest hr. (hr, refl))

  restored-Carried :
      (r : ℕ) → Fits codes ops (restored r) → Carried codes ops (reg_instruction (restored r))
  unfolding reg_instruction_to_raw instruction_bytes parse_high
  restored-Carried r (lawful, h) =
      high-Carried codes ops restore r _ (record (raw restore) { arg1 = r }) [] lawful h refl refl
        (λ rest hr. (hr, refl))

  encode_reg-small : (r : ℕ) → r < 64 → encode_reg_as_leb128 (basic_reg r) ≡ some (r ∷ [])
  unfolding encode_reg_as_leb128
  encode_reg-small r h = uint_to_leb128-small r (omega arith)

  offset_at-Carried :
      (r n : ℕ)
      → Fits codes ops (offset_at r n)
      → Carried codes ops (reg_instruction (offset_at r n))
  unfolding reg_instruction_to_raw raw_offset instruction_bytes parse_high
  offset_at-Carried r n (lawful, h, h') =
      let (ys, enc, read) = int_to_leb128-Operand codes ops n h' in
      let int : n % 2 ^ 32 ≡ n = omega (arith, h') in
      let index = encode_reg-small r h in
      let small : ltb r 128 ≡ true = ground arith in
      high-Carried codes ops offset r _
        (record (raw_bytes offset (r ∷ []) ys) { arg1 = r; arg2 = n }) ys lawful h
        (rw (index, int, enc) refl) (rw small refl)
        (Operand-map leb128_to_uword (λ word. record (with_low offset r) { arg2 = word }) ys n read)

  remember-Carried : Fits codes ops remember → Carried codes ops (reg_instruction remember)
  unfolding reg_instruction_to_raw instruction_bytes parse_case parse_low
  remember-Carried lawful =
      low-Carried codes ops remember_state _ (raw remember_state) [] lawful refl refl
        (λ rest hr. (hr, refl))

  recall-Carried : Fits codes ops recall → Carried codes ops (reg_instruction recall)
  unfolding reg_instruction_to_raw instruction_bytes parse_case parse_low
  recall-Carried lawful =
      low-Carried codes ops restore_state _ (raw restore_state) [] lawful refl refl
        (λ rest hr. (hr, refl))

  pub Fits-Carried : (f : FrameInstr) → Fits codes ops f → Carried codes ops (reg_instruction f)
  Fits-Carried (advance n) h = advance-Carried n h
  Fits-Carried (advance_one n) h = advance_one-Carried n h
  Fits-Carried (advance_four n) h = advance_four-Carried n h
  Fits-Carried (offset_at r n) h = offset_at-Carried r n h
  Fits-Carried (in_register r r') h = in_register-Carried r r' h
  Fits-Carried (cfa_at r n) h = cfa_at-Carried r n h
  Fits-Carried (cfa_register r) h = cfa_register-Carried r h
  Fits-Carried (cfa_offset n) h = cfa_offset-Carried n h
  Fits-Carried (args_size n) h = args_size-Carried n h
  Fits-Carried (undefined_reg r) h = undefined_reg-Carried r h
  Fits-Carried (restored r) h = restored-Carried r h
  Fits-Carried remember h = remember-Carried h
  Fits-Carried recall h = recall-Carried h
  Fits-Carried (cfa_expression is) h = cfa_expression-Carried is h
  Fits-Carried (reg_expression r is) h = reg_expression-Carried r is h
  Fits-Carried (reg_val_expression r is) h = reg_val_expression-Carried r is h
