-- ===== src/Dwarf/Expr/RoundTrip.antt =====
-- `parseDwarfExpression` of src/fderead.c on what src/dwarf_instr.c encodes.
use mathlib.Core.List.{append_assoc, append-nil}
use kanana.Base.{
  ℕ, zero, suc, ◌%◌, ◌^◌, ◌<◌, ◌≤◌, ◌≡◌, refl, sym, ap, ◌∙◌, arith, Option, some, List, [], ◌∷◌,
  ◌++◌, false, ◌==◌, length, drop, All, All-append, length-append,
}
use kanana.Base.Memory.{◌>>=◌, IsByte}
use kanana.Leb.Words.Laws.{le_bytes-IsByte}
use kanana.Leb.RoundTrip.{uleb-IsByte}
use kanana.Util.GrowingBuffer.{GrowingBuffer, add_to_growing_buffer-append}
use kanana.Dwarf.Op.{
  ExprOp, OpCodes, LawfulAt, Parsed, none_read, u1, s1, u2, s2, u4, s4, u8, s8, uleb_read,
  sleb_read, unread, parsed_as,
}
use kanana.Dwarf.Expr.{
  ExprInstr, expr_instr, encode_dwarf_expr_instr, encode_all, parse_operand, parse_loop, less,
}
use kanana.Dwarf.Expr.Operands.{InRange, operand_bytes, Appends, encode_operand_lem}
use kanana.Dwarf.Expr.Reads.{drop-append, parse_operand_lem}

operand_bytes-IsByte :
    (p : Parsed) (a : ℕ) (rest : List ℕ)
    → InRange p a
    → All IsByte rest
    → All IsByte (operand_bytes p a ++ rest)
unfolding operand_bytes
operand_bytes-IsByte u1 a rest h hr = All-append IsByte _ rest (le_bytes-IsByte 1 a) hr
operand_bytes-IsByte s1 a rest h hr = All-append IsByte _ rest (le_bytes-IsByte 1 a) hr
operand_bytes-IsByte u2 a rest h hr = All-append IsByte _ rest (le_bytes-IsByte 2 a) hr
operand_bytes-IsByte s2 a rest h hr = All-append IsByte _ rest (le_bytes-IsByte 2 a) hr
operand_bytes-IsByte u4 a rest h hr = All-append IsByte _ rest (le_bytes-IsByte 4 a) hr
operand_bytes-IsByte s4 a rest h hr = All-append IsByte _ rest (le_bytes-IsByte 4 a) hr
operand_bytes-IsByte u8 a rest h hr = All-append IsByte _ rest (le_bytes-IsByte 8 a) hr
operand_bytes-IsByte s8 a rest h hr = All-append IsByte _ rest (le_bytes-IsByte 8 a) hr
operand_bytes-IsByte uleb_read a rest h hr = uleb-IsByte 10 a rest (omega arith) hr
operand_bytes-IsByte none_read a rest h hr = hr
operand_bytes-IsByte sleb_read a rest h hr = hr
operand_bytes-IsByte unread a rest h hr = hr

-- Operations on a buffer, one after the other.
pub Appends-then :
    (f g : GrowingBuffer → Option GrowingBuffer) (xs ys : List ℕ)
    → Appends f xs
    → Appends g ys
    → Appends (λ buf. f buf >>= g) (xs ++ ys)
Appends-then f g xs ys hf hg buf h =
    let (buf', e, same, h') = hf buf h in
    let (buf'', e', same', h'') = hg buf' h' in
    (buf'', rw e e', rw (same', same) (append_assoc buf.bytes xs ys), h'')

module _ (codes : OpCodes) where
  -- An instruction that both files handle, with an operand that fits.
  abbrev pub Survives : ExprInstr → Type 0
  Survives i = LawfulAt codes i.type × InRange (parsed_as i.type) i.arg1 × (i.arg2 ≡ 0)

  abbrev pub instr_bytes : ExprInstr → List ℕ
  instr_bytes i = codes.code i.type ∷ operand_bytes (parsed_as i.type) i.arg1

  abbrev pub all_bytes : List ExprInstr → List ℕ
  all_bytes [] = []
  all_bytes (i ∷ is) = instr_bytes i ++ all_bytes is

  pub encode_dwarf_expr_instr-Appends :
      (i : ExprInstr) → Survives i → Appends (encode_dwarf_expr_instr codes i) (instr_bytes i)
  unfolding encode_dwarf_expr_instr
  encode_dwarf_expr_instr-Appends i (lawful, fits, _) =
      let byte : codes.code i.type % 256 ≡ codes.code i.type = omega (arith, lawful.is_byte) in
      rw byte (
        Appends-then _ _ (codes.code i.type ∷ []) _
          (λ buf. add_to_growing_buffer-append buf (codes.code i.type ∷ []))
          (encode_operand_lem i.type i.arg1 i.arg2 fits))

  encode_all-step :
      (i : ExprInstr) (is : List ExprInstr)
      → Survives i
      → Appends (encode_all codes is) (all_bytes is)
      → Appends (encode_all codes (i ∷ is)) (all_bytes (i ∷ is))
  encode_all-step i is hi more =
      unfold encode_all in
      Appends-then _ _ (instr_bytes i) _ (encode_dwarf_expr_instr-Appends i hi) more

  pub encode_all-Appends :
      (is : List ExprInstr) → All Survives is → Appends (encode_all codes is) (all_bytes is)
  encode_all-Appends [] _ buf h = (buf, unfold encode_all in refl, sym (append-nil _), h)
  encode_all-Appends (i ∷ is) (hi, his) buf h =
      encode_all-step i is hi (encode_all-Appends is his) buf h

  pub all_bytes-IsByte :
      (is : List ExprInstr) (rest : List ℕ)
      → All Survives is
      → All IsByte rest
      → All IsByte (all_bytes is ++ rest)
  all_bytes-IsByte [] rest _ hr = hr
  all_bytes-IsByte (i ∷ is) rest ((lawful, fits, _), his) hr = (
    lawful.is_byte,
    rw (append_assoc (operand_bytes (parsed_as i.type) i.arg1) (all_bytes is) rest)
        (operand_bytes-IsByte (parsed_as i.type) i.arg1 _ fits (all_bytes-IsByte is rest his hr)),
  )

  -- One round of the loop, on an instruction whose operands are read as `word`.
  parse_loop_lem :
      (slots b len word read : ℕ) (o : ExprOp) (rest : List ℕ) (is : List ExprInstr)
      → 0 < len
      → codes.op b ≡ some o
      → parse_operand (parsed_as o) rest ≡ some (word, read)
      → parse_loop codes slots (drop read rest) (less len read) ≡ some is
      → parse_loop codes (suc slots) (b ∷ rest) len ≡ some (expr_instr o word 0 ∷ is)
  unfolding parse_loop
  parse_loop_lem slots b len word read o rest is h case parsed more =
      let left : (len == 0) ≡ false = ground arith in rw (left, case, parsed, more) refl

  pub parse_loop-all_bytes :
      (is : List ExprInstr) (slots : ℕ) (rest : List ℕ)
      → All Survives is
      → All IsByte rest
      → length (all_bytes is) ≤ slots
      → length (all_bytes is) < 2 ^ 32
      → parse_loop codes slots (all_bytes is ++ rest) (length (all_bytes is)) ≡ some is
  parse_loop-all_bytes [] zero rest _ hr hs hl = unfold parse_loop in refl
  parse_loop-all_bytes [] (suc slots) [] _ hr hs hl = unfold parse_loop in refl
  parse_loop-all_bytes [] (suc slots) (x ∷ rest) _ hr hs hl = unfold parse_loop in refl
  parse_loop-all_bytes (i ∷ is) zero rest _ hr hs hl = absurd (omega arith)
  parse_loop-all_bytes (i ∷ is) (suc slots) rest (hi, his) hr hs hl =
      let (lawful, fits, one) = hi in
      let bs = operand_bytes (parsed_as i.type) i.arg1 in
      let after = all_bytes is ++ rest in
      let size = length-append bs (all_bytes is) in
      let left : less (suc (length (bs ++ all_bytes is))) (length bs) ≡ length (all_bytes is) =
        omega (arith, size, hl) in
      let same : expr_instr i.type i.arg1 0 ≡ i = ap (λ n. record i { arg2 = n }) (sym one) in
      rw (append_assoc bs (all_bytes is) rest) (
        parse_loop_lem slots _ _ i.arg1 (length bs) i.type (bs ++ after) is (omega arith)
          lawful.case_of
          (parse_operand_lem (parsed_as i.type) i.arg1 after fits (all_bytes-IsByte is rest his hr))
          (rw (left, drop-append bs after)
            (parse_loop-all_bytes is slots rest his hr (omega (arith, size)) (omega (arith, size))))
        ∙ ap (λ j. some (j ∷ is)) same)
