-- ===== src/Dwarf/Expr/Measured.antt =====
-- `addToDwarfExpression` of src/dwarf_instr.c, on every opcode that `encodeDwarfExprInstr` supports.
use mathlib.Core.List.{append-nil}
use kanana.Base.{
  ℕ, ◌+◌, ◌%◌, ◌≡◌, refl, sym, ap, ◌∙◌, arith, Option, none, some, List, [], ◌∷◌, ◌++◌, Bool, true,
  false, length, length-append,
}
use kanana.Base.Memory.{◌>>=◌}
use kanana.Leb.{encode_as_leb128}
use kanana.Leb.Words.{le_bytes}
use kanana.Leb.Words.Laws.{le_bytes-IsByte, length-le_bytes}
use kanana.Leb.Trim.{encode_as_leb128-uleb}
use kanana.Leb.Total.{encode_as_leb128-signed_some}
use kanana.Util.GrowingBuffer.{
  GrowingBuffer, IsBuffer, zeroed, add_uleb_to_growing_buffer, add_sleb_to_growing_buffer,
  add_to_growing_buffer-append,
}
use kanana.Dwarf.Op.{
  OpCodes, Encoded, nothing, uleb, sleb, uleb_sleb, unsupported, fixed, encoded_as,
}
use kanana.Dwarf.Expr.{
  ExprInstr, encode_operand, encode_dwarf_expr_instr, encode_all, DwarfExpr,
  add_to_dwarf_expression,
}
use kanana.Dwarf.Expr.Operands.{Appends}
use kanana.Dwarf.Expr.RoundTrip.{Appends-then}

abbrev pub is_supported : Encoded → Bool
is_supported unsupported = false
is_supported _ = true

encoded :
    (word : ℕ) (signed : Bool)
    → (ys : List ℕ) × (encode_as_leb128 (le_bytes 8 word) signed ≡ some ys)
encoded word false = (
  _,
  encode_as_leb128-uleb (le_bytes 8 word) (le_bytes-IsByte 8 word)
      (omega (arith, length-le_bytes 8 word)),
)
encoded word true =
    let (ys, run, _) =
      encode_as_leb128-signed_some (le_bytes 8 word) (le_bytes-IsByte 8 word)
        (omega (arith, length-le_bytes 8 word)) in
    (ys, run)

add_uleb-Appends :
    (word : ℕ) → (ys : List ℕ) × Appends (λ buf. add_uleb_to_growing_buffer buf word) ys
unfolding add_uleb_to_growing_buffer
add_uleb-Appends word =
    let (ys, run) = encoded word false in
    (ys, λ buf h. rw run (add_to_growing_buffer-append buf ys h))

add_sleb-Appends :
    (word : ℕ) → (ys : List ℕ) × Appends (λ buf. add_sleb_to_growing_buffer buf word) ys
unfolding add_sleb_to_growing_buffer
add_sleb-Appends word =
    let (ys, run) = encoded word true in
    (ys, λ buf h. rw run (add_to_growing_buffer-append buf ys h))

operand-Appends :
    (o : Encoded) (i : ExprInstr)
    → is_supported o ≡ true
    → (ys : List ℕ) × Appends (encode_operand o i) ys
unfolding encode_operand
operand-Appends nothing i h = ([], λ buf hb. (buf, refl, sym (append-nil _), hb))
operand-Appends (fixed size) i h =
    (le_bytes size i.arg1, λ buf hb. add_to_growing_buffer-append buf (le_bytes size i.arg1) hb)
operand-Appends uleb i h = add_uleb-Appends i.arg1
operand-Appends sleb i h = add_sleb-Appends i.arg1
operand-Appends uleb_sleb i h =
    let (ys, one) = add_uleb-Appends i.arg1 in
    let (zs, two) = add_sleb-Appends i.arg2 in (ys ++ zs, Appends-then _ _ ys zs one two)
operand-Appends unsupported i h = absurd cc

module _ (codes : OpCodes) where
  instr-Appends :
      (i : ExprInstr)
      → is_supported (encoded_as i.type) ≡ true
      → (ys : List ℕ) × Appends (encode_dwarf_expr_instr codes i) ys
  unfolding encode_dwarf_expr_instr
  instr-Appends i h =
      let (ys, operand) = operand-Appends (encoded_as i.type) i h in
      let opcode = codes.code i.type % 256 ∷ [] in
      (
        opcode ++ ys,
        Appends-then _ _ opcode ys (λ buf hb. add_to_growing_buffer-append buf opcode hb) operand,
      )

  encode_all-append :
      (is : List ExprInstr) (i : ExprInstr) (buf : GrowingBuffer)
      → encode_all codes (is ++ i ∷ []) buf
        ≡ (encode_all codes is buf >>= encode_dwarf_expr_instr codes i)
  unfolding encode_all
  encode_all-append [] i buf = last (encode_dwarf_expr_instr codes i buf)
    where
      last : (o : Option GrowingBuffer) → (o >>= λ b. some b) ≡ o
      last none = refl
      last (some b) = refl
  encode_all-append (i' ∷ is) i buf =
      rest (encode_dwarf_expr_instr codes i' buf) λ b. encode_all-append is i b
    where
      rest :
          (o : Option GrowingBuffer)
          → ((b : GrowingBuffer)
              → encode_all codes (is ++ i ∷ []) b
                ≡ (encode_all codes is b >>= encode_dwarf_expr_instr codes i))
          → (o >>= encode_all codes (is ++ i ∷ []))
            ≡ ((o >>= encode_all codes is) >>= encode_dwarf_expr_instr codes i)
      rest none h = refl
      rest (some b) h = h b

  -- The length in bytes that an expression keeps is that of its encoding.
  abbrev pub IsMeasured : DwarfExpr → Type 0
  IsMeasured e =
      (buf : GrowingBuffer) × (encode_all codes e.instructions zeroed ≡ some buf)
      × (length buf.bytes ≡ e.byte_length)
      × IsBuffer buf

  -- `addToDwarfExpression`, on an expression whose length in bytes is that of its encoding, adds any instruction
  -- whose opcode `encodeDwarfExprInstr` supports, with any operands, at the end, under the index of the end, and
  -- keeps the length in bytes that of the whole expression's encoding.
  pub add_to_dwarf_expression-IsMeasured :
      (e : DwarfExpr) (i : ExprInstr)
      → is_supported (encoded_as i.type) ≡ true
      → IsMeasured e
      → (e' : DwarfExpr) × (add_to_dwarf_expression codes e i ≡ some (length e.instructions, e'))
        × (e'.instructions ≡ e.instructions ++ i ∷ [])
        × IsMeasured e'
  unfolding add_to_dwarf_expression
  add_to_dwarf_expression-IsMeasured e i h (buf, enc, len, inside) =
      let (ys, appends) = instr-Appends i h in
      let (one, enc_one, bytes_one, _) = appends zeroed (omega arith) in
      let (new, enc_new, bytes_new, inside_new) = appends buf inside in
      let e' : DwarfExpr = record {
        instructions = e.instructions ++ i ∷ [];
        byte_length = e.byte_length + length one.bytes;
      } in
      let size : length new.bytes ≡ e.byte_length + length one.bytes =
        rw (bytes_new, bytes_one) (length-append buf.bytes ys ∙ ap (λ n. n + length ys) len) in
      (
        e',
        rw enc_one refl,
        refl,
        (new, encode_all-append e.instructions i zeroed ∙ rw enc enc_new, size, inside_new),
      )
