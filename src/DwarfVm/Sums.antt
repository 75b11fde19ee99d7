-- ===== src/DwarfVm/Sums.antt =====
-- Expressions that src/dwarf_instr.c encodes, evaluated by src/dwarfvm.c.
use mathlib.Core.List.{append-nil}
use kanana.Base.{
  ℕ, zero, suc, ◌+◌, ◌%◌, ◌^◌, ◌≡◌, ◌<◌, ◌≤◌, refl, sym, ◌∙◌, arith, map, some, List, [], ◌∷◌, ◌++◌,
  true, ◌==◌, length, length-append, All, ==_iff,
}
use kanana.Base.Memory.{IsByte}
use kanana.Leb.Value.{uleb}
use kanana.Leb.Words.{leb128_to_uword}
use kanana.Leb.Words.Laws.{encode-le_bytes, leb128_to_uword-encode}
use kanana.Dwarf.Op.{ExprOp, OpCodes, LawfulAt, parsed_as}
use kanana.Dwarf.Expr.{ExprInstr, expr_instr, encode_all}
use kanana.Dwarf.Expr.Operands.{operand_bytes}
use kanana.Dwarf.Expr.Reads.{drop-append}
use kanana.Dwarf.Expr.RoundTrip.{Survives, all_bytes, all_bytes-IsByte, encode_all-Appends}
use kanana.Util.GrowingBuffer.{GrowingBuffer, zeroed}
use kanana.DwarfVm.Evaluate.{
  copied, turned, pop_dwvm_stack, push_dwvm_stack, evaluate_loop, evaluate_dwarf_expression,
}

abbrev pub plus_uconst_of : ℕ → ExprInstr
plus_uconst_of value = expr_instr ExprOp.plus_uconst value 0

abbrev sum_on : ℕ → List ℕ → ℕ
sum_on start [] = start
sum_on start (v ∷ vs) = sum_on ((start + v) % 2 ^ 64) vs

abbrev pub total : List ℕ → ℕ
total [] = 0
total (v ∷ vs) = v + total vs

sum_on-total :
    (vs : List ℕ) (start : ℕ) → start < 2 ^ 64 → sum_on start vs ≡ (start + total vs) % 2 ^ 64
sum_on-total [] start h = omega (arith, h)
sum_on-total (v ∷ vs) start h = omega (arith, sum_on-total vs ((start + v) % 2 ^ 64) (omega arith))

leb128_to_uword-uleb :
    (v : ℕ) (rest : List ℕ)
    → v < 2 ^ 64
    → All IsByte rest
    → leb128_to_uword (uleb 10 v ++ rest) ≡ some (v, length (uleb 10 v))
leb128_to_uword-uleb v rest h hr =
    let (written, enc', read) = leb128_to_uword-encode v rest h hr in
    let (enc, _) = encode-le_bytes 8 v (omega arith) h in
    let same : written ≡ uleb 10 v = some-injective (sym enc' ∙ enc) in rw same at read
  where
    some-injective : {xs ys : List ℕ} → some xs ≡ some ys → xs ≡ ys
    some-injective e = cc

module _ (codes : OpCodes) (lawful : LawfulAt codes ExprOp.plus_uconst) where
  fits : (vs : List ℕ) → All (λ v. v < 2 ^ 64) vs → All (Survives codes) (map plus_uconst_of vs)
  unfolding parsed_as
  fits [] _ = tt
  fits (v ∷ vs) (h, hs) = ((lawful, h, refl), fits vs hs)

  evaluate_loop-sum :
      (vs : List ℕ) (rounds start : ℕ)
      → All (λ v. v < 2 ^ 64) vs
      → length (all_bytes codes (map plus_uconst_of vs)) ≤ rounds
      → evaluate_loop codes rounds 11 (all_bytes codes (map plus_uconst_of vs)) (start ∷ [])
        ≡ some (sum_on start vs ∷ [])
  unfolding evaluate_loop pop_dwvm_stack push_dwvm_stack operand_bytes parsed_as
  evaluate_loop-sum [] rounds start _ enough = refl
  evaluate_loop-sum (v ∷ vs) zero start _ enough = absurd (omega (arith, enough))
  evaluate_loop-sum (v ∷ vs) (suc rounds) start (h, hs) enough =
      let after = all_bytes codes (map plus_uconst_of vs) in
      let itself : (codes.code ExprOp.plus_uconst == codes.code ExprOp.plus_uconst) ≡ true =
        (==_iff _ _).1 refl in
      let bytes : All IsByte after =
        rw (append-nil after) at
          (all_bytes-IsByte codes (map plus_uconst_of vs) [] (fits vs hs) tt) in
      let few : length after ≤ rounds = omega (arith, enough, length-append (uleb 10 v) after) in
      rw (itself, leb128_to_uword-uleb v after h bytes, drop-append (uleb 10 v) after)
        (evaluate_loop-sum vs rounds ((start + v) % 2 ^ 64) hs few)

  -- Instructions DW_OP_plus_uconst with any words as operands, encoded one after the other as in an expression, are
  -- evaluated by `evaluateDwarfExpression` to their sum, as a word, with the word that the stack starts with, of which
  -- only the lowest byte is counted.
  pub evaluate_dwarf_expression-encode :
      (vs : List ℕ) (word : ℕ)
      → All (λ v. v < 2 ^ 64) vs
      → (buf : GrowingBuffer) × (encode_all codes (map plus_uconst_of vs) zeroed ≡ some buf)
        × (evaluate_dwarf_expression codes buf.bytes (word ∷ [])
            ≡ some ((word % 256 + total vs) % 2 ^ 64))
  unfolding evaluate_dwarf_expression copied turned pop_dwvm_stack
  evaluate_dwarf_expression-encode vs word h =
      let (buf, enc, same, _) =
        encode_all-Appends codes (map plus_uconst_of vs) (fits vs h) zeroed (omega arith) in
      let all = all_bytes codes (map plus_uconst_of vs) in
      (
        buf,
        enc,
        rw
            (
              same,
              evaluate_loop-sum vs (length all) (word % 256) h (omega arith),
              sum_on-total vs (word % 256) (omega arith),
            )
            refl,
      )
