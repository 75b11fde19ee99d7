-- ===== src/Dwarf/Expr/Signed.antt =====
-- How `parseDwarfExpression` of src/fderead.c reads a signed LEB128 operand, beside `leb128ToSWord`.
use kanana.Base.{
  ℕ, zero, suc, ◌+◌, ◌-◌, ◌^◌, ◌<◌, ◌≡◌, inl, inr, refl, arith, Option, none, some, List, ◌∷◌, Bool,
  true, false, ◌==◌, ◌&&◌, ==_iff, Bool-cases,
}
use kanana.Leb.{decode_leb128, count_septets, decode_loop, decode_step, sign_extend}
use kanana.Leb.Value.{le_value}
use kanana.Leb.Words.{decoded, sextend, leb128_to_sword}
use kanana.Dwarf.Op.{sleb_read}
use kanana.Dwarf.Expr.{parse_operand, parse_leb}

-- Whether a word was read, and from how many bytes.
unfoldable reads : Option (ℕ × ℕ) → ℕ → ℕ → Bool
reads none w n = false
reads (some (v, m)) w n = v == w && m == n

reads-some : (o : Option (ℕ × ℕ)) (w n : ℕ) → reads o w n ≡ true → o ≡ some (w, n)
unfolding reads
reads-some none w n e = absurd (ground arith)
reads-some (some (v, m)) w n e =
    let same : v ≡ w = ground arith in let same' : m ≡ n = ground arith in rw (same, same') refl

unfoldable everywhere : (ℕ → Bool) → ℕ → Bool
everywhere p zero = true
everywhere p (suc top) = everywhere p top && p top

everywhere_lem :
    (bound : ℕ) (p : ℕ → Bool) → everywhere p bound ≡ true → (n : ℕ) → n < bound → p n ≡ true
unfolding everywhere
everywhere_lem zero p e n h = absurd (omega arith)
everywhere_lem (suc top) p e n h = elim (Bool-cases (n == top)) [
  | inl same ↦ rw ((==_iff n top).0 same) (ground arith)
  | inr other ↦ everywhere_lem top p (ground arith) n (ground arith)
]

operand_table :
    (rest : List ℕ)
    → everywhere (λ v. reads (parse_operand sleb_read ((64 + v) ∷ rest)) (192 + v) 1) 64 ≡ true
unfolding everywhere reads parse_operand parse_leb decode_leb128 count_septets decode_loop
    decode_step sign_extend decoded le_value
operand_table rest = refl

sword_table :
    (rest : List ℕ)
    → everywhere (λ v. reads (leb128_to_sword ((64 + v) ∷ rest)) (2 ^ 64 - 64 + v) 1) 64 ≡ true
unfolding everywhere reads leb128_to_sword sextend decode_leb128 count_septets decode_loop
    decode_step sign_extend decoded le_value
sword_table rest = refl

-- A negative number of one septet, v - 64 with v below 64, is read by `leb128ToSWord` as its word in
-- two's complement; as the operand of an expression it is read as the positive word 192 + v, the byte
-- that `decodeLEB128` returns without the sign above it. Both read one byte, whatever bytes follow.
pub parse_operand-leb128_to_sword :
    (v : ℕ) (rest : List ℕ)
    → v < 64
    → (leb128_to_sword ((64 + v) ∷ rest) ≡ some (2 ^ 64 - 64 + v, 1))
      × (parse_operand sleb_read ((64 + v) ∷ rest) ≡ some (192 + v, 1))
parse_operand-leb128_to_sword v rest h = (
  reads-some _ _ 1 (everywhere_lem 64 _ (sword_table rest) v h),
  reads-some _ _ 1 (everywhere_lem 64 _ (operand_table rest) v h),
)
