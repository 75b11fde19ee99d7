-- ===== src/Dwarf/Expr/Reads.antt =====
-- `parseDwarfExpression` of src/fderead.c on the bytes of one operand.
use kanana.Base.{
  ℕ, ◌%◌, ◌^◌, ◌<◌, ◌≡◌, refl, sym, ap, arith, some, List, [], ◌∷◌, ◌++◌, true, false, leb, length,
  drop, take, All, length-append,
}
use kanana.Base.Memory.{read_bytes, IsByte}
use kanana.Leb.Value.{le_value, uleb}
use kanana.Leb.Words.{le_bytes, sextend, decoded}
use kanana.Leb.Words.Laws.{length-le_bytes, le_value-le_bytes, decode-uleb}
use kanana.Dwarf.Op.{
  Parsed, none_read, u1, s1, u2, s2, u4, s4, u8, s8, uleb_read, sleb_read, unread,
}
use kanana.Dwarf.Expr.{parse_operand, parse_unsigned, parse_signed, parse_leb}
use kanana.Dwarf.Expr.Operands.{IsSignedWord, InRange, operand_bytes}

pub drop-append {ℓ} : {A : Type ℓ} (xs ys : List A) → drop (length xs) (xs ++ ys) ≡ ys
drop-append [] ys = refl
drop-append (x ∷ xs) ys = drop-append xs ys

take-append {ℓ} : {A : Type ℓ} (xs ys : List A) → take (length xs) (xs ++ ys) ≡ xs
take-append [] ys = refl
take-append (x ∷ xs) ys = ap (λ l. x ∷ l) (take-append xs ys)

pub read_bytes-le_bytes :
    (n v : ℕ) (rest : List ℕ) → read_bytes n (le_bytes n v ++ rest) ≡ some (le_bytes n v)
read_bytes-le_bytes n v rest =
    let len = length-le_bytes n v in
    let enough : leb n (length (le_bytes n v ++ rest)) ≡ true =
      ground (arith, len, length-append (le_bytes n v) rest) in
    rw enough (ap some (rw len at (take-append (le_bytes n v) rest)))

-- Sign extension of the low bytes of a word that stands for a small enough number.
sextend_one : (a : ℕ) → IsSignedWord 8 a → sextend (a % 256) 1 ≡ some a
unfolding sextend
sextend_one a h = ground arith

sextend_two : (a : ℕ) → IsSignedWord 16 a → sextend (a % 2 ^ 16) 2 ≡ some a
unfolding sextend
sextend_two a h = ground arith

sextend_four : (a : ℕ) → IsSignedWord 32 a → sextend (a % 2 ^ 32) 4 ≡ some a
unfolding sextend
sextend_four a h = ground arith

le_value_one : (a : ℕ) → le_value (le_bytes 1 a) ≡ a % 256
unfolding le_bytes le_value
le_value_one a = omega arith

le_value_two : (a : ℕ) → le_value (le_bytes 2 a) ≡ a % 2 ^ 16
unfolding le_bytes le_value
le_value_two a = omega arith

pub le_value_four : (a : ℕ) → le_value (le_bytes 4 a) ≡ a % 2 ^ 32
unfolding le_bytes le_value
le_value_four a = omega arith

parse_unsigned-le_bytes :
    (n a : ℕ) (rest : List ℕ) → a < 256 ^ n → parse_unsigned n (le_bytes n a ++ rest) ≡ some (a, n)
unfolding parse_unsigned
parse_unsigned-le_bytes n a rest h =
    rw (read_bytes-le_bytes n a rest) (ap (λ v. some (v, n)) (le_value-le_bytes n a h))

parse_signed-le_bytes :
    (n a : ℕ) (rest : List ℕ)
    → sextend (le_value (le_bytes n a)) n ≡ some a
    → parse_signed n (le_bytes n a ++ rest) ≡ some (a, n)
unfolding parse_signed
parse_signed-le_bytes n a rest h = rw (read_bytes-le_bytes n a rest, h) refl

parse_leb-uleb :
    (a : ℕ) (rest : List ℕ)
    → a < 2 ^ 64
    → All IsByte rest
    → parse_leb false (uleb 10 a ++ rest) ≡ some (a, length (uleb 10 a))
unfolding parse_leb decoded
parse_leb-uleb a rest h hr =
    let (out, run, same, size, _) = decode-uleb 10 8 a rest (omega arith) h (omega arith) hr in
    rw (run, size) (ap (λ x. some (x, length (uleb 10 a))) same)

-- What stands behind the bytes of an operand does not matter.
pub parse_operand_lem :
    (p : Parsed) (a : ℕ) (rest : List ℕ)
    → InRange p a
    → All IsByte rest
    → parse_operand p (operand_bytes p a ++ rest) ≡ some (a, length (operand_bytes p a))
unfolding parse_operand operand_bytes
parse_operand_lem none_read a rest h hr = ap (λ x. some (x, 0)) (sym h)
parse_operand_lem u1 a rest h hr = rw (length-le_bytes 1 a) (parse_unsigned-le_bytes 1 a rest h)
parse_operand_lem u2 a rest h hr = rw (length-le_bytes 2 a) (parse_unsigned-le_bytes 2 a rest h)
parse_operand_lem u4 a rest h hr = rw (length-le_bytes 4 a) (parse_unsigned-le_bytes 4 a rest h)
parse_operand_lem u8 a rest h hr = rw (length-le_bytes 8 a) (parse_unsigned-le_bytes 8 a rest h)
parse_operand_lem s1 a rest h hr =
    rw (length-le_bytes 1 a)
      (parse_signed-le_bytes 1 a rest (rw (le_value_one a) (sextend_one a h)))
parse_operand_lem s2 a rest h hr =
    rw (length-le_bytes 2 a)
      (parse_signed-le_bytes 2 a rest (rw (le_value_two a) (sextend_two a h)))
parse_operand_lem s4 a rest h hr =
    rw (length-le_bytes 4 a)
      (parse_signed-le_bytes 4 a rest (rw (le_value_four a) (sextend_four a h)))
parse_operand_lem s8 a rest h hr =
    rw (length-le_bytes 8 a)
      (parse_signed-le_bytes 8 a rest (rw (le_value-le_bytes 8 a h) (unfold sextend in refl)))
parse_operand_lem uleb_read a rest h hr = parse_leb-uleb a rest h hr
parse_operand_lem sleb_read a rest h hr = absurd h
parse_operand_lem unread a rest h hr = absurd h
