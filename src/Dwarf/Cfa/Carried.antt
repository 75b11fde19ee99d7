-- ===== src/Dwarf/Cfa/Carried.antt =====
-- Call frame instructions that src/dwarf_instr.c writes and src/fderead.c reads back.
use mathlib.Core.List.{append_assoc}
use kanana.Base.{
  ℕ, ◌+◌, ◌*◌, ◌/◌, ◌%◌, ◌<◌, ◌≡◌, refl, sym, ap, ◌∙◌, arith, bit_or, Option, none, some, List, ◌∷◌,
  ◌++◌, drop, length-append,
}
use kanana.Base.Memory.{◌>>=◌}
use kanana.Base.Bits.{agree₂, grid, table}
use kanana.Leb.Words.Uleb.{Operand}
use kanana.Dwarf.Op.{OpCodes}
use kanana.Dwarf.Expr.Reads.{drop-append}
use kanana.Dwarf.Cfa.{
  CfaOp, CfaCodes, RegInstruction, RawInstruction, reg_instruction_to_raw, instruction_bytes,
}
use kanana.Dwarf.Cfa.Parse.{parse_one, parse_byte, parse_case, parse_high}

module _ {ℓ κ} {A : Type ℓ} {B : Type κ} where
  pub Operand-map :
      (f : List ℕ → Option (A × ℕ)) (h : A → B) (xs : List ℕ) (a : A)
      → Operand f xs a
      → Operand (λ rest. f rest >>= λ (x, n). some (h x, n)) xs (h a)
  Operand-map f h xs a hf rest hr = let (bytes, read) = hf rest hr in (bytes, rw read refl)

  pub Operand-then {μ} :
      {C : Type μ} (f : List ℕ → Option (A × ℕ)) (g : List ℕ → Option (B × ℕ)) (h : A → B → C)
      (xs ys : List ℕ) (a : A) (b : B)
      → Operand f xs a
      → Operand g ys b
      → Operand
          (λ rest. f rest >>= λ (x, n). g (drop n rest) >>= λ (y, m). some (h x y, n + m))
          (xs ++ ys)
          (h a b)
  Operand-then f g h xs ys a b hf hg rest hr =
      let (bytes, read) = hg rest hr in
      let (bytes', read') = hf (ys ++ rest) bytes in
      rw (append_assoc xs ys rest) (
        bytes',
        rw (read', drop-append xs (ys ++ rest), read)
            (ap (λ n. some (h a b, n)) (sym (length-append xs ys))),
      )

or_low : (h n : ℕ) → h < 4 → n < 64 → bit_or (64 * h) n ≡ 64 * h + n
unfolding grid table
or_low = agree₂ 4 64 (λ h n. bit_or (64 * h) n) (λ h n. 64 * h + n) refl

module _ (codes : CfaCodes) (ops : OpCodes) where
  -- An opcode that stands in the low six bits of its byte.
  abbrev pub LawfulLow : CfaOp → Type 0
  LawfulLow o = (codes.code o < 64) × (codes.high 0 ≡ none) × (codes.low (codes.code o) ≡ some o)

  -- An opcode that stands in the two high bits.
  abbrev pub LawfulHigh : CfaOp → Type 0
  LawfulHigh o = (h : ℕ) × (h < 4) × (codes.code o ≡ 64 * h) × (codes.high (64 * h) ≡ some o)

  -- The instruction is written as some bytes, which are read back whatever bytes follow.
  abbrev pub Carried : RegInstruction → Type 0
  Carried i =
      (r : RawInstruction) × (b : ℕ) × (ys : List ℕ) × (reg_instruction_to_raw ops i i.type
        ≡ some r)
      × (instruction_bytes codes r r.opcode ≡ some (b ∷ ys))
      × (b < 256)
      × Operand (parse_one codes ops b) ys (some i)

  pub parse_one-low :
      (o : CfaOp) (rest : List ℕ)
      → LawfulLow o
      → parse_one codes ops (codes.code o) rest ≡ parse_case ops o rest
  unfolding parse_one parse_byte
  parse_one-low o rest (small, high, low) =
      let top : codes.code o / 64 * 64 ≡ 0 = omega (arith, small) in
      let bottom : codes.code o % 64 ≡ codes.code o = omega (arith, small) in
      rw (top, high, bottom, low) refl

  parse_one-high :
      (o : CfaOp) (h n : ℕ) (rest : List ℕ)
      → codes.high (64 * h) ≡ some o
      → n < 64
      → parse_one codes ops (64 * h + n) rest ≡ (parse_high o n rest >>= λ (i, m). some (some i, m))
  unfolding parse_one parse_byte
  parse_one-high o h n rest high small =
      let top : (64 * h + n) / 64 * 64 ≡ 64 * h = omega arith in
      let bottom : (64 * h + n) % 64 ≡ n = omega arith in rw (top, high, bottom) refl

  pub low-Carried :
      (o : CfaOp) (i : RegInstruction) (r : RawInstruction) (ys : List ℕ)
      → LawfulLow o
      → reg_instruction_to_raw ops i i.type ≡ some r
      → instruction_bytes codes r r.opcode ≡ some (codes.code o % 256 ∷ ys)
      → Operand (parse_case ops o) ys (some i)
      → Carried i
  low-Carried o i r ys (small, high, low) hraw hbytes hread =
      let byte : codes.code o % 256 ≡ codes.code o = omega (arith, small) in
      (
        r,
        codes.code o,
        ys,
        hraw,
        hbytes ∙ ap (λ b. some (b ∷ ys)) byte,
        omega (arith, small),
        reads,
      )
    where
      reads : Operand (parse_one codes ops (codes.code o)) ys (some i)
      reads rest hr =
          let (bytes, read) = hread rest hr in
          (bytes, parse_one-low o (ys ++ rest) (small, high, low) ∙ read)

  pub high-Carried :
      (o : CfaOp) (n : ℕ) (i : RegInstruction) (r : RawInstruction) (ys : List ℕ)
      → LawfulHigh o
      → n < 64
      → reg_instruction_to_raw ops i i.type ≡ some r
      → instruction_bytes codes r r.opcode ≡ some (bit_or (codes.code o) n % 256 ∷ ys)
      → Operand (parse_high o n) ys i
      → Carried i
  high-Carried o n i r ys (h, four, code, high) small hraw hbytes hread =
      let byte : bit_or (codes.code o) n % 256 ≡ 64 * h + n =
        rw (code, or_low h n four small) (omega arith) in
      (r, 64 * h + n, ys, hraw, hbytes ∙ ap (λ b. some (b ∷ ys)) byte, omega arith, reads)
    where
      reads : Operand (parse_one codes ops (64 * h + n)) ys (some i)
      reads rest hr =
          let (bytes, read) = Operand-map (parse_high o n) some ys i hread rest hr in
          (bytes, parse_one-high o h n (ys ++ rest) high small ∙ read)
