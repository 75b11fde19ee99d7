-- ===== src/Dwarf/Register/Laws.antt =====
-- Reading back the registers that `encodeRegAsLEB128` of src/register.c writes.
use kanana.Base.{
  ℕ, zero, suc, ◌^◌, ◌%◌, ◌<◌, ◌≡◌, refl, sym, arith, some, List, [], ◌∷◌, ◌++◌, true, ltb, leb,
  length, All, Bool-cases, inl, inr,
}
use kanana.Base.Memory.{IsByte}
use kanana.Leb.{decode_leb128, count_septets, decode_loop, decode_step, drop_zero}
use kanana.Leb.Value.{uleb, le_value}
use kanana.Leb.RoundTrip.{uleb-IsByte}
use kanana.Leb.Words.Laws.{decode-uleb}
use kanana.Leb.Words.Uleb.{Operand, uint_to_leb128-uleb}
use kanana.Dwarf.Register.{
  basic_reg, read_basic, reg_of_bytes, read_reg_from_leb128, encode_reg_as_leb128,
}

-- A basic register that does not look like a register of the patching machine: the low byte of its
-- number is below ERT_PO_START.
abbrev pub IsBasic : ℕ → Type 0
IsBasic index = (index < 2 ^ 32) × (index % 256 < 0xf0)

reg_of_bytes-basic :
    (bytes : List ℕ) (index : ℕ)
    → le_value bytes ≡ index
    → leb (length bytes) 4 ≡ true
    → All IsByte bytes
    → 0 < index
    → index % 256 < 0xf0
    → reg_of_bytes bytes ≡ some (basic_reg index)
unfolding le_value read_basic reg_of_bytes
reg_of_bytes-basic [] index same size hb h low = absurd (omega arith)
reg_of_bytes-basic (b ∷ bytes) index same size (hb, _) h low =
    let small : ltb b 0xf0 ≡ true = ground arith in
    let fits : ltb (suc (length bytes)) 8 ≡ true = ground arith in
    let nonempty : ltb 0 (suc (length bytes)) ≡ true = ground arith in
    rw (nonempty, small, fits, size, sym same) refl

read_reg-zero : (rest : List ℕ) → read_reg_from_leb128 (0 ∷ rest) ≡ some (basic_reg 0, 1)
unfolding read_reg_from_leb128 reg_of_bytes decode_leb128 count_septets decode_loop decode_step
    drop_zero read_basic le_value
read_reg-zero rest = refl

uleb-zero : (k : ℕ) → uleb k 0 ≡ 0 ∷ []
unfolding uleb
uleb-zero zero = refl
uleb-zero (suc k) = refl

pub read_reg_from_leb128-uleb :
    (k v : ℕ) → v < 128 ^ suc k → IsBasic v → Operand read_reg_from_leb128 (uleb k v) (basic_reg v)
unfolding read_reg_from_leb128
read_reg_from_leb128-uleb k v wide (h, low) rest hr = elim (Bool-cases (ltb 0 v)) [
  | inl pos ↦
      let (out, run, same, size, bytes) = decode-uleb k 4 v rest (omega arith) h wide hr in
      (
        uleb-IsByte k v rest wide hr,
        rw (run, reg_of_bytes-basic out v same size bytes (ground arith) low) refl,
      )
  | inr none ↦ at_zero (ground arith)
]
  where
    at_zero :
        v ≡ 0
        → All IsByte (uleb k v ++ rest)
          × (read_reg_from_leb128 (uleb k v ++ rest) ≡ some (basic_reg v, length (uleb k v)))
    at_zero z = rw (z, uleb-zero k) ((omega arith, hr), read_reg-zero rest)

pub read_reg_from_leb128-encode :
    (index : ℕ) (rest : List ℕ)
    → IsBasic index
    → All IsByte rest
    → (written : List ℕ) × (encode_reg_as_leb128 (basic_reg index) ≡ some written)
      × (read_reg_from_leb128 (written ++ rest) ≡ some (basic_reg index, length written))
unfolding encode_reg_as_leb128
read_reg_from_leb128-encode index rest h hr =
    let (k, enc, wide, _) = uint_to_leb128-uleb index h.0 in
    (uleb k index, enc, (read_reg_from_leb128-uleb k index wide h rest hr).1)
