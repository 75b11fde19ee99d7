-- ===== src/Leb/Words/Uleb.antt =====
-- The readers of src/leb.c on the shortest encoding of a number, whatever bytes follow it.
use kanana.Base.{
  ℕ, zero, suc, ◌/◌, ◌^◌, ◌≤◌, ◌<◌, ◌≡◌, inl, inr, refl, ap, ◌∙◌, arith, Option, some, List, [],
  ◌∷◌, ◌++◌, true, ltb, length, All, Bool-cases,
}
use kanana.Base.Memory.{IsByte}
use kanana.Leb.{num_septets}
use kanana.Leb.Value.{uleb}
use kanana.Leb.RoundTrip.{uleb-IsByte}
use kanana.Leb.Words.{bytes_needed, uint_to_leb128, decoded, leb128_to_uint, leb128_to_uword}
use kanana.Leb.Words.Laws.{bytes_needed-fits, encode-le_bytes, decode-uleb}

-- A reader that takes some bytes for a value, whatever bytes follow.
abbrev pub Operand {ℓ} : {A : Type ℓ} → (List ℕ → Option (A × ℕ)) → List ℕ → A → Type ℓ
Operand read bytes a =
    (rest : List ℕ)
    → All IsByte rest
    → All IsByte (bytes ++ rest) × (read (bytes ++ rest) ≡ some (a, length bytes))

module _ (k v : ℕ) (wide : v < 128 ^ suc k) where
  pub leb128_to_uint-uleb : v < 2 ^ 32 → Operand leb128_to_uint (uleb k v) v
  unfolding leb128_to_uint decoded
  leb128_to_uint-uleb h rest hr =
      let (out, run, same, size, _) = decode-uleb k 4 v rest (omega arith) h wide hr in
      (uleb-IsByte k v rest wide hr, rw (run, size) (ap (λ x. some (x, length (uleb k v))) same))

  pub leb128_to_uword-uleb : v < 2 ^ 64 → Operand leb128_to_uword (uleb k v) v
  unfolding leb128_to_uword decoded
  leb128_to_uword-uleb h rest hr =
      let (out, run, same, size, _) = decode-uleb k 8 v rest (omega arith) h wide hr in
      (uleb-IsByte k v rest wide hr, rw (run, size) (ap (λ x. some (x, length (uleb k v))) same))

pub length-uleb : (k v : ℕ) → length (uleb k v) ≤ suc k
unfolding uleb
length-uleb zero v = omega arith
length-uleb (suc k) v = elim (Bool-cases (ltb v 128)) [
  | inl small ↦ rw small (omega arith)
  | inr big ↦ rw big (omega (arith, length-uleb k (v / 128)))
]

-- What `uintToLEB128` writes.
pub uint_to_leb128-uleb :
    (v : ℕ)
    → v < 2 ^ 32
    → (k : ℕ) × (uint_to_leb128 v ≡ some (uleb k v)) × (v < 128 ^ suc k) × (k ≤ 5)
unfolding uint_to_leb128
uint_to_leb128-uleb v h =
    let (pos, fits, few) = bytes_needed-fits v h in
    let (enc, wide) = encode-le_bytes (bytes_needed v) v pos fits in
    (num_septets (bytes_needed v), enc, wide, omega (arith, few))

uleb-small : (k v : ℕ) → v < 128 → uleb k v ≡ v ∷ []
unfolding uleb
uleb-small zero v h = refl
uleb-small (suc k) v h = let small : ltb v 128 ≡ true = ground arith in rw small refl

pub uint_to_leb128-small : (v : ℕ) → v < 128 → uint_to_leb128 v ≡ some (v ∷ [])
uint_to_leb128-small v h =
    let (k, enc, _, _) = uint_to_leb128-uleb v (omega arith) in enc ∙ ap some (uleb-small k v h)
