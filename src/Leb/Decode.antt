-- ===== src/Leb/Decode.antt =====
-- What `decodeLEB128` of src/leb.c returns.
use kanana.Base.{
  ℕ, zero, suc, ◌+◌, ◌*◌, ◌/◌, ◌%◌, ◌^◌, ◌≤◌, ◌<◌, ◌≡◌, refl, arith, List, [], ◌∷◌, Option, some,
  length, length-replicate, replicate, All,
}
use kanana.Base.Bits.{low_bits, top_bit}
use kanana.Base.Memory.{IsByte}
use kanana.Leb.{Decoder, decode_loop, count_septets}
use kanana.Leb.Value.{leb_value, le_value-replicate}
use kanana.Leb.Rounds.{decoder, Holds, decode_step-Holds}
use mathlib.Core.Path.{subst₂}
use native.Mathlib.Nat.{pow-suc}

-- The first `k` septets as a number, whatever their top bits.
unfoldable pub septets_value : ℕ → List ℕ → ℕ
septets_value zero bytes = 0
septets_value (suc k) [] = 0
septets_value (suc k) (b ∷ bs) = b % 128 + 128 * septets_value k bs

Holds-eq : {k j j' a a' : ℕ} {d : Decoder} → Holds k j a d → j ≡ j' → a ≡ a' → Holds k j' a' d
Holds-eq {k} {d} inv p q = subst₂ (λ j a. Holds k j a d) p q inv

decode_loop-Holds :
    (n k j a : ℕ) (bytes : List ℕ) (d : Decoder)
    → All IsByte bytes
    → Holds k j a d
    → j + n ≡ k
    → n ≤ length bytes
    → (d' : Decoder) × (decode_loop n bytes d ≡ some d')
      × Holds k k (a + 128 ^ j * septets_value n bytes) d'
unfolding decode_loop septets_value
decode_loop-Holds zero k j a bytes d h inv e len =
    (d, refl, Holds-eq inv (omega arith) (omega arith))
decode_loop-Holds (suc n) k j a [] d h inv e len = absurd (omega arith)
decode_loop-Holds (suc n) k j a (b ∷ bs) d (hb, hbs) inv e len =
    let (d1, s1, inv1) = decode_step-Holds k j a (b % 128) d inv (omega arith) (omega arith) in
    let (d2, s2, inv2) =
      decode_loop-Holds n k (suc j) (a + 128 ^ j * (b % 128)) bs d1 hbs inv1 (omega arith)
        (omega arith) in
    (d2, rw (low_bits b hb, s1) s2, Holds-eq inv2 refl (rw pow-suc (omega arith)))

-- The first pass counts the septets up to the first without a top bit.
pub count_septets-value :
    (bytes : List ℕ) (k : ℕ)
    → All IsByte bytes
    → count_septets bytes ≡ some k
    → (k ≤ length bytes) × (0 < k) × (septets_value k bytes ≡ leb_value bytes)
unfolding count_septets septets_value leb_value
count_septets-value [] k h e = cc
count_septets-value (b ∷ bs) zero (hb, hbs) e = ground arith
count_septets-value (b ∷ bs) (suc zero) (hb, hbs) e =
    ground (arith, top_bit b, count_septets-value bs 0)
count_septets-value (b ∷ bs) (suc (suc k)) (hb, hbs) e =
    ground (arith, top_bit b, count_septets-value bs (suc k))

zeros-IsByte : (n : ℕ) → All IsByte (replicate n 0)
zeros-IsByte zero = tt
zeros-IsByte (suc n) = (omega arith, zeros-IsByte n)

unfoldable pub all_read : List ℕ → ℕ → Option Decoder
all_read bytes k =
    decode_loop k bytes
      (record { result = replicate ((k * 7 + 7) / 8) 0; byte_idx = 0; bits_left = 8 })

pub all_read-Holds :
    (bytes : List ℕ) (k : ℕ)
    → All IsByte bytes
    → count_septets bytes ≡ some k
    → (d : Decoder) × (all_read bytes k ≡ some d) × Holds k k (leb_value bytes) d
unfolding all_read
all_read-Holds bytes k h e =
    let (len, pos, same) = count_septets-value bytes k h e in
    let (d, run, inv) = decode_loop-Holds k k 0 0 bytes _ h start (omega arith) len in
    (d, run, Holds-eq inv refl (rw same (omega arith)))
  where
    start : Holds k 0 0 (decoder (replicate ((k * 7 + 7) / 8) 0) 0 8)
    start = record {
      value = le_value-replicate _;
      bytes = zeros-IsByte ((k * 7 + 7) / 8);
      size = length-replicate _ 0;
      position = omega arith;
      some_left = omega arith;
      at_most = omega arith;
      below = omega arith;
      place = omega arith;
    }
