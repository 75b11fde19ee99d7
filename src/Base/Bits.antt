-- ===== src/Base/Bits.antt =====
-- Masks on one byte as arithmetic: each fact is a table over all bytes, checked by evaluation.
use Prim.Native.Nat.{ℕ, zero, suc, ◌+◌, ◌*◌, ◌/◌, ◌%◌, ◌<◌, bit_and, bit_or}
use mathlib.Core.Path.{◌≡◌, refl}
use mathlib.Core.Logic.{inl, inr}
use mathlib.Core.Bool.{Bool, true, ◌&&◌}
use native.Mathlib.Omega.{arith}
use kanana.Base.Tests.{◌==◌, ==_iff, Bool-cases}

-- A table of two functions: whether they agree on the numbers below a bound.
unfoldable pub table : (ℕ → ℕ) → (ℕ → ℕ) → ℕ → Bool
table f g zero = true
table f g (suc top) = table f g top && f top == g top

-- What a table shows of each entry.
pub agree : (bound : ℕ) (f g : ℕ → ℕ) → table f g bound ≡ true → (n : ℕ) → n < bound → f n ≡ g n
unfolding table
agree zero f g e n h = elim h [ ]
agree (suc top) f g e n h = elim (Bool-cases (n == top)) [
  | inl same ↦ rw ((==_iff n top).0 same) (ground arith)
  | inr other ↦ agree top f g (ground arith) n (ground arith)
]

-- A row of such a table for each number below another bound.
unfoldable pub grid : (ℕ → ℕ → ℕ) → (ℕ → ℕ → ℕ) → ℕ → ℕ → Bool
unfolding table
grid f g zero width = true
grid f g (suc row) width = table (f row) (g row) width && grid f g row width

pub agree₂ :
    (rows width : ℕ) (f g : ℕ → ℕ → ℕ)
    → grid f g rows width ≡ true
    → (k n : ℕ) → k < rows
    → n < width
    → f k n ≡ g k n
unfolding grid
agree₂ zero width f g e k n hk hn = elim hk [ ]
agree₂ (suc row) width f g e k n hk hn = elim (Bool-cases (k == row)) [
  | inl same ↦ rw ((==_iff k row).0 same) (agree width (f row) (g row) (ground arith) n hn)
  | inr other ↦ agree₂ row width f g (ground arith) k n (ground arith) hn
]

pub low_bits : (b : ℕ) → b < 256 → bit_and b 0x7f ≡ b % 128
unfolding table
low_bits = agree 256 _ _ refl

pub top_bit : (b : ℕ) → b < 256 → bit_and b 0x80 ≡ b / 128 * 128
unfolding table
top_bit = agree 256 _ _ refl

pub bit_six : (b : ℕ) → b < 256 → bit_and b 0x40 ≡ b / 64 % 2 * 64
unfolding table
bit_six = agree 256 _ _ refl

pub set_top_bit : (b : ℕ) → b < 128 → bit_or b 0x80 ≡ b + 128
unfolding table
set_top_bit = agree 128 _ _ refl
