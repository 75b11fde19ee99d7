-- ===== src/Leb/Rounds.antt =====
-- One round of `decodeLEB128` of src/leb.c: where it writes, and what number the buffer then holds.
use kanana.Base.{
  ℕ, zero, suc, ◌+◌, ◌-◌, ◌*◌, ◌/◌, ◌%◌, ◌^◌, ◌≤◌, ◌<◌, ◌≡◌, refl, ap, ◌∙◌, arith, List, some, ◌==◌,
  length, length-set, get_or, set, All, inl, inr, Bool-cases, ==_iff, bit_or,
}
use kanana.Base.Bits.{grid, agree₂}
use kanana.Base.Memory.{IsByte, get_elem?-some, store-some}
use kanana.Leb.{Decoder, decode_step}
use kanana.Leb.Value.{le_value, le_value-set, get_or-lt, set-IsByte}
use native.Mathlib.Nat.{pow-suc, one-le-pow}
use native.Mathlib.Numerals.{add-one}

abbrev pub decoder : List ℕ → ℕ → ℕ → Decoder
decoder r i b = record { result = r; byte_idx = i; bits_left = b }

or_table : (s y : ℕ) → s < 8 → y < 256 → bit_or (y % 2 ^ s) (y / 2 ^ s * 2 ^ s) ≡ y
unfolding grid
or_table = agree₂ 8 256 (λ s y. bit_or (y % 2 ^ s) (y / 2 ^ s * 2 ^ s)) (λ s y. y) refl

abbrev Split : ℕ → ℕ → ℕ → Type 0
Split s c q =
    let v = q * 2 ^ s % 256 in
    let y = c + v in (y < 256) × (y % 2 ^ s ≡ c) × (y / 2 ^ s * 2 ^ s ≡ v) × (v + 2 ^ s ≤ 256)

split : (s c q : ℕ) → s < 8 → c < 2 ^ s → Split s c q
split zero c q hs hc = omega arith
split (suc zero) c q hs hc = omega arith
split (suc (suc zero)) c q hs hc = omega arith
split (suc (suc (suc zero))) c q hs hc = omega arith
split (suc (suc (suc (suc zero)))) c q hs hc = omega arith
split (suc (suc (suc (suc (suc zero))))) c q hs hc = omega arith
split (suc (suc (suc (suc (suc (suc zero)))))) c q hs hc = omega arith
split (suc (suc (suc (suc (suc (suc (suc zero))))))) c q hs hc = omega arith
split (suc (suc (suc (suc (suc (suc (suc (suc s)))))))) c q hs hc = absurd (omega arith)

-- The septet's low bits go above the bits that the byte holds already.
or_shift : (s c q : ℕ) → s < 8 → c < 2 ^ s → bit_or c (q * 2 ^ s % 256) ≡ c + q * 2 ^ s % 256
or_shift s c q hs hc =
    let (lt, low, high, room) = split s c q hs hc in
    rw (low, high) at (or_table s (c + q * 2 ^ s % 256) hs lt)

-- The bits that do not fit go into the next byte.
spilt :
    (b q : ℕ)
    → 0 < b
    → b < 7
    → q < 128
    → (q * 2 ^ (8 - b) % 256 + q / 2 ^ (8 - (8 - b)) * 256 ≡ q * 2 ^ (8 - b))
      × (2 ^ (8 - b) ≡ 2 * 2 ^ (8 - (b + 1)))
      × (q / 2 ^ (8 - (8 - b)) < 256)
spilt zero q pos hb hq = absurd (omega arith)
spilt (suc zero) q pos hb hq = omega arith
spilt (suc (suc zero)) q pos hb hq = omega arith
spilt (suc (suc (suc zero))) q pos hb hq = omega arith
spilt (suc (suc (suc (suc zero)))) q pos hb hq = omega arith
spilt (suc (suc (suc (suc (suc zero))))) q pos hb hq = omega arith
spilt (suc (suc (suc (suc (suc (suc zero)))))) q pos hb hq = omega arith
spilt (suc (suc (suc (suc (suc (suc (suc b))))))) q pos hb hq = absurd (omega arith)

-- After `j` of `k` septets the buffer holds the number `a`, and the position is at bit `7 * j`.
pub record Holds (k j a : ℕ) (d : Decoder) : Type 0 where
  pub value : le_value d.result ≡ a
  pub bytes : All IsByte d.result
  pub size : length d.result ≡ (k * 7 + 7) / 8
  pub position : 8 * d.byte_idx + (8 - d.bits_left) ≡ 7 * j
  pub some_left : 0 < d.bits_left
  pub at_most : d.bits_left ≤ 8
  pub below : a < 128 ^ j
  pub place : 128 ^ j ≡ 2 ^ (8 - d.bits_left) * 256 ^ d.byte_idx

pub mul_mono : (x y m : ℕ) → x ≤ m → y * x ≤ y * m
mul_mono x y m h = grind arith

pub pow_next : (i : ℕ) → 256 ^ (i + 1) ≡ 256 ^ i * 256
pow_next i = rw (add-one, pow-suc)

module _ (k j a q : ℕ) (r : List ℕ) (i b : ℕ) (inv : Holds k j a (decoder r i b)) (hj : j < k)
    (hq : q < 128) where
  abbrev low_part : ℕ
  low_part = q * 2 ^ (8 - b) % 256

  abbrev high_part : ℕ
  high_part = q / 2 ^ (8 - (8 - b))

  abbrev current : ℕ
  current = get_or r i 0

  abbrev first_write : List ℕ
  first_write = set r i (bit_or current low_part)

  in_room : i < length r
  in_room = omega (arith, inv.position, inv.size)

  positive : 0 < 2 ^ (8 - b)
  positive = one-le-pow (8 - b) 2 (omega arith)

  current-lt : current < 2 ^ (8 - b)
  current-lt = get_or-lt r i _ positive (rw inv.value (rw (← inv.place) inv.below))

  below_next : a + 128 ^ j * q < 128 ^ suc j
  below_next = rw pow-suc (omega (arith, inv.below, mul_mono q (128 ^ j) 127 (omega arith)))

  parted : Split (8 - b) current q
  parted = split (8 - b) current q (omega (arith, inv.some_left)) current-lt

  written : bit_or current low_part ≡ current + low_part
  written = or_shift (8 - b) current q (omega (arith, inv.some_left)) current-lt

  first_write-value : le_value first_write ≡ a + 256 ^ i * low_part
  first_write-value =
      rw written (omega (arith, inv.value, le_value-set r i (current + low_part) in_room))

  first_write-IsByte : All IsByte first_write
  first_write-IsByte = set-IsByte r i _ (rw written parted.0) inv.bytes

  first_write-size : length first_write ≡ (k * 7 + 7) / 8
  first_write-size = length-set r i _ ∙ inv.size

  product : 128 ^ j * q ≡ 256 ^ i * (q * 2 ^ (8 - b))
  product = rw inv.place (omega arith)

  whole-value : low_part ≡ q * 2 ^ (8 - b) → le_value first_write ≡ a + 128 ^ j * q
  whole-value e = rw (first_write-value, e, product)

  fits_first : b ≡ 8 → Holds k (suc j) (a + 128 ^ j * q) (decoder first_write i 1)
  fits_first e = record {
    value = whole-value (rw e (omega arith));
    bytes = first_write-IsByte;
    size = first_write-size;
    position = omega (arith, inv.position);
    some_left = omega arith;
    at_most = omega arith;
    below = below_next;
    place = rw (pow-suc, inv.place, e) (omega arith);
  }

  fits_exactly : b ≡ 7 → Holds k (suc j) (a + 128 ^ j * q) (decoder first_write (i + 1) 8)
  fits_exactly e = record {
    value = whole-value (rw e (omega arith));
    bytes = first_write-IsByte;
    size = first_write-size;
    position = omega (arith, inv.position);
    some_left = omega arith;
    at_most = omega arith;
    below = below_next;
    place = rw (pow-suc, inv.place, e, pow_next) (omega arith);
  }

  module _ (hb : b < 7) where
    abbrev second_write : List ℕ
    second_write = set first_write (i + 1) high_part

    facts :
        (low_part + high_part * 256 ≡ q * 2 ^ (8 - b))
        × (2 ^ (8 - b) ≡ 2 * 2 ^ (8 - (b + 1)))
        × (high_part < 256)
    facts = spilt b q inv.some_left hb hq

    next_in_room : i + 1 < length first_write
    next_in_room = omega (arith, inv.position, first_write-size)

    next_is_zero : get_or first_write (i + 1) 0 ≡ 0
    next_is_zero =
        let bound : le_value first_write < 1 * 256 ^ (i + 1) =
          rw (first_write-value, pow_next)
            (omega (
              arith,
              rw inv.place at inv.below,
              mul_mono (low_part + 2 ^ (8 - b)) (256 ^ i) 256 parted.3,
            )) in
        omega (arith, get_or-lt first_write (i + 1) 1 (omega arith) bound)

    second_write-value : le_value second_write ≡ a + 128 ^ j * q
    second_write-value = rw product (
        omega (
          arith,
          first_write-value,
          pow_next i,
          rw (next_is_zero, pow_next) at (le_value-set first_write (i + 1) high_part next_in_room),
          ap (λ (t : ℕ). 256 ^ i * t) facts.0,
        ))

    spills : Holds k (suc j) (a + 128 ^ j * q) (decoder second_write (i + 1) (b + 1))
    spills = record {
      value = second_write-value;
      bytes = set-IsByte first_write (i + 1) _ facts.2 first_write-IsByte;
      size = length-set first_write (i + 1) _ ∙ first_write-size;
      position = omega (arith, inv.position);
      some_left = omega arith;
      at_most = omega arith;
      below = below_next;
      place = rw (pow-suc, inv.place, facts.1, pow_next) (omega arith);
    }

-- A round stores inside the buffer and adds the septet above the bits read so far.
pub decode_step-Holds :
    (k j a q : ℕ) (d : Decoder)
    → Holds k j a d
    → j < k
    → q < 128
    → (d' : Decoder) × (decode_step q d ≡ some d') × Holds k (suc j) (a + 128 ^ j * q) d'
unfolding decode_step
decode_step-Holds k j a q d inv hj hq =
    let r = d.result in
    let i = d.byte_idx in
    let b = d.bits_left in
    let room = in_room k j a q r i b inv hj hq in
    let stored = store-some r i (bit_or (get_or r i 0) (q * 2 ^ (8 - b) % 256)) room in
    elim (Bool-cases (b == 8)) [
      | inl e ↦ (
        decoder (first_write k j a q r i b inv hj hq) i 1,
        rw (get_elem?-some r i 0 room, stored, e),
        fits_first k j a q r i b inv hj hq ((==_iff _ _).0 e),
      )
      | inr more ↦ elim (Bool-cases (b == 7)) [
        | inl e ↦ (
          decoder (first_write k j a q r i b inv hj hq) (i + 1) 8,
          rw (get_elem?-some r i 0 room, stored, more, e),
          fits_exactly k j a q r i b inv hj hq ((==_iff _ _).0 e),
        )
        | inr less ↦
            let hb : b < 7 = ground (arith, inv.at_most) in
            (
              decoder (second_write k j a q r i b inv hj hq hb) (i + 1) (b + 1),
              rw (
                get_elem?-some r i 0 room,
                stored,
                more,
                less,
                store-some _ (i + 1) _ (next_in_room k j a q r i b inv hj hq hb),
              ),
              spills k j a q r i b inv hj hq hb,
            )
      ]
    ]
