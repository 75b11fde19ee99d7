-- ===== src/Leb/Signed.antt =====
-- The sign extension of `decodeLEB128` in src/leb.c.
use kanana.Base.{
  ℕ, suc, ◌+◌, ◌-◌, ◌*◌, ◌%◌, ◌^◌, ◌≤◌, ◌<◌, ◌≡◌, refl, sym, ap, ◌∙◌, arith, List, some, ltb, leb,
  ◌==◌, if◌then◌else◌, length, length-set, get_or, set, take, All, inl, inr, true, false,
  Bool-cases, ==_iff, ltb→lt, lt→ltb, bit_and, length-take, not,
}
use kanana.Base.Bits.{grid, agree₂}
use kanana.Base.Memory.{IsByte, get_elem?-some, store-some}
use kanana.Leb.{Decoder, count_septets, decode_leb128, sign_extend, set_bits}
use kanana.Leb.Value.{le_value, leb_value, le_value-set, get_or-lt, set-IsByte}
use kanana.Leb.Rounds.{Holds, mul_mono, pow_next}
use kanana.Leb.Decode.{all_read, all_read-Holds}
use native.Mathlib.Nat.{pow-suc, one-le-pow, mod-eq_of_lt}
use kanana.Leb.Result.{
  split_top, take-lt, take-value, take-IsByte, num_bytes, num_bytes-le, partial_room, num_bytes-lt,
  shifted-le, num_bytes-fits,
}

-- `w` modulo `n` and `v` modulo `m` are one number in two's complement.
abbrev pub SameSigned : ℕ → ℕ → ℕ → ℕ → Type 0
SameSigned m v n w =
    (leb n (2 * w) ≡ leb m (2 * v))
    × (w + (if leb m (2 * v) then m else 0) ≡ v + (if leb m (2 * v) then n else 0))

sign_bit_table :
    (b y : ℕ)
    → b < 8
    → y < 256
    → bit_and (y % 2 ^ (8 - b)) (2 ^ (7 - b))
      ≡ (if ltb (y % 2 ^ (8 - b)) (2 ^ (7 - b)) then 0 else 2 ^ (7 - b))
unfolding grid
sign_bit_table =
    agree₂ 8 256 (λ b y. bit_and (y % 2 ^ (8 - b)) (2 ^ (7 - b)))
      (λ b y. if ltb (y % 2 ^ (8 - b)) (2 ^ (7 - b)) then 0 else 2 ^ (7 - b)) refl

ones_table :
    (b y : ℕ)
    → b < 8
    → y < 256
    → set_bits b (8 - b) (y % 2 ^ (8 - b)) ≡ y % 2 ^ (8 - b) + (256 - 2 ^ (8 - b))
unfolding grid set_bits
ones_table =
    agree₂ 8 256 (λ b y. set_bits b (8 - b) (y % 2 ^ (8 - b)))
      (λ b y. y % 2 ^ (8 - b) + (256 - 2 ^ (8 - b))) refl

-- The top byte of a buffer that is not full there, and the weight of its place.
module _ (k v : ℕ) (d : Decoder) (inv : Holds k k v d) (partial : (d.bits_left == 8) ≡ false) where
  abbrev top : ℕ
  top = get_or d.result d.byte_idx 0

  abbrev low : ℕ
  low = le_value (take d.byte_idx d.result)

  abbrev weight : ℕ
  weight = 256 ^ d.byte_idx

  fewer : d.bits_left < 8
  fewer = ground (arith, inv.at_most)

  bound : le_value d.result < 2 ^ (8 - d.bits_left) * weight
  bound = rw inv.value (rw (← inv.place) inv.below)

  top-lt : top < 2 ^ (8 - d.bits_left)
  top-lt = get_or-lt d.result d.byte_idx _ (one-le-pow (8 - d.bits_left) 2 (omega arith)) bound

  top_mod : top % 2 ^ (8 - d.bits_left) ≡ top
  top_mod = mod-eq_of_lt top-lt

  sign_bit :
      bit_and top (2 ^ (7 - d.bits_left))
      ≡ (if ltb top (2 ^ (7 - d.bits_left)) then 0 else 2 ^ (7 - d.bits_left))
  sign_bit =
      rw top_mod at
        (sign_bit_table d.bits_left top fewer (omega (arith, top-lt, shifted-le k v d inv)))

  ones : set_bits d.bits_left (8 - d.bits_left) top ≡ top + (256 - 2 ^ (8 - d.bits_left))
  ones =
      rw top_mod at (ones_table d.bits_left top fewer (omega (arith, top-lt, shifted-le k v d inv)))

  parts : v ≡ low + weight * top
  parts =
      sym inv.value ∙ split_top d.result d.byte_idx _ (omega (arith, shifted-le k v d inv)) bound

  low-lt : low < weight
  low-lt = take-lt d.result d.byte_idx inv.bytes

  doubled : 2 ^ (8 - d.bits_left) ≡ 2 * 2 ^ (7 - d.bits_left)
  doubled =
      let e : 8 - d.bits_left ≡ suc (7 - d.bits_left) = omega (arith, fewer) in
      rw (e, pow-suc) (omega arith)

  -- The sign bit of the last septet is the sign of the number.
  sign : leb (128 ^ k) (2 * v) ≡ not (ltb top (2 ^ (7 - d.bits_left)))
  sign = elim (Bool-cases (ltb top (2 ^ (7 - d.bits_left)))) [
    | inl e ↦ rw (e) (ground (arith, nonneg (ltb→lt _ _ e)))
    | inr e ↦ rw (e) (ground (arith, neg (ground arith)))
  ]
    where
      place : 128 ^ k ≡ 2 * 2 ^ (7 - d.bits_left) * weight
      place = rw doubled at inv.place

      nonneg : top < 2 ^ (7 - d.bits_left) → 2 * v < 128 ^ k
      nonneg h = omega (
        arith,
        parts,
        low-lt,
        place,
        mul_mono (top + 1) weight (2 ^ (7 - d.bits_left)) (omega arith),
      )

      neg : 2 ^ (7 - d.bits_left) ≤ top → 128 ^ k ≤ 2 * v
      neg h = omega (arith, parts, place, mul_mono (2 ^ (7 - d.bits_left)) weight top h)

  abbrev extended : List ℕ
  extended = set d.result d.byte_idx (set_bits d.bits_left (8 - d.bits_left) top)

  filled-lt : set_bits d.bits_left (8 - d.bits_left) top < 256
  filled-lt = rw ones (omega (arith, top-lt, shifted-le k v d inv))

  extended-value : le_value extended + 128 ^ k ≡ v + 256 ^ (d.byte_idx + 1)
  extended-value =
      rw (inv.place, pow_next)
        (omega (
          arith,
          le_value-set d.result d.byte_idx filled (partial_room k v d inv partial),
          inv.value,
          ap (λ (t : ℕ). weight * t) whole,
        ))
    where
      filled : ℕ
      filled = set_bits d.bits_left (8 - d.bits_left) top

      whole : filled + 2 ^ (8 - d.bits_left) ≡ top + 256
      whole = rw ones (omega (arith, shifted-le k v d inv))

  place-le : 128 ^ k ≤ 128 * weight
  place-le =
      rw inv.place
        (omega (arith, mul_mono (2 ^ (8 - d.bits_left)) weight 128 (shifted-le k v d inv)))

  extended-SameSigned :
      leb (128 ^ k) (2 * v) ≡ true
      → SameSigned (128 ^ k) v (256 ^ (d.byte_idx + 1)) (le_value extended)
  extended-SameSigned e =
      rw e (ground (arith, extended-value, place-le, pow_next d.byte_idx), extended-value)

  kept-SameSigned :
      leb (128 ^ k) (2 * v) ≡ false → SameSigned (128 ^ k) v (256 ^ (d.byte_idx + 1)) v
  kept-SameSigned e = rw e (ground (arith, place-le, pow_next d.byte_idx), refl)

  negative_test : leb (128 ^ k) (2 * v) ≡ true → (bit_and top (2 ^ (7 - d.bits_left)) == 0) ≡ false
  negative_test e = ground (arith, sign, sign_bit, one-le-pow (7 - d.bits_left) 2 (omega arith))

  positive_test : leb (128 ^ k) (2 * v) ≡ false → (bit_and top (2 ^ (7 - d.bits_left)) == 0) ≡ true
  positive_test e = ground (arith, sign, sign_bit)

  sign_extend_negative :
      leb (128 ^ k) (2 * v) ≡ true → sign_extend d ≡ some (record d { result = extended })
  unfolding sign_extend
  sign_extend_negative e =
      let room = partial_room k v d inv partial in
      rw (
        lt→ltb _ _ fewer,
        get_elem?-some d.result d.byte_idx 0 room,
        negative_test e,
        store-some d.result d.byte_idx (set_bits d.bits_left (8 - d.bits_left) top) room,
      )

  sign_extend_positive : leb (128 ^ k) (2 * v) ≡ false → sign_extend d ≡ some d
  unfolding sign_extend
  sign_extend_positive e = rw (
    lt→ltb _ _ fewer,
    get_elem?-some d.result d.byte_idx 0 (partial_room k v d inv partial),
    positive_test e,
  )

-- What the sign extension leaves alone, and the number that it makes.
abbrev Extends : ℕ → ℕ → Decoder → Decoder → Type 0
Extends k v d d' =
    (num_bytes d' ≡ num_bytes d)
    × (length d'.result ≡ length d.result)
    × All IsByte d'.result
    × (le_value d'.result < 256 ^ num_bytes d)
    × SameSigned (128 ^ k) v (256 ^ num_bytes d) (le_value d'.result)

sign_extend-Extends :
    (k v : ℕ) (d : Decoder)
    → Holds k k v d
    → (d' : Decoder) × (sign_extend d ≡ some d') × Extends k v d d'
sign_extend-Extends k v d inv = elim (Bool-cases (d.bits_left == 8)) [
  | inl e ↦
      let full : d.bits_left ≡ 8 = (==_iff _ _).0 e in
      let same : 128 ^ k ≡ 256 ^ d.byte_idx = omega (arith, rw full at inv.place) in
      (
        d,
        unfold sign_extend in rw full,
        (
          refl,
          refl,
          inv.bytes,
          rw inv.value (num_bytes-fits k v d inv),
          rw (inv.value, e, same) (refl, refl),
        ),
      )
  | inr e ↦ elim (Bool-cases (leb (128 ^ k) (2 * v))) [
    | inl negative ↦ (
      record d { result = extended k v d inv e },
      sign_extend_negative k v d inv e negative,
      (
        refl,
        length-set d.result d.byte_idx _,
        set-IsByte d.result d.byte_idx _ (filled-lt k v d inv e) inv.bytes,
        rw e (omega (arith, extended-value k v d inv e, inv.below)),
        rw e (extended-SameSigned k v d inv e negative),
      ),
    )
    | inr positive ↦ (
      d,
      sign_extend_positive k v d inv e positive,
      (
        refl,
        refl,
        inv.bytes,
        rw inv.value (num_bytes-fits k v d inv),
        rw (inv.value, e) (kept-SameSigned k v d inv e positive),
      ),
    )
  ]
]

-- `decodeLEB128`, signed: the bytes returned and the septets read are one number in two's
-- complement, of `8 * length out` and of `7 * k` bits.
pub decode_leb128-signed :
    (bytes : List ℕ) (k : ℕ)
    → All IsByte bytes
    → count_septets bytes ≡ some k
    → (out : List ℕ) × (decode_leb128 bytes true ≡ some (out, k))
      × All IsByte out
      × (8 * length out < 7 * k + 8)
      × SameSigned (128 ^ k) (leb_value bytes) (256 ^ length out) (le_value out)
unfolding decode_leb128 all_read
decode_leb128-signed bytes k h e =
    let v = leb_value bytes in
    let (d, run, inv) = all_read-Holds bytes k h e in
    let (d', ran, ext) = sign_extend-Extends k v d inv in
    let (same, size, is_bytes, fits, signed) = ext in
    let len : length (take (num_bytes d') d'.result) ≡ num_bytes d =
      length-take (num_bytes d') d'.result (rw (size, same) (num_bytes-le k v d inv)) ∙ same in
    (
      take (num_bytes d') d'.result,
      rw (e, run, ran),
      take-IsByte d'.result (num_bytes d') is_bytes,
      rw len (num_bytes-lt k v d inv),
      rw (len, take-value d'.result (num_bytes d') (rw same fits)) signed,
    )
