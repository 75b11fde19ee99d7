-- ===== src/Leb/Result.antt =====
-- The number that `decodeLEB128` of src/leb.c returns, unsigned and signed.
use kanana.Base.{
  ℕ, zero, suc, ◌+◌, ◌-◌, ◌*◌, ◌^◌, ◌≤◌, ◌<◌, ◌≡◌, refl, ap, ◌∙◌, arith, List, [], ◌∷◌, some, ltb,
  ◌==◌, if◌then◌else◌, length, get_or, take, All, inl, inr, false, Bool-cases, ==_iff, length-take,
  ◌&&◌,
}
use kanana.Base.Memory.{IsByte, get_elem?-some}
use kanana.Leb.{Decoder, count_septets, decode_leb128, drop_zero}
use kanana.Leb.Value.{get_or-lt, le_value, leb_value}
use kanana.Leb.Rounds.{Holds, mul_mono, pow_next}
use kanana.Leb.Decode.{all_read, all_read-Holds}
use native.Mathlib.Nat.{pow-suc, one-le-pow, pow-le-pow_right}

-- A number below `m * 256 ^ i` ends at byte `i`.
pub split_top :
    (bs : List ℕ) (i m : ℕ)
    → m ≤ 256
    → le_value bs < m * 256 ^ i
    → le_value bs ≡ le_value (take i bs) + 256 ^ i * get_or bs i 0
unfolding le_value
split_top [] zero m hm lt = omega arith
split_top [] (suc i) m hm lt = omega arith
split_top (b ∷ bs) zero m hm lt = omega arith
split_top (b ∷ bs) (suc i) m hm lt =
    let e = split_top bs i m hm (omega (arith, rw pow-suc at lt)) in rw pow-suc (omega (arith, e))

pub take-lt : (bs : List ℕ) (i : ℕ) → All IsByte bs → le_value (take i bs) < 256 ^ i
unfolding le_value
take-lt bs zero h = omega arith
take-lt [] (suc i) h = one-le-pow (suc i) 256 (omega arith)
take-lt (b ∷ bs) (suc i) h = rw pow-suc (omega (arith, take-lt bs i h.1, h.0))

pub take-value : (bs : List ℕ) (n : ℕ) → le_value bs < 256 ^ n → le_value (take n bs) ≡ le_value bs
unfolding le_value
take-value [] zero h = refl
take-value [] (suc n) h = refl
take-value (b ∷ bs) zero h = omega arith
take-value (b ∷ bs) (suc n) h =
    ap (λ v. b + 256 * v) (take-value bs n (omega (arith, rw pow-suc at h)))

pub take-IsByte : (bs : List ℕ) (n : ℕ) → All IsByte bs → All IsByte (take n bs)
take-IsByte bs zero h = tt
take-IsByte [] (suc n) h = tt
take-IsByte (b ∷ bs) (suc n) h = (h.0, take-IsByte bs n h.1)

-- `numBytes`
abbrev pub num_bytes : Decoder → ℕ
num_bytes d = if d.bits_left == 8 then d.byte_idx else d.byte_idx + 1

module _ (k v : ℕ) (d : Decoder) (inv : Holds k k v d) where
  pub num_bytes-le : num_bytes d ≤ length d.result
  num_bytes-le = ground (arith, inv.position, inv.size, inv.some_left)

  pub partial_room : (d.bits_left == 8) ≡ false → d.byte_idx < length d.result
  partial_room e = ground (arith, inv.position, inv.size, inv.some_left)

  pub num_bytes-lt : 8 * num_bytes d < 7 * k + 8
  num_bytes-lt = ground (arith, inv.position, inv.some_left)

  pub shifted-le : 2 ^ (8 - d.bits_left) ≤ 128
  shifted-le = pow-le-pow_right {n = 2} (omega arith) {j = 7} (omega (arith, inv.some_left))

  pub num_bytes-fits : v < 256 ^ num_bytes d
  num_bytes-fits = elim (Bool-cases (d.bits_left == 8)) [
    | inl e ↦
        let full : d.bits_left ≡ 8 = (==_iff _ _).0 e in
        rw e (omega (arith, inv.below, rw full at inv.place))
    | inr e ↦
        rw (e, pow_next)
          (omega (
            arith,
            inv.below,
            inv.place,
            mul_mono (2 ^ (8 - d.bits_left)) (256 ^ d.byte_idx) 128 shifted-le,
          ))
  ]

  -- A last byte of zero bits holds none of the number.
  zero_byte-fits : get_or d.result d.byte_idx 0 ≡ 0 → v < 256 ^ d.byte_idx
  zero_byte-fits z =
      let bound : le_value d.result < 2 ^ (8 - d.bits_left) * 256 ^ d.byte_idx =
        rw inv.value (rw (← inv.place) inv.below) in
      let whole = rw z at (split_top d.result d.byte_idx _ (omega (arith, shifted-le)) bound) in
      omega (arith, inv.value, whole, take-lt d.result d.byte_idx inv.bytes)

-- A number that fits `n` bytes, in no more septets than those need.
abbrev pub Narrow : ℕ → ℕ → ℕ → Type 0
Narrow k v n = (0 < n) × (v < 256 ^ n) × (7 * k < 8 * n + 8)

abbrev Kept : ℕ → ℕ → Decoder → Decoder → Type 0
Kept k v d d' =
    (d'.result ≡ d.result)
    × (v < 256 ^ num_bytes d')
    × (num_bytes d' ≤ length d.result)
    × (8 * num_bytes d' < 7 * k + 8)
    × ((n : ℕ) → Narrow k v n → num_bytes d' ≤ n)

drop_zero-Kept :
    (k v : ℕ) (d : Decoder)
    → Holds k k v d
    → (d' : Decoder) × (drop_zero d ≡ some d') × Kept k v d d'
unfolding drop_zero
drop_zero-Kept k v d inv = elim (Bool-cases (d.bits_left == 8)) [
  | inl e ↦ (d, rw e, kept λ n (pos, fits, few). ground (arith, inv.position))
  | inr e ↦
      let read = get_elem?-some d.result d.byte_idx 0 (partial_room k v d inv e) in
      elim (Bool-cases (get_or d.result d.byte_idx 0 == 0 && ltb 0 d.byte_idx)) [
        | inl z ↦ (
          record d { byte_idx = d.byte_idx - 1 },
          rw (e, read, z),
          (
            refl,
            rw (e, before (ground arith)) (zero_byte-fits k v d inv (ground arith)),
            ground (arith, num_bytes-le k v d inv),
            ground (arith, num_bytes-lt k v d inv),
            λ n (pos, fits, few). ground (arith, inv.position),
          ),
        )
        | inr whole ↦ (d, rw (e, read, whole), kept λ n narrow. kept_narrow n whole narrow)
      ]
]
  where
    kept : ((n : ℕ) → Narrow k v n → num_bytes d ≤ n) → Kept k v d d
    kept narrow =
        (refl, num_bytes-fits k v d inv, num_bytes-le k v d inv, num_bytes-lt k v d inv, narrow)

    -- Byte `n` of a number below 256 ^ n is zero.
    kept_narrow :
        (n : ℕ)
        → (get_or d.result d.byte_idx 0 == 0 && ltb 0 d.byte_idx) ≡ false
        → Narrow k v n
        → num_bytes d ≤ n
    kept_narrow n whole (pos, fits, few) = elim (Bool-cases (d.byte_idx == n)) [
      | inl at ↦
          let here : d.byte_idx ≡ n = (==_iff _ _).0 at in
          let zero_top =
            get_or-lt d.result d.byte_idx 1 (omega arith) (rw (inv.value, here) (omega arith)) in
          absurd (ground arith)
      | inr past ↦ ground (arith, inv.position)
    ]

    before : 0 < d.byte_idx → d.byte_idx - 1 + 1 ≡ d.byte_idx
    before h = omega arith

-- `decodeLEB128`, unsigned: the bytes returned are inside the buffer, hold the number that the
-- septets stand for, and are no more than its bits need:
-- at most `n` if the number fits `n` bytes and has no more septets than those need.
pub decode_leb128-unsigned :
    (bytes : List ℕ) (k : ℕ)
    → All IsByte bytes
    → count_septets bytes ≡ some k
    → (out : List ℕ) × (decode_leb128 bytes false ≡ some (out, k))
      × (le_value out ≡ leb_value bytes)
      × All IsByte out
      × (8 * length out < 7 * k + 8)
      × ((n : ℕ) → Narrow k (leb_value bytes) n → length out ≤ n)
unfolding decode_leb128 all_read
decode_leb128-unsigned bytes k h e =
    let (d, run, inv) = all_read-Holds bytes k h e in
    let (d', dropped, kept) = drop_zero-Kept k (leb_value bytes) d inv in
    let (same, fits, inside, few, narrow) = kept in
    let len = length-take (num_bytes d') d.result inside in
    (
      take (num_bytes d') d'.result,
      rw (e, run, dropped),
      rw same (take-value d.result (num_bytes d') (rw inv.value fits) ∙ inv.value),
      rw same (take-IsByte d.result (num_bytes d') inv.bytes),
      rw (same, len) few,
      λ n h. rw (same, len) (narrow n h),
    )
