-- ===== src/Leb/Total.antt =====
-- The encoder of src/leb.c returns on every object that is not empty, signed or not.
use kanana.Base.{
  ℕ, zero, suc, ◌+◌, ◌-◌, ◌*◌, ◌%◌, ◌<◌, ◌≤◌, ◌≡◌, refl, ap, ◌∙◌, arith, List, [], ◌∷◌, some, leb,
  ◌==◌, ◌&&◌, bit_and, if◌then◌else◌, length, All, inl, inr, Bool, true, false, Bool-cases, bit_or,
  get_or, length-set, length-take, take, set,
}
use kanana.Base.Memory.{IsByte, get_elem?-some, store-some, ◌>>=◌}
use kanana.Leb.{
  num_septets, last_septet, encode_loop, encode_as_leb128_no_optimization, trim_signs, finish,
  encode_as_leb128,
}
use kanana.Leb.Septets.{septet_at_lem, tail_value}

last_septet-some :
    (bytes : List ℕ) (signed : Bool) (val : ℕ)
    → 0 < length bytes
    → (b : ℕ) × (last_septet bytes signed val ≡ some b)
unfolding last_septet
last_septet-some bytes signed val h =
    rw (get_elem?-some bytes (length bytes - 1) 0 (omega arith)) (_, refl)

-- The septet written at a place: the last one, or one that is not.
septet_out :
    (bytes : List ℕ) (signed last : Bool) (val : ℕ)
    → 0 < length bytes
    → (b : ℕ) × ((if last then last_septet bytes signed val else some (bit_or val 0x80)) ≡ some b)
septet_out bytes signed true val h = last_septet-some bytes signed val h
septet_out bytes signed false val h = (bit_or val 0x80, refl)

encode_loop-some :
    (n i s : ℕ) (bytes : List ℕ) (signed : Bool)
    → All IsByte bytes
    → s < 8
    → 8 * i + s + 7 * n < 8 * length bytes + 7
    → (out : List ℕ) × (encode_loop n bytes signed i s ≡ some out) × (length out ≡ n)
unfolding encode_loop
encode_loop-some zero i s bytes signed h hs room = ([], refl, refl)
encode_loop-some (suc n) i s bytes signed h hs room =
    let here = septet_at_lem bytes i s h (omega arith) hs in
    let (b, written) =
      septet_out bytes signed (n == 0) (tail_value bytes i s % 128) (omega arith) in
    elim (Bool-cases (leb 8 (s + 7))) [
      | inl wraps ↦
          let (out, run, len) =
            encode_loop-some n (i + 1) (s + 7 - 8) bytes signed h (omega arith) (ground arith) in
          (b ∷ out, rw (here, written, wraps, run) refl, ap suc len)
      | inr stays ↦
          let (out, run, len) =
            encode_loop-some n i (s + 7) bytes signed h (ground arith) (ground arith) in
          (b ∷ out, rw (here, written, stays, run) refl, ap suc len)
    ]

trim_signs-some :
    (ext six : ℕ) (result : List ℕ) (n : ℕ)
    → n < length result
    → (m : ℕ) × (trim_signs ext six result (suc n) ≡ some (suc m)) × (m ≤ n)
unfolding trim_signs
trim_signs-some ext six result zero h = (0, refl, omega arith)
trim_signs-some ext six result (suc n) h =
    let (m, run, few) = trim_signs-some ext six result n (omega arith) in
    let top = get_elem?-some result (suc n) 0 h in
    let below = get_elem?-some result n 0 (omega arith) in
    elim (Bool-cases
      (bit_and (get_or result (suc n) 0) 0x7f == ext && bit_and (get_or result n 0) 0x40 == six)) [
        | inl copy ↦ (m, rw (top, below, copy) run, omega (arith, few))
        | inr kept ↦ (suc n, rw (top, below, kept) refl, omega arith)
      ]

finish-some :
    (result : List ℕ) (m : ℕ)
    → m < length result
    → (out : List ℕ) × (finish result (suc m) ≡ some out) × (length out ≡ suc m)
unfolding finish
finish-some result m h =
    let b = bit_and (get_or result m 0) 0x7f in
    (
      take (suc m) (set result m b),
      rw (get_elem?-some result m 0 h, store-some result m b h) refl,
      length-take (suc m) (set result m b) (omega (arith, length-set result m b)),
    )

trim_and_finish :
    (ext six : ℕ) (result : List ℕ)
    → 0 < length result
    → (out : List ℕ) × ((trim_signs ext six result (length result) >>= finish result) ≡ some out)
      × (0 < length out)
trim_and_finish ext six [] h = absurd (omega arith)
trim_and_finish ext six (b ∷ bs) h =
    let (m, trimmed, few) = trim_signs-some ext six (b ∷ bs) (length bs) (omega arith) in
    let (out, written, size) = finish-some (b ∷ bs) m (omega (arith, few)) in
    (out, ap (λ o. o >>= finish (b ∷ bs)) trimmed ∙ written, omega (arith, size))

-- `encodeAsLEB128`, signed, of a nonempty object reads only inside the object and writes a septet at least.
pub encode_as_leb128-signed_some :
    (bytes : List ℕ)
    → All IsByte bytes
    → 0 < length bytes
    → (written : List ℕ) × (encode_as_leb128 bytes true ≡ some written) × (0 < length written)
unfolding encode_as_leb128 encode_as_leb128_no_optimization
encode_as_leb128-signed_some bytes h pos =
    let (result, run, len) =
      encode_loop-some (num_septets (length bytes)) 0 0 bytes true h (omega arith) (omega arith) in
    let positive = bit_and (get_or bytes (length bytes - 1) 0) 0x80 == 0 in
    let (out, written, size) =
      trim_and_finish (if positive then 0 else 0x7f) (if positive then 0 else 0x40) result
        (omega (arith, len)) in
    (out, rw (run, get_elem?-some bytes (length bytes - 1) 0 (omega arith)) written, size)
