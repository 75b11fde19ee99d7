-- ===== src/ExceptTable/Fits.antt =====
-- The offset of the type table's end in src/exceptTable.c fits the room left for it.
use kanana.Base.{
  ℕ, suc, ◌+◌, ◌-◌, ◌%◌, ◌^◌, ◌<◌, ◌≤◌, ◌≡◌, ◌⊎◌, inl, inr, refl, sym, ap, ◌∙◌, arith, some, List,
  ◌++◌, true, false, ltb, ◌==◌, if◌then◌else◌, ==_iff, Bool-cases, length, All, take, take-length,
}
use kanana.Base.Memory.{IsByte}
use kanana.Leb.{encode_as_leb128, decode_leb128}
use kanana.Leb.Value.{uleb, le_value}
use kanana.Leb.Words.{le_bytes}
use kanana.Leb.Words.Laws.{encode-le_bytes}
use kanana.Leb.RoundTrip.{uleb-leb_value, uleb-count, uleb-IsByte}
use kanana.Leb.Result.{decode_leb128-unsigned}
use kanana.ExceptTable.{TtBase, tt_base, misalignment, found_room, widened}
use kanana.ExceptTable.Room.{length-uleb_add, found_room-length}
use kanana.ExceptTable.Wide.{
  wide, widened-wide, length-wide, wide-count, wide-leb_value, wide-IsByte,
}

pub misalignment_bounds : (n : ℕ) → (misalignment n ≤ 3) × ((n + misalignment n) % 4 ≡ 0)
unfolding misalignment
misalignment_bounds n = ground arith

-- Bytes that decodeLEB128 reads as a number, whatever bytes follow.
abbrev pub Reads : List ℕ → ℕ → Type 0
Reads bytes v =
    (rest : List ℕ)
    → All IsByte rest
    → (out : List ℕ) × (decode_leb128 (bytes ++ rest) false ≡ some (out, length bytes))
      × (le_value out ≡ v)

Reads-uleb : (k v : ℕ) → v < 128 ^ suc k → Reads (uleb k v) v
Reads-uleb k v h rest hr =
    let (out, run, same, _, _, _) =
      decode_leb128-unsigned (uleb k v ++ rest) (length (uleb k v)) (uleb-IsByte k v rest h hr)
        (uleb-count k v rest h) in
    (out, run, same ∙ uleb-leb_value k v rest h)

Reads-wide : (k v : ℕ) → v < 128 ^ suc k → Reads (wide k v) v
Reads-wide k v h rest hr =
    let (out, run, same, _, _, _) =
      decode_leb128-unsigned (wide k v ++ rest) (length (wide k v)) (wide-IsByte k v rest h hr)
        (wide-count k v rest h) in
    (out, run, same ∙ wide-leb_value k v rest h)

-- The septets of the final number are as many as the room, or one fewer.
HasRoom : (k v m : ℕ) → m ≤ 3 → ℕ → Type 0
HasRoom k v m h space = (length (uleb k (v + m)) ≡ space) ⊎ (space ≡ suc (length (uleb k (v + m))))

HasRoom-one :
    (k v m space : ℕ) (h : m ≤ 3)
    → space ≡ (if found_room (uleb k v) then length (uleb k v) else length (uleb k v) + 1)
    → HasRoom k v m h space
unfolding HasRoom
HasRoom-one k v m space h e = elim (Bool-cases (found_room (uleb k v))) [
  | inl found ↦ inl (found_room-length k v m h found ∙ sym (rw found at e))
  | inr full ↦
      let (low, high) = length-uleb_add k v m h in
      let e' : space ≡ length (uleb k v) + 1 = rw full at e in
      elim (Bool-cases (length (uleb k (v + m)) == space)) [
        | inl same ↦ inl ((==_iff _ _).0 same)
        | inr less ↦ inr (ground (arith, low, high, e'))
      ]
]

module _ (before guess tt_size space moved k : ℕ) where
  tt_base-lem :
      encode_as_leb128 (le_bytes 8 guess) false ≡ some (uleb k guess)
      → encode_as_leb128 (le_bytes 8 (guess + moved)) false ≡ some (uleb k (guess + moved))
      → (if found_room (uleb k guess) then length (uleb k guess) else length (uleb k guess) + 1)
        ≡ space
      → misalignment (before + space + (guess - tt_size)) ≡ moved
      → guess + moved < 128 ^ suc k
      → (length (uleb k (guess + moved)) ≡ space) ⊎ (space ≡ suc (length (uleb k (guess + moved))))
      → (base : TtBase) × (tt_base before guess tt_size ≡ some base)
        × (base.moved ≡ moved)
        × (length base.offset_bytes ≡ space)
        × Reads base.offset_bytes (guess + moved)
  unfolding tt_base
  tt_base-lem enc enc' sp mv fits (inl same) =
      let v = guess + moved in
      let whole : ltb (length (uleb k v)) space ≡ false = ground (arith, same) in
      (
        record { offset_bytes = uleb k v; moved = moved },
        rw (enc, sp, mv, enc', whole)
            (ap (λ (bs : List ℕ). some (record { offset_bytes = bs; moved = moved }))
              (ap (λ n. take n (uleb k v)) (sym same) ∙ take-length (uleb k v))),
        refl,
        same,
        Reads-uleb k v fits,
      )
  tt_base-lem enc enc' sp mv fits (inr one_less) =
      let v = guess + moved in
      let narrow : ltb (length (uleb k v)) space ≡ true = ground (arith, one_less) in
      let widening : widened (uleb k v) space ≡ some (wide k v) =
        ap (widened (uleb k v)) one_less ∙ widened-wide k v fits in
      (
        record { offset_bytes = wide k v; moved = moved },
        rw (enc, sp, mv, enc', narrow, widening) refl,
        refl,
        length-wide k v ∙ sym one_less,
        Reads-wide k v fits,
      )

-- The offset of the type table's end, which is encoded twice since its size decides where the table comes
-- to stand: the number in the end takes the room that was left for it, or one byte less and is widened. The
-- bytes written are then as many as was counted on, decodeLEB128 reads them as the offset, whatever follows,
-- and the type table is moved by three bytes at most, to a multiple of four behind the LSDA's start.
pub tt_base-Reads :
    (before guess tt_size : ℕ)
    → guess < 2 ^ 63
    → (base : TtBase) × (tt_base before guess tt_size ≡ some base)
      × Reads base.offset_bytes (guess + base.moved)
      × (base.moved ≤ 3)
      × ((before + length base.offset_bytes + (guess - tt_size) + base.moved) % 4 ≡ 0)
tt_base-Reads before guess tt_size h =
    let k : ℕ = 10 in
    let space : ℕ =
      if found_room (uleb k guess) then length (uleb k guess) else length (uleb k guess) + 1 in
    let moved = misalignment (before + space + (guess - tt_size)) in
    let (few, aligned) = misalignment_bounds (before + space + (guess - tt_size)) in
    let (enc, _) = encode-le_bytes 8 guess (omega arith) (omega (arith, h)) in
    let (enc', wide_enough) =
      encode-le_bytes 8 (guess + moved) (omega arith) (omega (arith, h, few)) in
    let (base, run, m, size, reads) =
      tt_base-lem before guess tt_size space moved k enc enc' refl refl wide_enough
        (unfold HasRoom in HasRoom-one k guess moved space few refl) in
    (base, run, rw m reads, rw m few, rw (m, size) aligned)
