-- ===== src/Patcher/Search.antt =====
-- `getFDEForPC` of src/patcher/safety.c on sorted FDEs.
use mathlib.Core.Path.{subst}
use kanana.Base.{
  ℕ, zero, suc, ◌+◌, ◌-◌, ◌/◌, ◌%◌, ◌^◌, ◌<◌, ◌≤◌, ◌≡◌, refl, sym, ap, ◌∙◌, inl, inr, arith, some,
  List, [], ◌∷◌, true, leb, ltb, ◌==◌, get_elem?, get_or, length, Bool-cases, ==_iff, All,
}
use kanana.Base.Memory.{get_elem?-some}
use kanana.Dwarf.Cfa.Parse.{int_to_word}
use kanana.CallFrame.{Fde}
use kanana.Patcher.Frames.{final_check, search, get_fde_for_pc}

abbrev low_of : Fde → ℕ
low_of fde = int_to_word fde.lowpc

abbrev high_of : Fde → ℕ
high_of fde = int_to_word fde.highpc

-- Ranges that follow each other without touching.
abbrev pub IsSorted : List Fde → Type 0
IsSorted [] = Unit
IsSorted (fde ∷ fdes) =
    (low_of fde ≤ high_of fde) × All (λ g. high_of fde < low_of g) fdes × IsSorted fdes

get-All :
    (P : Fde → Type 0) (fdes : List Fde) (i : ℕ) (a : Fde)
    → All P fdes
    → get_elem? fdes i ≡ some a
    → P a
get-All P [] i a h e = absurd cc
get-All P (fde ∷ fdes) zero a (h, _) e = subst P (some-injective e) h
  where
    some-injective : some fde ≡ some a → fde ≡ a
    some-injective e' = cc
get-All P (fde ∷ fdes) (suc i) a (_, hs) e = get-All P fdes i a hs e

low_high :
    (fdes : List Fde) (i : ℕ) (a : Fde)
    → IsSorted fdes
    → get_elem? fdes i ≡ some a
    → low_of a ≤ high_of a
low_high [] i a h e = absurd cc
low_high (fde ∷ fdes) zero a (h, _, _) e = let e' : fde ≡ a = cc in rw (sym e') h
low_high (fde ∷ fdes) (suc i) a (_, _, hs) e = low_high fdes i a hs e

high_low :
    (fdes : List Fde) (i j : ℕ) (a b : Fde)
    → IsSorted fdes
    → i < j
    → get_elem? fdes i ≡ some a
    → get_elem? fdes j ≡ some b
    → high_of a < low_of b
high_low [] i j a b h less ea eb = absurd cc
high_low (fde ∷ fdes) i zero a b h less ea eb = absurd (omega (arith, less))
high_low (fde ∷ fdes) zero (suc j) a b (_, after, _) less ea eb =
    let e' : fde ≡ a = cc in
    subst (λ f. high_of f < low_of b) e' (get-All (λ g. high_of fde < low_of g) fdes j b after eb)
high_low (fde ∷ fdes) (suc i) (suc j) a b (_, _, hs) less ea eb =
    high_low fdes i j a b hs (omega (arith, less)) ea eb

module _ (fdes : List Fde) (pc k : ℕ) (fde : Fde) (sorted : IsSorted fdes)
    (at_k : get_elem? fdes k ≡ some fde) (above : low_of fde ≤ pc) (below : pc ≤ high_of fde) where
  -- Where another FDE stands.
  before : (i : ℕ) (a : Fde) → get_elem? fdes i ≡ some a → pc < low_of a → k < i
  before i a at_i less = elim (Bool-cases (ltb k i)) [
    | inl e ↦ ground (arith, e)
    | inr e ↦ elim (Bool-cases (k == i)) [
      | inl same ↦
          let same' : a ≡ fde =
            some-injective (sym at_i ∙ (ap (get_elem? fdes) (sym ((==_iff k i).0 same)) ∙ at_k)) in
          absurd (omega (arith, above, less, ap low_of same'))
      | inr differ ↦
          let order = high_low fdes i k a fde sorted (ground (arith, e, differ)) at_i at_k in
          let own = low_high fdes i a sorted at_i in absurd (omega (arith, order, own, less, above))
    ]
  ]
    where
      some-injective : {f g : Fde} → some f ≡ some g → f ≡ g
      some-injective e' = cc

  behind : (i : ℕ) (a : Fde) → get_elem? fdes i ≡ some a → high_of a < pc → i < k
  behind i a at_i less = elim (Bool-cases (ltb i k)) [
    | inl e ↦ ground (arith, e)
    | inr e ↦ elim (Bool-cases (k == i)) [
      | inl same ↦
          let same' : a ≡ fde =
            some-injective (sym at_i ∙ (ap (get_elem? fdes) (sym ((==_iff k i).0 same)) ∙ at_k)) in
          absurd (omega (arith, below, less, ap high_of same'))
      | inr differ ↦
          let order = high_low fdes k i fde a sorted (ground (arith, e, differ)) at_k at_i in
          let own = low_high fdes i a sorted at_i in absurd (omega (arith, order, own, less, below))
    ]
  ]
    where
      some-injective : {f g : Fde} → some f ≡ some g → f ≡ g
      some-injective e' = cc

  inside_k : k < length fdes
  inside_k = bound fdes k at_k
    where
      bound : (gs : List Fde) (i : ℕ) → get_elem? gs i ≡ some fde → i < length gs
      bound [] i e = absurd cc
      bound (g ∷ gs) zero e = omega arith
      bound (g ∷ gs) (suc i) e = omega (arith, bound gs i e)

  -- The FDE at the middle is the one that is looked for, where it is neither above nor below.
  middle-same :
      (i : ℕ) (a : Fde) → get_elem? fdes i ≡ some a → low_of a ≤ pc → pc ≤ high_of a → i ≡ k
  middle-same i a at_i lo hi = elim (Bool-cases (ltb i k)) [
    | inl e ↦
        let order = high_low fdes i k a fde sorted (ground (arith, e)) at_i at_k in
        absurd (omega (arith, order, hi, above))
    | inr e ↦ elim (Bool-cases (ltb k i)) [
      | inl e' ↦
          let order = high_low fdes k i fde a sorted (ground (arith, e')) at_k at_i in
          absurd (omega (arith, order, lo, below))
      | inr e' ↦ ground (arith, e, e')
    ]
  ]

  final_check-found : final_check fdes pc k ≡ some (some k)
  unfolding final_check
  final_check-found =
      let lo : leb (low_of fde) pc ≡ true = ground (arith, above) in
      let hi : leb pc (high_of fde) ≡ true = ground (arith, below) in rw (at_k, lo, hi) refl

  search-found :
      (rounds low high : ℕ)
      → length fdes < 2 ^ 24
      → low ≤ k
      → k ≤ high
      → high ≤ length fdes
      → high - low < rounds
      → search fdes pc rounds low high ≡ some (some k)
  unfolding search
  search-found zero low high few hl hk hn enough = absurd (omega (arith, enough))
  search-found (suc rounds) low high few hl hk hn enough = elim (Bool-cases (high == low)) [
    | inl e ↦
        let same : low ≡ k = ground (arith, e, hl, hk) in
        rw e (ap (final_check fdes pc) same ∙ final_check-found)
    | inr e ↦
        let middle = low + (high - low) / 2 in
        let exact : low + (high + 2 ^ 64 - low) % 2 ^ 64 / 2 ≡ middle =
          omega (arith, hl, hk, hn, few) in
        let less : middle < high = ground (arith, e, hl, hk) in
        let a = get_or fdes middle fde in
        let at_middle = get_elem?-some fdes middle fde (omega (arith, less, hn)) in
        elim (Bool-cases (ltb pc (low_of a))) [
          | inl over ↦
              let k_before = before middle a at_middle (ground (arith, over)) in
              let down : (middle + 2 ^ 64 - 1) % 2 ^ 64 ≡ middle - 1 =
                omega (arith, k_before, less, hn, few) in
              rw (e, exact, at_middle, over, down)
                (search-found rounds low (middle - 1) few hl (omega (arith, k_before))
                  (omega (arith, less, hn)) (omega (arith, less, enough, k_before)))
          | inr over ↦ elim (Bool-cases (ltb (high_of a) pc)) [
            | inl under ↦
                let k_behind = behind middle a at_middle (ground (arith, under)) in
                rw (e, exact, at_middle, over, under)
                  (search-found rounds (middle + 1) high few (omega (arith, k_behind)) hk hn
                    (omega (arith, less, enough)))
            | inr under ↦
                let same =
                  middle-same middle a at_middle (ground (arith, over)) (ground (arith, under)) in
                rw (e, exact, at_middle, over, under) (ap (λ i. some (some i)) same)
          ]
        ]
  ]

  -- For a place inside an FDE, among fewer than 2 ^ 24 FDEs whose ranges are in order and do not touch,
  -- `getFDEForPC` ends and finds that FDE, and reads no FDE outside them.
  pub get_fde_for_pc-found : length fdes < 2 ^ 24 → get_fde_for_pc fdes pc ≡ some (some k)
  unfolding get_fde_for_pc
  get_fde_for_pc-found few =
      search-found (suc (length fdes)) 0 (length fdes) few (omega arith) (omega (arith, inside_k))
        (omega arith) (omega arith)
