-- ===== src/DwarfVm/Assoc.antt =====
-- A dictionary of rules as a list of pairs, each key once.
use kanana.Base.{
  ◌≡◌, refl, Option, none, some, List, [], ◌∷◌, map, Bool, true, false, inl, inr, Bool-cases,
  if◌then◌else◌,
}
use kanana.Dwarf.Register.{PoReg}
use kanana.DwarfVm.Dictionary.{PoRegRule, RuleDict, same_reg, same_reg-eq, holds, is_some}

abbrev Pairs : Type 0
Pairs = List (PoReg × PoRegRule)

abbrev pub find : Pairs → PoReg → Option PoRegRule
find [] k = none
find ((k', r) ∷ ps) k = if same_reg k' k then some r else find ps k

abbrev pub put : Pairs → PoReg → PoRegRule → Pairs
put [] k r = (k, r) ∷ []
put ((k', r') ∷ ps) k r =
    let rest = put ps k r in if same_reg k' k then (k', r) ∷ ps else (k', r') ∷ rest

pub find-put :
    (ps : Pairs) (k k' : PoReg) (r : PoRegRule)
    → find (put ps k r) k' ≡ (if same_reg k k' then some r else find ps k')
find-put [] k k' r = refl
find-put ((k0, r0) ∷ ps) k k' r =
    let rec = find-put ps k k' r in
    elim (Bool-cases (same_reg k0 k)) [
      | inl e ↦ rw (e, same_reg-eq k0 k e) (replaced (same_reg k k'))
      | inr e ↦ elim (Bool-cases (same_reg k0 k')) [
        | inl e' ↦ rw (e, e') (other e e')
        | inr e' ↦ rw (e, e') rec
      ]
    ]
  where
    replaced :
        (b : Bool)
        → (if b then some r else find ps k')
          ≡ (if b then some r else (if b then some r0 else find ps k'))
    replaced true = refl
    replaced false = refl

    clash : same_reg k0 k ≡ true → same_reg k0 k ≡ false → ⊥
    clash h h' = cc

    other :
        same_reg k0 k ≡ false
        → same_reg k0 k' ≡ true
        → some r0 ≡ (if same_reg k k' then some r else some r0)
    other e e' = elim (Bool-cases (same_reg k k')) [
      | inl same ↦ absurd (clash (rw (same_reg-eq k k' same) e') e)
      | inr differ ↦ rw differ refl
    ]

pub keys-find : (ps : Pairs) (k : PoReg) → holds k (map (λ p. p.0) ps) ≡ is_some (find ps k)
keys-find [] k = refl
keys-find ((k', r) ∷ ps) k =
    let rec = keys-find ps k in
    elim (Bool-cases (same_reg k' k)) [ inl e ↦ rw e refl | inr e ↦ rw e rec ]

abbrev pub pairs_dict : RuleDict Pairs
pairs_dict = record {
  get = find;
  set = put;
  keys = map (λ p. p.0);
  get-set = find-put;
  keys-get = keys-find;
}
