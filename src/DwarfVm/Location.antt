-- ===== src/DwarfVm/Location.antt =====
-- Where `evaluateInstructionsToRules` of src/dwarfvm.c stops.
use kanana.Base.{
  ℕ, ◌+◌, ◌%◌, ◌^◌, ◌≤◌, ◌<◌, ◌≡◌, inl, inr, refl, ap, ◌∙◌, arith, Option, none, some, List, [],
  ◌∷◌, false, ltb, Bool-cases,
}
use kanana.Dwarf.Cfa.{CfaOp, RegInstruction, set_loc, advance_loc, advance_loc1, advance_loc2}
use kanana.Dwarf.Cfa.Parse.{int_to_word}
use kanana.DwarfVm.{
  Cie, Move, stays, stops, moves, move, advance, VmState, rule_step, proceed,
  evaluate_instructions_to_rules,
}
use kanana.DwarfVm.Dictionary.{RuleDict}

-- A move that does not pass a location.
abbrev Within : ℕ → Move → Type 0
Within stop stays = Unit
Within stop stops = Unit
Within stop (moves loc) = loc ≤ stop

not-past : (a b : ℕ) → ltb a b ≡ false → b ≤ a
not-past a b e = ground arith

advance-Within :
    (cie : Cie) (stop loc delta : ℕ)
    → cie.code_align ≡ 1
    → stop < 2 ^ 31
    → loc ≤ stop
    → Within stop (advance cie (some stop) loc delta)
unfolding advance
advance-Within cie stop loc delta one hs hl =
    elim (Bool-cases (ltb stop ((int_to_word loc + delta) % 2 ^ 64))) [
      | inl e ↦ rw e tt
      | inr e ↦
          let same : int_to_word loc ≡ loc = ground arith in
          let near : (loc + delta) % 2 ^ 64 ≤ stop = rw same at (not-past _ _ e) in
          rw (e, one) (omega (arith, near, hs))
    ]

move-Within :
    (cie : Cie) (stop loc : ℕ) (i : RegInstruction) (o : CfaOp)
    → cie.code_align ≡ 1
    → stop < 2 ^ 31
    → loc ≤ stop
    → Within stop (move cie (some stop) loc i o)
unfolding move
move-Within cie stop loc i set_loc one hs hl = elim (Bool-cases (ltb stop i.arg1)) [
  | inl e ↦ rw e tt
  | inr e ↦ rw e (omega (arith, not-past _ _ e, hs))
]
move-Within cie stop loc i advance_loc one hs hl = advance-Within cie stop loc i.arg1 one hs hl
move-Within cie stop loc i advance_loc1 one hs hl = advance-Within cie stop loc i.arg1 one hs hl
move-Within cie stop loc i advance_loc2 one hs hl = advance-Within cie stop loc i.arg1 one hs hl
move-Within cie stop loc i _ one hs hl = tt

some-fst : {A : Type 0} (p q : ℕ × A) → some p ≡ some q → p.0 ≡ q.0
some-fst p q h = let same : p ≡ q = cc in ap (λ r. r.0) same

module _ {D : Type 0} (dict : RuleDict D) where
  -- One round: if the rest stays within the stop location, so does all of it.
  proceed-le :
      (stop loc loc' : ℕ) (st st' : VmState dict) (next : Option (VmState dict))
      (go : ℕ → VmState dict → Option (ℕ × VmState dict)) (m : Move)
      → loc ≤ stop
      → Within stop m
      → ((l : ℕ) (s : VmState dict) → l ≤ stop → go l s ≡ some (loc', st') → loc' ≤ stop)
      → proceed dict m loc st next go ≡ some (loc', st')
      → loc' ≤ stop
  unfolding proceed
  proceed-le stop loc loc' st st' next go stops hl hm hgo h =
      rw (some-fst (loc, st) (loc', st') h) at hl
  proceed-le stop loc loc' st st' next go (moves l) hl hm hgo h = hgo l st hm h
  proceed-le stop loc loc' st st' none go stays hl hm hgo h = cc
  proceed-le stop loc loc' st st' (some s) go stays hl hm hgo h = hgo loc s hl h

  evaluate-end :
      (cie : Cie) (stop loc : ℕ) (st st' : VmState dict) (loc' : ℕ)
      → evaluate_instructions_to_rules dict cie (some stop) [] loc st ≡ some (loc', st')
      → loc ≡ loc'
  unfolding evaluate_instructions_to_rules
  evaluate-end cie stop loc st st' loc' h = some-fst (loc, st) (loc', st') h

  evaluate-step :
      (cie : Cie) (stop loc : ℕ) (i : RegInstruction) (is : List RegInstruction) (st : VmState dict)
      → proceed dict
          (move cie (some stop) loc i i.type)
          loc
          st
          (rule_step dict cie i i.type st)
          (evaluate_instructions_to_rules dict cie (some stop) is)
        ≡ evaluate_instructions_to_rules dict cie (some stop) (i ∷ is) loc st
  unfolding evaluate_instructions_to_rules
  evaluate-step cie stop loc i is st = refl

  -- With a code alignment of one, evaluation from a location up to the stop location, an int that is
  -- not negative, never comes to rest past it, whatever the instructions are.
  pub evaluate-le :
      (cie : Cie) (stop : ℕ) (is : List RegInstruction) (loc loc' : ℕ) (st st' : VmState dict)
      → cie.code_align ≡ 1
      → stop < 2 ^ 31
      → loc ≤ stop
      → evaluate_instructions_to_rules dict cie (some stop) is loc st ≡ some (loc', st')
      → loc' ≤ stop
  evaluate-le cie stop [] loc loc' st st' one hs hl h =
      rw (evaluate-end cie stop loc st st' loc' h) at hl
  evaluate-le cie stop (i ∷ is) loc loc' st st' one hs hl h =
      proceed-le stop loc loc' st st' _ (evaluate_instructions_to_rules dict cie (some stop) is)
        (move cie (some stop) loc i i.type) hl (move-Within cie stop loc i i.type one hs hl)
        (λ l s hl' run. evaluate-le cie stop is l loc' s st' one hs hl' run)
        (evaluate-step cie stop loc i is st ∙ h)
