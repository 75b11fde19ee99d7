-- ===== src/DwarfVm/Rules.antt =====
-- What `evaluateInstructionsToRules` of src/dwarfvm.c makes of the rules.
use kanana.Base.{
  ℕ, ◌≡◌, refl, sym, ap, ◌∙◌, arith, Option, none, some, List, [], ◌∷◌, ◌++◌, Bool, true, false,
  ◌||◌, inl, inr, ◌⊎◌, Bool-cases, Option-cases, All, if◌then◌else◌,
}
use kanana.Base.Memory.{◌>>=◌}
use kanana.Dwarf.Register.{PoReg}
use kanana.Dwarf.Cfa.{
  CfaOp, RegInstruction, remember_state, restore_state, set_loc, advance_loc, advance_loc1,
  advance_loc2,
}
use kanana.Dwarf.Cfa.Parse.{blank}
use kanana.DwarfVm.{
  Cie, stays, moves, move, VmState, restore_rules, pop_state, rule_step, proceed,
  evaluate_instructions_to_rules, advance,
}
use kanana.DwarfVm.Dictionary.{
  PoRegRule, RuleDict, same_reg, same_reg-eq, same_reg_refl, holds, is_some,
}

-- What a restored register has: the saved rule, or the one it had if none was saved.
abbrev pub or_else : Option PoRegRule → Option PoRegRule → Option PoRegRule
or_else none rule = rule
or_else (some saved) rule = some saved

is_some-some : (o : Option PoRegRule) → is_some o ≡ true → (rule : PoRegRule) × (o ≡ some rule)
is_some-some none h = cc
is_some-some (some rule) h = (rule, refl)

module _ {D : Type 0} (dict : RuleDict D) where
  abbrev chosen : Bool → PoReg → D → D → Option PoRegRule
  chosen b k saved rules = if b then dict.get saved k else dict.get rules k

  -- Every key is one of the saved rules.
  abbrev AllSaved : List PoReg → D → Type 0
  AllSaved ks saved = All (λ k. is_some (dict.get saved k) ≡ true) ks

  chosen-set :
      (k0 k : PoReg) (rule : PoRegRule) (b : Bool) (saved rules : D)
      → dict.get saved k0 ≡ some rule
      → chosen b k saved (dict.set rules k0 rule) ≡ chosen (same_reg k0 k || b) k saved rules
  chosen-set k0 k rule true saved rules h = elim (Bool-cases (same_reg k0 k)) [
    | inl e ↦ rw e refl
    | inr e ↦ rw e refl
  ]
  chosen-set k0 k rule false saved rules h = elim (Bool-cases (same_reg k0 k)) [
    | inl e ↦ rw (dict.get-set rules k0 k rule, e) (sym (rw (same_reg-eq k0 k e) at h))
    | inr e ↦ rw (dict.get-set rules k0 k rule, e) refl
  ]

  restore_rules_lem :
      (ks : List PoReg) (saved rules : D)
      → AllSaved ks saved
      → (d : D) × (restore_rules dict ks saved rules ≡ some d)
        × ((k : PoReg) → dict.get d k ≡ chosen (holds k ks) k saved rules)
  unfolding restore_rules
  restore_rules_lem [] saved rules _ = (rules, refl, λ k. refl)
  restore_rules_lem (k0 ∷ ks) saved rules (h, hs) =
      let (rule, e) = is_some-some (dict.get saved k0) h in
      let (d, run, same) = restore_rules_lem ks saved (dict.set rules k0 rule) hs in
      (d, rw e run, λ k. same k ∙ chosen-set k0 k rule (holds k ks) saved rules e)

  keys-AllSaved :
      (ks : List PoReg) (saved : D)
      → ((k : PoReg) → holds k ks ≡ true → is_some (dict.get saved k) ≡ true)
      → AllSaved ks saved
  keys-AllSaved [] saved sub = tt
  keys-AllSaved (k ∷ ks) saved sub =
      (sub k (rw (same_reg_refl k) refl), keys-AllSaved ks saved λ k' h. sub k' (ground arith))

  chosen-or_else :
      (k : PoReg) (saved rules : D)
      → chosen (is_some (dict.get saved k)) k saved rules
        ≡ or_else (dict.get saved k) (dict.get rules k)
  chosen-or_else k saved rules = split (dict.get saved k) refl
    where
      split :
          (o : Option PoRegRule)
          → dict.get saved k ≡ o
          → chosen (is_some o) k saved rules ≡ or_else o (dict.get rules k)
      split none e = refl
      split (some rule) e = e

  pub pop_state_lem :
      (rules s : D) (rest : List D)
      → (d : D) × (pop_state dict (record { rules = rules; saved = s ∷ rest })
          ≡ some (record { rules = d; saved = rest }))
        × ((k : PoReg) → dict.get d k ≡ or_else (dict.get s k) (dict.get rules k))
  unfolding pop_state
  pop_state_lem rules s rest =
      let (d, run, same) =
        restore_rules_lem (dict.keys s) s rules
          (keys-AllSaved (dict.keys s) s λ k h. sym (dict.keys-get s k) ∙ h) in
      (
        d,
        rw run refl,
        λ k. same k ∙ (ap (λ b. chosen b k s rules) (dict.keys-get s k) ∙ chosen-or_else k s rules),
      )

  move-none :
      (cie : Cie) (loc : ℕ) (i : RegInstruction) (o : CfaOp)
      → (move cie none loc i o ≡ stays) ⊎ ((loc' : ℕ) × (move cie none loc i o ≡ moves loc'))
  unfolding move advance
  move-none cie loc i set_loc = inr (_, refl)
  move-none cie loc i advance_loc = inr (_, refl)
  move-none cie loc i advance_loc1 = inr (_, refl)
  move-none cie loc i advance_loc2 = inr (_, refl)
  move-none cie loc i _ = inl refl

  -- Instructions in sequence, with no location to stop at.
  evaluate-append :
      (cie : Cie) (is js : List RegInstruction) (loc : ℕ) (st : VmState dict)
      → evaluate_instructions_to_rules dict cie none (is ++ js) loc st ≡ (
          evaluate_instructions_to_rules dict cie none is loc st >>= λ (loc', st').
          evaluate_instructions_to_rules dict cie none js loc' st')
  unfolding evaluate_instructions_to_rules proceed
  evaluate-append cie [] js loc st = refl
  evaluate-append cie (i ∷ is) js loc st = elim (move-none cie loc i i.type) [
    | inl e ↦ elim (Option-cases (rule_step dict cie i i.type st)) [
      | inl e' ↦ rw (e, e') refl
      | inr (st', e') ↦ rw (e, e') (evaluate-append cie is js loc st')
    ]
    | inr (loc', e) ↦ rw e (evaluate-append cie is js loc' st)
  ]

  evaluate-remember :
      (cie : Cie) (is : List RegInstruction) (loc : ℕ) (rules : D) (saved : List D)
      → evaluate_instructions_to_rules dict cie none
          (blank remember_state ∷ is)
          loc
          (record { rules = rules; saved = saved })
        ≡ evaluate_instructions_to_rules dict cie none is loc
            (record { rules = rules; saved = rules ∷ saved })
  unfolding evaluate_instructions_to_rules proceed move rule_step
  evaluate-remember cie is loc rules saved = refl

  evaluate-restore :
      (cie : Cie) (loc : ℕ) (st st' : VmState dict)
      → pop_state dict st ≡ some st'
      → evaluate_instructions_to_rules dict cie none (blank restore_state ∷ []) loc st
        ≡ some (loc, st')
  unfolding evaluate_instructions_to_rules proceed move rule_step
  evaluate-restore cie loc st st' h = rw h refl

  -- Between a DW_CFA_remember_state and its DW_CFA_restore_state stand instructions that give back the
  -- stack of remembered rules as they found it. Afterwards the location is where these have taken it,
  -- the stack is what it was, every register that had a rule has it again, and a register that had
  -- none keeps the rule that it got in between.
  pub evaluate-remember_restore :
      (cie : Cie) (is : List RegInstruction) (loc loc' : ℕ) (rules rules' : D) (saved : List D)
      → evaluate_instructions_to_rules dict cie none is loc
          (record { rules = rules; saved = rules ∷ saved })
        ≡ some (loc', record { rules = rules'; saved = rules ∷ saved })
      → (d : D) × (evaluate_instructions_to_rules dict cie none
            (blank remember_state ∷ is ++ blank restore_state ∷ [])
            loc
            (record { rules = rules; saved = saved })
          ≡ some (loc', record { rules = d; saved = saved }))
        × ((k : PoReg) → dict.get d k ≡ or_else (dict.get rules k) (dict.get rules' k))
  evaluate-remember_restore cie is loc loc' rules rules' saved h =
      let (d, pop, same) = pop_state_lem rules' rules saved in
      let inner =
        evaluate-append cie is (blank restore_state ∷ []) loc
          (record { rules = rules; saved = rules ∷ saved }) in
      let last = evaluate-restore cie loc' _ _ pop in
      (d, evaluate-remember cie _ loc rules saved ∙ (inner ∙ rw h last), same)
