-- ===== src/DwarfVm/Initial.antt =====
-- Which call frame instructions `evaluateInstructionsToRules` of src/dwarfvm.c takes to their end.
use kanana.Base.{
  ℕ, zero, suc, ◌≡◌, refl, Option, none, some, List, [], ◌∷◌, map, Bool, true, false, length,
}
use kanana.Dwarf.Cfa.Frame.{
  FrameInstr, advance, advance_one, advance_four, offset_at, in_register, cfa_at, cfa_register,
  cfa_offset, args_size, undefined_reg, restored, remember, recall, cfa_expression, reg_expression,
  reg_val_expression, reg_instruction,
}
use kanana.DwarfVm
use kanana.DwarfVm.{
  pop_state, Cie, VmState, evaluate_instructions_to_rules, proceed, move, rule_step, set_rule,
  new_rule, rule_reg, str_for_reg, key_of_type,
}
use kanana.DwarfVm.Dictionary.{RuleDict}
use kanana.DwarfVm.Rules.{pop_state_lem}

abbrev pub ends {ℓ} : {A : Type ℓ} → Option A → Bool
ends none = false
ends (some _) = true

-- From a stack of remembered rules of some height: a DW_CFA_restore_state needs one, and a DW_CFA_restore,
-- DW_CFA_advance_loc4, DW_CFA_GNU_args_size and DW_CFA_def_cfa_expression are never taken.
abbrev pub evaluable : ℕ → List FrameInstr → Bool
evaluable height [] = true
evaluable height (remember ∷ fs) = evaluable (suc height) fs
evaluable zero (recall ∷ fs) = false
evaluable (suc height) (recall ∷ fs) = evaluable height fs
evaluable height (restored r ∷ fs) = false
evaluable height (advance_four n ∷ fs) = false
evaluable height (args_size n ∷ fs) = false
evaluable height (cfa_expression is ∷ fs) = false
evaluable height (advance n ∷ fs) = evaluable height fs
evaluable height (advance_one n ∷ fs) = evaluable height fs
evaluable height (offset_at r n ∷ fs) = evaluable height fs
evaluable height (in_register r r' ∷ fs) = evaluable height fs
evaluable height (cfa_at r n ∷ fs) = evaluable height fs
evaluable height (cfa_register r ∷ fs) = evaluable height fs
evaluable height (cfa_offset n ∷ fs) = evaluable height fs
evaluable height (undefined_reg r ∷ fs) = evaluable height fs
evaluable height (reg_expression r is ∷ fs) = evaluable height fs
evaluable height (reg_val_expression r is ∷ fs) = evaluable height fs

module _ {D : Type 0} (dict : RuleDict D) (cie : Cie) where
  pub evaluate-ends :
      (fs : List FrameInstr) (loc : ℕ) (rules : D) (saved : List D)
      → ends (
          evaluate_instructions_to_rules dict cie none
            (map reg_instruction fs)
            loc
            (record { rules = rules; saved = saved }))
        ≡ evaluable (length saved) fs
  unfolding evaluate_instructions_to_rules proceed move DwarfVm.advance rule_step set_rule new_rule
      rule_reg str_for_reg key_of_type
  evaluate-ends [] loc rules saved = refl
  evaluate-ends (remember ∷ fs) loc rules saved = evaluate-ends fs loc rules (rules ∷ saved)
  evaluate-ends (recall ∷ fs) loc rules [] = unfold pop_state in refl
  evaluate-ends (recall ∷ fs) loc rules (s ∷ saved) =
      let (d, run, _) = pop_state_lem dict rules s saved in rw run (evaluate-ends fs loc d saved)
  evaluate-ends (restored r ∷ fs) loc rules saved = refl
  evaluate-ends (advance_four n ∷ fs) loc rules saved = refl
  evaluate-ends (args_size n ∷ fs) loc rules saved = refl
  evaluate-ends (cfa_expression is ∷ fs) loc rules saved = refl
  evaluate-ends (advance n ∷ fs) loc rules saved = evaluate-ends fs _ rules saved
  evaluate-ends (advance_one n ∷ fs) loc rules saved = evaluate-ends fs _ rules saved
  evaluate-ends (offset_at r n ∷ fs) loc rules saved = evaluate-ends fs loc _ saved
  evaluate-ends (in_register r r' ∷ fs) loc rules saved = evaluate-ends fs loc _ saved
  evaluate-ends (cfa_at r n ∷ fs) loc rules saved = evaluate-ends fs loc _ saved
  evaluate-ends (cfa_register r ∷ fs) loc rules saved = evaluate-ends fs loc _ saved
  evaluate-ends (cfa_offset n ∷ fs) loc rules saved = evaluate-ends fs loc _ saved
  evaluate-ends (undefined_reg r ∷ fs) loc rules saved = evaluate-ends fs loc _ saved
  evaluate-ends (reg_expression r is ∷ fs) loc rules saved = evaluate-ends fs loc _ saved
  evaluate-ends (reg_val_expression r is ∷ fs) loc rules saved = evaluate-ends fs loc _ saved
