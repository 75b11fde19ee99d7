-- ===== src/DwarfVm.antt =====
-- The register rules of src/dwarfvm.c: `evaluateInstructionsToRules`, with the dictionary of rules of
-- src/util/dictionary.c as an interface and the keys of src/register.c's strForReg.
pub mod Dictionary
pub mod Rules
pub mod Initial
pub mod Location
pub mod Assoc
pub mod Table
pub mod Evaluate
pub mod Sums
mod Tests
use kanana.Base.{
  ℕ, zero, suc, ◌+◌, ◌-◌, ◌*◌, ◌%◌, ◌^◌, ◌≡◌, ◌≢◌, Option, none, some, List, [], ◌∷◌, Bool, true,
  false, ltb, leb, ◌==◌, ◌&&◌, if◌then◌else◌,
}
use kanana.Base.Memory.{◌>>=◌}
use kanana.Dwarf.Register.{
  PoReg, RegType, unused, basic, curr_targ_new, curr_targ_old, expr, old_sym_val, new_sym_val, cfa,
  no_reg,
}
use kanana.Dwarf.Cfa.{
  CfaOp, RegInstruction, nop, offset, restore, undefined, register, def_cfa, def_cfa_register,
  def_cfa_offset, expression, val_expression, katana_fixups, katana_fixups_pointer, set_loc,
  advance_loc, advance_loc1, advance_loc2, remember_state, restore_state,
}
use kanana.Dwarf.Cfa.Parse.{int_to_word}
use kanana.DwarfVm.Dictionary.{
  RuleType, by_default, by_offset, by_register, by_cfa, recurse_fixup, recurse_fixup_pointer,
  PoRegRule, RuleDict,
}

-- The key of a register is a string that names its type and the fields of that type; it stands here
-- as the register with the other fields cleared. The names of registers are those of x86-64.
unfoldable pub key_of_type : RegType → PoReg → Option PoReg
key_of_type unused reg = none
key_of_type curr_targ_old reg = some reg
key_of_type curr_targ_new reg = some reg
key_of_type cfa reg = some (record no_reg { type = cfa })
key_of_type t reg = some (record reg { size = 0 })

unfoldable pub str_for_reg : PoReg → Option PoReg
str_for_reg reg = key_of_type reg.type reg

-- The fields of a CIE that the machine reads; the signed one is its bit pattern.
pub record Cie : Type 0 where
  pub code_align : ℕ
  pub data_align : ℕ

-- The register whose rule an instruction is about.
unfoldable pub rule_reg : CfaOp → RegInstruction → PoReg
rule_reg def_cfa i = record no_reg { type = cfa }
rule_reg def_cfa_register i = record no_reg { type = cfa }
rule_reg def_cfa_offset i = record no_reg { type = cfa }
rule_reg _ i = i.arg1_reg

-- What the instruction makes of the rule. An offset is an int. DW_CFA_restore looks up the string of
-- its register after it is freed.
unfoldable pub new_rule : Cie → RegInstruction → CfaOp → PoRegRule → Option PoRegRule
new_rule cie i undefined rule = some (record rule { type = by_default })
new_rule cie i offset rule =
    some (record rule { type = by_offset; offset = i.arg2 * cie.data_align % 2 ^ 32 })
new_rule cie i register rule = some (record rule { type = by_register; reg_rh = i.arg2_reg })
new_rule cie i def_cfa rule =
    some (record rule { type = by_cfa; reg_rh = i.arg1_reg; offset = i.arg2 % 2 ^ 32 })
new_rule cie i def_cfa_register rule = some (record rule { type = by_cfa; reg_rh = i.arg1_reg })
new_rule cie i def_cfa_offset rule = some (record rule { type = by_cfa; offset = i.arg1 % 2 ^ 32 })
new_rule cie i katana_fixups rule =
    some (record rule { type = recurse_fixup; reg_rh = i.arg2_reg; index = i.arg3 })
new_rule cie i katana_fixups_pointer rule =
    some (record rule { type = recurse_fixup_pointer; reg_rh = i.arg2_reg; index = i.arg3 })
new_rule cie i expression rule = some rule
new_rule cie i val_expression rule = some rule
new_rule cie i nop rule = some rule
new_rule cie i _ rule = none

-- A zeroed rule for a register.
abbrev pub zero_rule : PoReg → PoRegRule
zero_rule reg = record { reg_lh = reg; type = by_default; reg_rh = no_reg; offset = 0; index = 0 }

abbrev pub rule_or_zero : PoReg → Option PoRegRule → PoRegRule
rule_or_zero reg none = zero_rule reg
rule_or_zero reg (some rule) = rule

-- Where an instruction takes the location: an int, compared as a word with a stop location that is
-- not negative. `none` is an instruction that is not about the location.
pub data Move : Type 0 where
  stays stops : Move
  moves : ℕ → Move

abbrev pub past : ℕ → Option ℕ → Bool
past word none = false
past word (some stop) = ltb stop word

unfoldable pub advance : Cie → Option ℕ → ℕ → ℕ → Move
advance cie stop loc delta =
    if past ((int_to_word loc + delta) % 2 ^ 64) stop
    then stops
    else moves ((loc + delta * cie.code_align) % 2 ^ 32)

unfoldable pub move : Cie → Option ℕ → ℕ → RegInstruction → CfaOp → Move
move cie stop loc i set_loc = if past i.arg1 stop then stops else moves (i.arg1 % 2 ^ 32)
move cie stop loc i advance_loc = advance cie stop loc i.arg1
move cie stop loc i advance_loc1 = advance cie stop loc i.arg1
move cie stop loc i advance_loc2 = advance cie stop loc i.arg1
move cie stop loc i _ = stays

module _ {D : Type 0} (dict : RuleDict D) where
  -- The rules, and the stack of remembered rules, which is one for the program.
  pub record VmState : Type 0 where
    pub rules : D
    pub saved : List D

  -- The loop over the keys of the saved rules.
  unfoldable pub restore_rules : List PoReg → D → D → Option D
  restore_rules [] saved rules = some rules
  restore_rules (k ∷ ks) saved rules = do
    rule ← dict.get saved k
    restore_rules ks saved (dict.set rules k rule)

  unfoldable pub pop_state : VmState → Option VmState
  pop_state st = elim st.saved [
    | [] ↦ none
    | saved ∷ rest ↦ do
      rules ← restore_rules (dict.keys saved) saved st.rules
      some (record { rules = rules; saved = rest })
  ]

  unfoldable pub set_rule : Cie → RegInstruction → VmState → Option VmState
  set_rule cie i st = do
    k ← str_for_reg (rule_reg i.type i)
    let old = rule_or_zero (rule_reg i.type i) (dict.get st.rules k)
    rule ← new_rule cie i i.type old
    some (record st { rules = dict.set st.rules k rule })

  unfoldable pub rule_step : Cie → RegInstruction → CfaOp → VmState → Option VmState
  rule_step cie i remember_state st = some (record st { saved = st.rules ∷ st.saved })
  rule_step cie i restore_state st = pop_state st
  rule_step cie i _ st = set_rule cie i st

  -- One round of the loop: `next` is the state that the instruction's rule leaves, `go` the rest.
  unfoldable pub proceed :
      Move
      → ℕ
      → VmState
      → Option VmState
      → (ℕ → VmState → Option (ℕ × VmState))
      → Option (ℕ × VmState)
  proceed stops loc st next go = some (loc, st)
  proceed (moves loc') loc st next go = go loc' st
  proceed stays loc st next go = next >>= go loc

  -- The location stopped at, and the state there.
  unfoldable pub evaluate_instructions_to_rules :
      Cie → Option ℕ → List RegInstruction → ℕ → VmState → Option (ℕ × VmState)
  unfolding proceed
  evaluate_instructions_to_rules cie stop [] loc st = some (loc, st)
  evaluate_instructions_to_rules cie stop (i ∷ is) loc st =
      proceed (move cie stop loc i i.type) loc st (rule_step cie i i.type st)
        (evaluate_instructions_to_rules cie stop is)
