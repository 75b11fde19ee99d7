-- ===== src/DwarfVm/Tests.antt =====
-- Runs of src/dwarfvm.c on a dictionary of pairs, and its theorems there.
use kanana.Base.{ℕ, ◌+◌, ◌%◌, map, ◌-◌, ◌^◌, ◌≤◌, ◌≡◌, refl, arith, none, some, List, [], ◌∷◌, ◌++◌}
use kanana.Dwarf.Register.{PoReg, basic_reg}
use kanana.Dwarf.Cfa.{RegInstruction, register, advance_loc, remember_state, restore_state}
use kanana.Dwarf.Cfa.Parse.{blank}
use kanana.DwarfVm.{
  Cie, evaluate_instructions_to_rules, proceed, move, advance, rule_step, set_rule, new_rule,
  rule_reg, str_for_reg, key_of_type, zero_rule, pop_state, restore_rules,
}
use kanana.DwarfVm.Dictionary.{PoRegRule, by_register, same_reg}
use kanana.DwarfVm.Assoc.{pairs_dict}
use kanana.DwarfVm.Table.{table_dict, empty_table}
use kanana.Util.Hash.{hash1, hash_chars}
use kanana.Util.Map.{
  map_create, map_get, map_set, map_insert, map_exists, map_keys, lookup, bucket_of, scan_from,
  scan, from, scan_next, link,
}
use kanana.Base.Memory.{◌>>=◌}
use kanana.Dwarf.Numbers.{codes}
use kanana.Dwarf.Expr.{encode_all}
use kanana.Util.GrowingBuffer.{GrowingBuffer, zeroed}
use kanana.DwarfVm.Evaluate.{evaluate_dwarf_expression}
use kanana.Dwarf.Cfa.Frame.{FrameInstr, cfa_at, offset_at, remember, recall}
use kanana.DwarfVm.Sums.{plus_uconst_of, total, evaluate_dwarf_expression-encode}
use kanana.DwarfVm.Rules.{or_else, evaluate-remember_restore}
use kanana.DwarfVm.Location.{evaluate-le}

abbrev bytewise : Cie
bytewise = record { code_align = 1; data_align = 2 ^ 32 - 8 }

abbrev by_four : Cie
by_four = record { code_align = 4; data_align = 2 ^ 32 - 4 }

abbrev in_reg : ℕ → ℕ → RegInstruction
in_reg r r' = record (blank register) { arg1_reg = basic_reg r; arg2_reg = basic_reg r' }

abbrev forward : ℕ → RegInstruction
forward n = record (blank advance_loc) { arg1 = n }

abbrev rule : ℕ → ℕ → PoRegRule
rule r r' = record (zero_rule (basic_reg r)) { type = by_register; reg_rh = basic_reg r' }

abbrev before : List (PoReg × PoRegRule)
before = (basic_reg 3, rule 3 4) ∷ []

abbrev between : List (PoReg × PoRegRule)
between = (basic_reg 3, rule 3 5) ∷ (basic_reg 6, rule 6 7) ∷ []

run_between :
    evaluate_instructions_to_rules pairs_dict bytewise none
      (in_reg 3 5 ∷ forward 2 ∷ in_reg 6 7 ∷ [])
      0
      (record { rules = before; saved = before ∷ [] })
    ≡ some (2, record { rules = between; saved = before ∷ [] })
unfolding evaluate_instructions_to_rules proceed move advance rule_step set_rule new_rule rule_reg
    str_for_reg key_of_type same_reg
run_between = refl

evaluate-remember_restore_example :
    (d : List (PoReg × PoRegRule)) × (evaluate_instructions_to_rules pairs_dict bytewise none
        (blank remember_state ∷ (in_reg 3 5 ∷ forward 2 ∷ in_reg 6 7 ∷ [])
          ++ blank restore_state ∷ [])
        0
        (record { rules = before; saved = [] })
      ≡ some (2, record { rules = d; saved = [] }))
    × ((k : PoReg)
        → pairs_dict.get d k ≡ or_else (pairs_dict.get before k) (pairs_dict.get between k))
evaluate-remember_restore_example =
    evaluate-remember_restore pairs_dict bytewise (in_reg 3 5 ∷ forward 2 ∷ in_reg 6 7 ∷ []) 0 2
      before between [] run_between

run_to_stop :
    evaluate_instructions_to_rules pairs_dict bytewise
      (some 5)
      (in_reg 3 5 ∷ forward 4 ∷ forward 4 ∷ [])
      0
      (record { rules = before; saved = [] })
    ≡ some (4, record { rules = (basic_reg 3, rule 3 5) ∷ []; saved = [] })
unfolding evaluate_instructions_to_rules proceed move advance rule_step set_rule new_rule rule_reg
    str_for_reg key_of_type same_reg
run_to_stop = refl

evaluate-le_example : 4 ≤ 5
evaluate-le_example =
    evaluate-le pairs_dict bytewise 5 (in_reg 3 5 ∷ forward 4 ∷ forward 4 ∷ []) 0 4 _ _ refl
      (omega arith) (omega arith) run_to_stop

-- With a code alignment of four the location goes past the one to stop at.
run_past_stop :
    evaluate_instructions_to_rules pairs_dict by_four
      (some 5)
      (forward 4 ∷ [])
      0
      (record { rules = []; saved = [] })
    ≡ some (16, record { rules = []; saved = [] })
unfolding evaluate_instructions_to_rules proceed move advance
run_past_stop = refl

-- The rules in the hash table: what is remembered is there again.
abbrev name : PoReg → List ℕ
name reg = reg.value ∷ []

run_in_table :
    (evaluate_instructions_to_rules
        (table_dict name)
        bytewise
        none
        (in_reg 3 4 ∷ blank remember_state ∷ in_reg 3 5 ∷ forward 2 ∷ blank restore_state ∷ [])
        0
        (record { rules = empty_table name; saved = [] })
      >>= λ (loc, st). (table_dict name).get st.rules (basic_reg 3))
    ≡ some (rule 3 4)
unfolding evaluate_instructions_to_rules proceed move advance rule_step set_rule new_rule rule_reg
    str_for_reg key_of_type same_reg map_create map_get map_set map_insert map_exists map_keys
    lookup bucket_of scan_from scan from scan_next hash1 hash_chars link pop_state restore_rules
run_in_table = refl

-- 0x105 is taken as 5, and 300 and 2 ^ 64 - 1 are added.
evaluate_dwarf_expression-encode_example :
    (buf : GrowingBuffer) × (encode_all codes (map plus_uconst_of (300 ∷ (2 ^ 64 - 1) ∷ [])) zeroed
      ≡ some buf)
    × (evaluate_dwarf_expression codes buf.bytes (0x105 ∷ [])
        ≡ some ((0x105 % 256 + total (300 ∷ (2 ^ 64 - 1) ∷ [])) % 2 ^ 64))
evaluate_dwarf_expression-encode_example =
    evaluate_dwarf_expression-encode codes (record { is_byte = omega arith; case_of = refl })
      (300 ∷ (2 ^ 64 - 1) ∷ []) 0x105 (omega arith, (omega arith, tt))

-- The second DW_CFA_restore_state has nothing to restore.
abbrev unbalanced : List FrameInstr
unbalanced = cfa_at 7 16 ∷ remember ∷ offset_at 6 2 ∷ recall ∷ recall ∷ []
