-- ===== src/ExceptTable/Returns.antt =====
-- `buildExceptTableRawData` of src/exceptTable.c writes every action table whose links stay inside it.
use kanana.Base.{
  ℕ, zero, suc, ◌+◌, ◌%◌, ◌^◌, ◌<◌, ◌≤◌, ◌≡◌, inl, inr, refl, sym, ap, ◌∙◌, arith, Option, some,
  List, [], ◌∷◌, not, ◌==◌, ==_iff, if◌then◌else◌, Bool-cases, length, length-replicate, get_elem?,
  get_or, replicate,
}
use mathlib.Core.Path.{subst}
use kanana.Base.Memory.{get_elem?-some}
use kanana.Dwarf.Cfa.Parse.{int_to_word}
use kanana.Util.GrowingBuffer.{GrowingBuffer, zeroed, IsBuffer}
use kanana.ExceptTable.{ActionRecord, Written, write_chain, write_actions_from, write_actions}
use kanana.ExceptTable.Chains.{
  AllLinked, get-Linked, IsWritten, ChainsEnd, after_index, chains_end, unset-le, add_uleb-Grown,
  write_chain-step, after_index-IsWritten,
}

abbrev one_action : List ActionRecord → ℕ → Written → ℕ → Option Written
one_action table j w there =
    if not (there == 0) then some w else write_chain (suc (length table)) table j w

write_actions_from-step :
    (n : ℕ) (table : List ActionRecord) (j there : ℕ) (w w' : Written)
    → get_elem? w.offsets j ≡ some there
    → one_action table j w there ≡ some w'
    → write_actions_from (suc n) table j w ≡ write_actions_from n table (suc j) w'
unfolding write_actions_from
write_actions_from-step n table j there w w' at_j run = rw (at_j, run) refl

module _ (table : List ActionRecord) (n : ℕ) (size : length table ≡ suc n)
    (linked : AllLinked table (suc n)) where
  one_action-IsWritten :
      (o j : ℕ) (os : List ℕ) (buf : GrowingBuffer)
      → length os ≡ n
      → j < n
      → IsBuffer buf
      → 0 < length buf.bytes
      → IsWritten o n
          (one_action table (suc j) (record { offsets = o ∷ os; buf = buf }) (get_or os j 0))
  one_action-IsWritten o j os buf len inside held pos = elim (Bool-cases (get_or os j 0 == 0)) [
    | inl e ↦
        let none_yet : get_elem? os j ≡ some 0 =
          get_elem?-some os j 0 (omega (arith, len, inside)) ∙ ap some ((==_iff _ _).0 e) in
        rw e (
          chains_end (suc (length table)) table o n size linked j os buf len none_yet inside
            (omega (arith, unset-le os, size, len)) held pos)
    | inr e ↦ rw e (os, buf, refl, len, held, pos)
  ]

  write_actions_from-IsWritten :
      (m o j : ℕ) (os : List ℕ) (buf : GrowingBuffer)
      → length os ≡ n
      → j + m ≤ n
      → IsBuffer buf
      → 0 < length buf.bytes
      → IsWritten o n (write_actions_from m table (suc j) (record { offsets = o ∷ os; buf = buf }))
  write_actions_from-IsWritten zero o j os buf len inside held pos =
      unfold write_actions_from in (os, buf, refl, len, held, pos)
  write_actions_from-IsWritten (suc m) o j os buf len inside held pos =
      let (os', buf', run, len', held', pos') =
        one_action-IsWritten o j os buf len (omega (arith, inside)) held pos in
      let w : Written = record { offsets = o ∷ os; buf = buf } in
      let step =
        write_actions_from-step m table (suc j) (get_or os j 0) w
          (record { offsets = o ∷ os'; buf = buf' })
          (get_elem?-some os j 0 (omega (arith, len, inside))) run in
      rw step
        (write_actions_from-IsWritten m o (suc j) os' buf' len' (omega (arith, inside)) held' pos')

  -- The first action, which comes to stand at offset zero.
  first_action-IsWritten :
      IsWritten 0 n (one_action table 0 (record { offsets = 0 ∷ replicate n 0; buf = zeroed }) 0)
  first_action-IsWritten =
      let os : List ℕ = replicate n 0 in
      let (action, at_first, next) = get-Linked table (suc n) 0 linked (omega (arith, size)) in
      let len : length os ≡ n = length-replicate n 0 in
      let word = int_to_word ((action.type_filter_index + 1) % 2 ^ 32) in
      let (buf, run, held, grown) = add_uleb-Grown zeroed word (omega arith) in
      let step =
        write_chain-step (length table) table 0 (record { offsets = 0 ∷ os; buf = zeroed }) (0 ∷ os)
          action buf refl at_first run in
      let ends : ChainsEnd (length table) table 0 (length os) =
        subst (ChainsEnd (length table) table 0) (sym len)
          (chains_end (length table) table 0 n size linked) in
      let rest =
        after_index-IsWritten (length table) table 0 os buf held
          (omega (arith, unset-le os, len, size)) ends action.has_next_action action.next_action
          (λ has. omega (arith, len, next has)) in
      rw step (
        subst
          (λ m. IsWritten 0 m (
            after_index (length table) table (0 ∷ os) buf action.has_next_action
              action.next_action))
          len rest)

-- `buildExceptTableRawData` writes every table of actions: where each action that has a next one has one of
-- the table, all chains are followed to their ends, whether they join, run back or in circles, within as
-- many rounds as there are actions, and one more; there is an offset for each action.
pub write_actions-returns :
    (table : List ActionRecord)
    → AllLinked table (length table)
    → (w : Written) × (write_actions table ≡ some w) × (length w.offsets ≡ length table)
write_actions-returns [] linked = unfold write_actions write_actions_from in (_, refl, refl)
write_actions-returns (action ∷ actions) linked =
    let n = length actions in
    let table = action ∷ actions in
    let (os, buf, run, len, held, pos) = first_action-IsWritten table n refl linked in
    let (os', buf', run', len', _, _) =
      write_actions_from-IsWritten table n refl linked n 0 0 os buf len (omega arith) held pos in
    let step =
      write_actions_from-step n table 0 0 (record { offsets = 0 ∷ replicate n 0; buf = zeroed })
        (record { offsets = 0 ∷ os; buf = buf }) refl run in
    (record { offsets = 0 ∷ os'; buf = buf' }, unfold write_actions in (step ∙ run'), ap suc len')
