-- ===== src/DwarfVm/Evaluate.antt =====
-- `evaluateDwarfExpression` of src/dwarfvm.c.
use kanana.Base.{
  ℕ, zero, suc, ◌+◌, ◌-◌, ◌*◌, ◌%◌, ◌^◌, Option, none, some, List, [], ◌∷◌, not, ltb, ◌==◌,
  if◌then◌else◌, length, drop,
}
use kanana.Base.Memory.{◌>>=◌, ◌>>◌, assert}
use kanana.Leb.Words.{leb128_to_uword}
use kanana.Dwarf.Op.{ExprOp, OpCodes}

-- The copy of the starting stack takes as many bytes as it has words, and leaves zeros in the others.
unfoldable pub copied : ℕ → List ℕ → List ℕ
copied bytes [] = []
copied bytes (word ∷ words) =
    word % 2 ^ (8 * (if ltb bytes 8 then bytes else 8)) ∷ copied (bytes - 8) words

-- The stack has its top first.
unfoldable pub turned : List ℕ → List ℕ → List ℕ
turned [] stack = stack
turned (word ∷ words) stack = turned words (word ∷ stack)

unfoldable pub pop_dwvm_stack : List ℕ → Option (ℕ × List ℕ)
pop_dwvm_stack [] = none
pop_dwvm_stack (top ∷ stack) = some (top, stack)

-- A stack that is full would be given as many bytes as it needs words, and the new word set outside it.
unfoldable pub push_dwvm_stack : ℕ → List ℕ → ℕ → Option (List ℕ)
push_dwvm_stack allocated stack value = do
  assert (not (length stack + 1 == allocated))
  some (value ∷ stack)

module _ (codes : OpCodes) where
  -- The first argument bounds the rounds.
  unfoldable pub evaluate_loop : ℕ → ℕ → List ℕ → List ℕ → Option (List ℕ)
  evaluate_loop rounds allocated [] stack = some stack
  evaluate_loop zero allocated (op ∷ bytes) stack = none
  evaluate_loop (suc rounds) allocated (op ∷ bytes) stack = do
    assert (op == codes.code ExprOp.plus_uconst)
    (top, below) ← pop_dwvm_stack stack
    (uconst, read) ← leb128_to_uword bytes
    stack' ← push_dwvm_stack allocated below ((top + uconst) % 2 ^ 64)
    evaluate_loop rounds allocated (drop read bytes) stack'

  unfoldable pub evaluate_dwarf_expression : List ℕ → List ℕ → Option ℕ
  evaluate_dwarf_expression bytes starting_stack = do
    let stack = turned (copied (length starting_stack) starting_stack) []
    left ← evaluate_loop (length bytes) (length starting_stack + 10) bytes stack
    (top, _) ← pop_dwvm_stack left
    some top
