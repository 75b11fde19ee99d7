-- ===== src/Base/Outcome.antt =====
-- What a function does that may end the program, at a fault, or go on for longer than its rounds.
use mathlib.Core.Option.{Option, none, some}

pub data Outcome (A : Type 0) : Type 0 where
  done : A → Outcome A
  fault out_of_fuel : Outcome A

unfoldable pub then_run : {A B : Type 0} → Outcome A → (A → Outcome B) → Outcome B
then_run (done a) f = f a
then_run fault f = fault
then_run out_of_fuel f = out_of_fuel

unfoldable pub or_fault : {A B : Type 0} → Option A → (A → Outcome B) → Outcome B
or_fault none f = fault
or_fault (some a) f = f a
