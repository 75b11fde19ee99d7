-- ===== src/Patcher/Frames.antt =====
-- `getFDEForPC` of src/patcher/safety.c.
use kanana.Base.{
  ℕ, zero, suc, ◌+◌, ◌-◌, ◌/◌, ◌%◌, ◌^◌, Option, none, some, List, ltb, leb, ◌==◌, ◌&&◌,
  if◌then◌else◌, length, get_elem?,
}
use kanana.Base.Memory.{◌>>=◌}
use kanana.Dwarf.Cfa.Parse.{int_to_word}
use kanana.CallFrame.{Fde}

-- The comparisons are of words, to which an int is extended. The half of a difference, which the source
-- computes with floats, is exact below 2 ^ 24.
module _ (fdes : List Fde) (pc : ℕ) where
  unfoldable pub final_check : ℕ → Option (Option ℕ)
  final_check low = do
    fde ← get_elem? fdes low
    some (
        if leb (int_to_word fde.lowpc) pc && leb pc (int_to_word fde.highpc)
        then some low
        else none)

  -- The loop: none is an access outside the FDEs, and otherwise it is the index of the FDE, if one is
  -- found. The first argument bounds the rounds.
  unfoldable pub search : ℕ → ℕ → ℕ → Option (Option ℕ)
  search zero low high = none
  search (suc rounds) low high = do
    let middle = low + (high + 2 ^ 64 - low) % 2 ^ 64 / 2
    let down = search rounds low ((middle + 2 ^ 64 - 1) % 2 ^ 64)
    let up = search rounds (middle + 1) high
    let step = get_elem? fdes middle >>= λ fde.
        if ltb pc (int_to_word fde.lowpc)
        then down
        else if ltb (int_to_word fde.highpc) pc
        then up
        else some (some middle)
    if high == low then final_check low else step

  unfoldable pub get_fde_for_pc : Option (Option ℕ)
  get_fde_for_pc = search (suc (length fdes)) 0 (length fdes)
