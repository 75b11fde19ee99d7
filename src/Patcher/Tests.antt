-- ===== src/Patcher/Tests.antt =====
-- Registers and FDEs in the small.
use kanana.Base.{
  ℕ, ◌≡◌, refl, arith, some, List, [], ◌∷◌, ◌+◌, false, leb, ◌==◌, ◌&&◌, ◌||◌, ltb, if◌then◌else◌,
  length,
}
use kanana.CallFrame.{Fde}
use kanana.CallFrame.Read.{zeroed_cie}
use kanana.Patcher.Registers.{
  x86_64, UserRegs, r10, with_reg, field, set_cases, set_reg_value_from_dwarf_reg_num,
  get_reg_value_from_dwarf_reg_num,
}
use kanana.Patcher.Aliases.{get_reg_value-set_reg_value}
use kanana.Patcher.Frames.{get_fde_for_pc}
use kanana.Patcher.Search.{IsSorted, get_fde_for_pc-found}

abbrev no_regs : UserRegs
no_regs _ = 0

abbrev set_12 : UserRegs
set_12 = with_reg no_regs r10 5

run_12 : set_reg_value_from_dwarf_reg_num x86_64 no_regs 12 5 ≡ some set_12
unfolding set_reg_value_from_dwarf_reg_num set_cases field
run_12 = refl

-- Register 12 is set to 5, and register 15 with it.
get_reg_value-set_reg_value_example : get_reg_value_from_dwarf_reg_num x86_64 set_12 15 ≡ (
    if ltb 15 (length (set_cases x86_64)) && ((12 == 15) || (leb 10 12 && leb 10 15))
    then some 5
    else get_reg_value_from_dwarf_reg_num x86_64 no_regs 15)
get_reg_value-set_reg_value_example =
    get_reg_value-set_reg_value x86_64 no_regs set_12 12 5 15 run_12

abbrev fde_of : ℕ → Fde
fde_of low = record {
  cie = zeroed_cie 0;
  instructions = [];
  lowpc = low;
  highpc = low + 16;
  mem_size = 0;
  offset = 0;
  idx = 0;
  has_lsda_pointer = false;
  lsda_idx = 0;
}

abbrev three : List Fde
three = fde_of 0x1000 ∷ fde_of 0x1020 ∷ fde_of 0x1040 ∷ []

three-IsSorted : IsSorted three
three-IsSorted = (
  omega arith,
  (omega arith, (omega arith, tt)),
  (omega arith, (omega arith, tt), (omega arith, tt, tt)),
)

get_fde_for_pc-found_example : get_fde_for_pc three 0x1044 ≡ some (some 2)
get_fde_for_pc-found_example =
    get_fde_for_pc-found three 0x1044 2 (fde_of 0x1040) three-IsSorted refl (omega arith)
      (omega arith) (omega arith)
