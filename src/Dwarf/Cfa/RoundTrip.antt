-- ===== src/Dwarf/Cfa/RoundTrip.antt =====
-- `serializeDwarfRegInstructions` of src/dwarf_instr.c, then `parseFDEInstructions` of src/fderead.c.
use mathlib.Core.List.{append_assoc, append-nil}
use kanana.Base.{
  ℕ, zero, suc, ◌+◌, ◌-◌, ◌*◌, ◌^◌, ◌≤◌, ◌<◌, ◌≡◌, inl, inr, refl, sym, ap, ◌∙◌, arith, Option,
  some, List, [], ◌∷◌, ◌++◌, map, true, ltb, leb, ◌&&◌, length, drop, All, length-append,
  Bool-cases,
}
use kanana.Base.Memory.{IsByte}
use kanana.Dwarf.Op.{OpCodes}
use kanana.Dwarf.Expr.{less}
use kanana.Dwarf.Expr.Reads.{drop-append}
use kanana.Dwarf.Cfa.{
  CfaCodes, RegInstruction, RawInstruction, DwarfInstructions, copy_bytes, add_bytes,
  add_instruction, reg_instruction_to_raw, instruction_bytes, serialize_from,
  serialize_dwarf_reg_instructions,
}
use kanana.Dwarf.Cfa.Parse.{parse_one, parse_rounds, parse_fde_instructions}
use kanana.Dwarf.Cfa.Carried.{Carried}
use kanana.Dwarf.Cfa.Frame.{FrameInstr, reg_instruction, Fits}
use kanana.Dwarf.Cfa.Instrs.{Fits-Carried}

abbrev pub IsInside : DwarfInstructions → Type 0
IsInside is = length is.instrs ≤ is.allocated

-- `addBytes` never copies past the allocation: it appends exactly the new bytes, and the bytes held
-- stay inside what is allocated.
pub add_bytes-append :
    (is : DwarfInstructions) (new : List ℕ)
    → IsInside is
    → (is' : DwarfInstructions) × (add_bytes is new ≡ some is')
      × (is'.instrs ≡ is.instrs ++ new)
      × IsInside is'
unfolding add_bytes copy_bytes
add_bytes-append is new h = elim (Bool-cases (ltb (is.allocated - length is.instrs) (length new))) [
  | inl full ↦ elim (Bool-cases (ltb (is.allocated * 2) (is.allocated + length new * 2))) [
    | inl e ↦
        let size = is.allocated + length new * 2 in
        let room : leb (length is.instrs + length new) size ≡ true = ground arith in
        (
          record { instrs = is.instrs ++ new; allocated = size },
          rw (full, e, room) refl,
          refl,
          ground (arith, length-append is.instrs new),
        )
    | inr e ↦
        let size = is.allocated * 2 in
        let room : leb (length is.instrs + length new) size ≡ true = ground arith in
        (
          record { instrs = is.instrs ++ new; allocated = size },
          rw (full, e, room) refl,
          refl,
          ground (arith, length-append is.instrs new),
        )
  ]
  | inr fits ↦
      let room : leb (length is.instrs + length new) is.allocated ≡ true = ground arith in
      (
        record is { instrs = is.instrs ++ new },
        rw (fits, room) refl,
        refl,
        ground (arith, length-append is.instrs new),
      )
]

some-injective : {A : Type 0} {o : Option A} {a b : A} → o ≡ some a → o ≡ some b → a ≡ b
some-injective h h' = cc

module _ (codes : CfaCodes) (ops : OpCodes) where
  -- The instructions, and the bytes that they are written as and read back from.
  abbrev Written : List RegInstruction → List ℕ → Type 0
  Written is bytes =
      ((buf : DwarfInstructions)
        → IsInside buf
        → (buf' : DwarfInstructions) × (serialize_from codes ops buf is ≡ some buf')
          × (buf'.instrs ≡ buf.instrs ++ bytes)
          × IsInside buf')
      × ((rest : List ℕ) (rounds : ℕ)
          → All IsByte rest
          → length bytes ≤ rounds
          → length bytes < 2 ^ 31
          → All IsByte (bytes ++ rest)
            × (parse_rounds codes ops rounds (bytes ++ rest) (length bytes) ≡ some is))

  parse_rounds-end : (rounds : ℕ) (rest : List ℕ) → parse_rounds codes ops rounds rest 0 ≡ some []
  unfolding parse_rounds
  parse_rounds-end zero rest = refl
  parse_rounds-end (suc rounds) [] = refl
  parse_rounds-end (suc rounds) (b ∷ rest) = refl

  parse_rounds-one :
      (rounds b len n : ℕ) (rest : List ℕ) (i : RegInstruction) (is : List RegInstruction)
      → 0 < len
      → len < 2 ^ 31
      → parse_one codes ops b rest ≡ some (some i, n)
      → parse_rounds codes ops rounds (drop n rest) (less len n) ≡ some is
      → parse_rounds codes ops (suc rounds) (b ∷ rest) len ≡ some (i ∷ is)
  unfolding parse_rounds
  parse_rounds-one rounds b len n rest i is pos small one more =
      let left : (ltb 0 len && ltb len (2 ^ 31)) ≡ true = ground arith in rw (left, one, more) refl

  serialize_from-one :
      (buf buf' : DwarfInstructions) (i : RegInstruction) (is : List RegInstruction)
      (r : RawInstruction) (bytes : List ℕ)
      → reg_instruction_to_raw ops i i.type ≡ some r
      → instruction_bytes codes r r.opcode ≡ some bytes
      → add_bytes buf bytes ≡ some buf'
      → serialize_from codes ops buf (i ∷ is) ≡ serialize_from codes ops buf' is
  unfolding serialize_from add_instruction
  serialize_from-one buf buf' i is r bytes hr hb ha = rw (hr, hb, ha) refl

  Written-one :
      (i : RegInstruction) (is : List RegInstruction) (bytes : List ℕ)
      → Carried codes ops i
      → Written is bytes
      → (all : List ℕ) × Written (i ∷ is) all
  Written-one i is bytes (r, b, ys, raw, same, small, operand) (writes, reads) =
      ((b ∷ ys) ++ bytes, (written, reading))
    where
      written :
          (buf : DwarfInstructions)
          → IsInside buf
          → (buf' : DwarfInstructions) × (serialize_from codes ops buf (i ∷ is) ≡ some buf')
            × (buf'.instrs ≡ buf.instrs ++ ((b ∷ ys) ++ bytes))
            × IsInside buf'
      written buf h =
          let (one, add, held, h') = add_bytes-append buf (b ∷ ys) h in
          let (buf', rest, held', h'') = writes one h' in
          (
            buf',
            serialize_from-one buf one i is r (b ∷ ys) raw same add ∙ rest,
            rw (held', held) (append_assoc buf.instrs (b ∷ ys) bytes),
            h'',
          )

      reading :
          (rest : List ℕ) (rounds : ℕ)
          → All IsByte rest
          → length ((b ∷ ys) ++ bytes) ≤ rounds
          → length ((b ∷ ys) ++ bytes) < 2 ^ 31
          → All IsByte (((b ∷ ys) ++ bytes) ++ rest)
            × (parse_rounds codes ops rounds
                  (((b ∷ ys) ++ bytes) ++ rest)
                  (length ((b ∷ ys) ++ bytes))
                ≡ some (i ∷ is))
      reading rest zero hr enough short = absurd (omega arith)
      reading rest (suc rounds) hr enough short =
          let size = length-append ys bytes in
          let (tail, more) = reads rest rounds hr (omega (arith, size)) (omega (arith, size)) in
          let (all, one) = operand (bytes ++ rest) tail in
          let left : less (suc (length (ys ++ bytes))) (length ys) ≡ length bytes =
            omega (arith, size, short) in
          rw (append_assoc ys bytes rest) (
            (small, all),
            parse_rounds-one rounds b (suc (length (ys ++ bytes))) (length ys)
                (ys ++ (bytes ++ rest)) i is (omega arith) short one
                (rw (left, drop-append ys (bytes ++ rest)) more),
          )

  map-Written :
      (fs : List FrameInstr)
      → All (Fits codes ops) fs
      → (bytes : List ℕ) × Written (map reg_instruction fs) bytes
  map-Written [] _ = (
    [],
    (
      (λ buf h. (buf, unfold serialize_from in refl, sym (append-nil _), h)),
      (λ rest rounds hr _ _. (hr, parse_rounds-end rounds rest)),
    ),
  )
  map-Written (f ∷ fs) (h, hs) =
      let (bytes, written) = map-Written fs hs in
      Written-one (reg_instruction f) (map reg_instruction fs) bytes (Fits-Carried codes ops f h)
        written

  -- `serializeDwarfRegInstructions` succeeds on a list of these instructions, with operands that fit, and the
  -- bytes it writes stay inside the memory allocated for them: DW_CFA_advance_loc, DW_CFA_advance_loc1 and
  -- DW_CFA_advance_loc4, DW_CFA_offset with an offset that is not negative, DW_CFA_register, DW_CFA_undefined, DW_CFA_restore,
  -- DW_CFA_def_cfa, DW_CFA_def_cfa_register, DW_CFA_def_cfa_offset, DW_CFA_def_cfa_expression,
  -- DW_CFA_expression, DW_CFA_val_expression, DW_CFA_GNU_args_size, DW_CFA_remember_state and
  -- DW_CFA_restore_state.
  -- Operands inside an opcode fit its six bits, deltas their bytes, numbers are below 2 ^ 32, the offset of a
  -- DW_CFA_offset is below 2 ^ 31, other registers are below 2 ^ 32 with a low byte below 0xf0, and an expression
  -- has fewer than 2 ^ 16 - 6 bytes and none of the opcodes that have a signed LEB128 operand.
  pub serialize-IsInside :
      (fs : List FrameInstr)
      → All (Fits codes ops) fs
      → (out : DwarfInstructions) × (serialize_dwarf_reg_instructions codes ops
            (map reg_instruction fs)
          ≡ some out)
        × IsInside out
  unfolding serialize_dwarf_reg_instructions
  serialize-IsInside fs h =
      let (bytes, (writes, _)) = map-Written fs h in
      let (out, run, _, inside) = writes (record { instrs = []; allocated = 0 }) (omega arith) in
      (out, run, inside)

  -- The bytes that `serializeDwarfRegInstructions` writes for a list of these instructions, with operands that
  -- fit, are read back by `parseFDEInstructions` as the same instructions, whatever bytes follow in the
  -- section: DW_CFA_advance_loc, DW_CFA_advance_loc1 and DW_CFA_advance_loc4,
  -- DW_CFA_offset with an offset that is not negative, DW_CFA_register, DW_CFA_undefined, DW_CFA_restore,
  -- DW_CFA_def_cfa, DW_CFA_def_cfa_register, DW_CFA_def_cfa_offset, DW_CFA_def_cfa_expression,
  -- DW_CFA_expression, DW_CFA_val_expression, DW_CFA_GNU_args_size, DW_CFA_remember_state and
  -- DW_CFA_restore_state.
  -- Operands inside an opcode fit its six bits, deltas their bytes, numbers are below 2 ^ 32, the offset of a
  -- DW_CFA_offset is below 2 ^ 31, other registers are below 2 ^ 32 with a low byte below 0xf0, and an expression
  -- has fewer than 2 ^ 16 - 6 bytes and none of the opcodes that have a signed LEB128 operand.
  -- What is written has fewer than 2 ^ 31 bytes, the length being an int.
  pub parse_fde_instructions-serialize :
      (fs : List FrameInstr) (out : DwarfInstructions) (rest : List ℕ)
      → All (Fits codes ops) fs
      → serialize_dwarf_reg_instructions codes ops (map reg_instruction fs) ≡ some out
      → length out.instrs < 2 ^ 31
      → All IsByte rest
      → parse_fde_instructions codes ops (out.instrs ++ rest) (length out.instrs)
        ≡ some (map reg_instruction fs)
  unfolding serialize_dwarf_reg_instructions parse_fde_instructions
  parse_fde_instructions-serialize fs out rest h run short hr =
      let (bytes, (writes, reads)) = map-Written fs h in
      let (out', run', held, _) = writes (record { instrs = []; allocated = 0 }) (omega arith) in
      let same : out.instrs ≡ bytes =
        ap (λ (is : DwarfInstructions). is.instrs) (some-injective run run') ∙ held in
      rw same ((reads rest (length bytes) hr (omega arith) (rw (sym same) short)).1)
