-- ===== src/CallFrame/RoundTrip.antt =====
-- A CIE written by src/callFrameInfo.c and read back by src/fderead.c, where libdwarf finds its parts.
use mathlib.Core.Path.{subst}
use kanana.Base.{
  ℕ, ◌+◌, ◌%◌, ◌^◌, ◌<◌, ◌≤◌, ◌≡◌, refl, sym, ap, ◌∙◌, arith, none, Option, some, Bool, false, List,
  [], ◌++◌, map, true, ltb, leb, ◌||◌, if◌then◌else◌, length, All,
}
use kanana.Base.Memory.{bind-some, taken, assert, IsByte}
use kanana.Leb.Words.{uint_to_leb128, int_to_leb128}
use kanana.Dwarf.Op.{OpCodes}
use kanana.Dwarf.Cfa.{CfaCodes, DwarfInstructions, RegInstruction, serialize_dwarf_reg_instructions}
use kanana.Dwarf.Cfa.Parse.{parse_fde_instructions}
use kanana.Dwarf.Cfa.Frame.{FrameInstr, reg_instruction, Fits}
use kanana.Dwarf.Cfa.RoundTrip.{parse_fde_instructions-serialize}
use kanana.DwarfVm
use kanana.DwarfVm.{VmState, evaluate_instructions_to_rules}
use kanana.DwarfVm.Dictionary.{RuleDict}
use kanana.DwarfVm.Initial.{ends, evaluable, evaluate-ends}
use kanana.EhPe.{PeCodes, Format}
use kanana.Util.GrowingBuffer.{GrowingBuffer}
use kanana.CallFrame.{Cie, Section, augmentation_string}
use kanana.CallFrame.CieBytes.{
  CieParts, cie_parts, cie_augmentation_data, personality_location, header2,
}
use kanana.CallFrame.Augmentation.{parse_augmentation_string_and_data}
use kanana.CallFrame.Augmented.{augmented, Encodes, parse_augmentation-cie}
use kanana.CallFrame.Read.{CieInfo, alignments, zeroed_cie, augdata_address, read_cie}

some-injective {ℓ} : {A : Type ℓ} {p q : A} → some p ≡ some q → p ≡ q
some-injective h = cc

-- What libdwarf finds in a CIE that was written as some parts; behind the instructions and behind the
-- augmentation data comes the rest of the section.
abbrev pub found : Cie → CieParts → ℕ → List ℕ → List ℕ → CieInfo
found cie p at_offset behind_instrs behind_augdata = record {
  version = cie.version;
  augmenter = p.string;
  code_align = cie.code_align;
  data_align = cie.data_align;
  return_addr_rule_num = cie.return_addr_rule_num;
  instrs = p.instrs ++ behind_instrs;
  instrs_len = length p.instrs;
  augdata = p.augmentation_data ++ behind_augdata;
  augdata_len = length p.augmentation_data;
  offset = at_offset;
}

-- A CIE whose augmentation says the same, made of zeroed memory.
abbrev pub as_read : Cie → Cie
as_read cie =
    record (augmented cie (record (zeroed_cie cie.idx) {
      version = cie.version;
      code_align = cie.code_align;
      data_align = cie.data_align;
      return_addr_rule_num = cie.return_addr_rule_num;
    })) { initial_instructions = cie.initial_instructions; code_align = 1 }

ended : {A : Type 0} (o : Option A) → ends o ≡ true → (a : A) × (o ≡ some a)
ended none h = absurd cc
ended (some a) h = (a, refl)

abbrev machine : Cie → DwarfVm.Cie
machine cie = alignments cie.code_align cie.data_align

if-machine :
    (b : Bool) (x y : Cie) (m : DwarfVm.Cie)
    → machine x ≡ m
    → machine y ≡ m
    → machine (if b then x else y) ≡ m
if-machine true x y m hx hy = hx
if-machine false x y m hx hy = hy

-- The augmentation leaves the alignments.
augmented-machine : (cie base : Cie) → machine (augmented cie base) ≡ machine base
augmented-machine cie base =
    let third =
      if-machine cie.personality
        (record base {
          data_present = true;
          personality = true;
          personality_pointer_encoding = cie.personality_pointer_encoding;
          personality_function = cie.personality_function;
        })
        (record base { data_present = true }) (machine base) refl refl in
    let second = if-machine cie.fde_lsda _ _ (machine base) third third in
    if-machine cie.fde_enc _ _ (machine base) second second

module _ (pe : PeCodes) (bitwidth : ℕ) (number : Format → ℕ) (stale : List ℕ) (codes : CfaCodes)
    (ops : OpCodes) where
  -- The parts that are read back.
  cie_parts-inverse :
      (cie : Cie) (cfi : Section) (buf : GrowingBuffer) (p : CieParts)
      → cie.data_present ≡ true
      → cie_parts pe bitwidth number stale codes ops cie cfi buf ≡ some p
      → (p.string ≡ augmentation_string cie)
        × (cie_augmentation_data pe bitwidth number stale cie (
              personality_location pe bitwidth number stale cfi buf
                (length p.string)
                (length p.code_align + length p.data_align + length p.return_addr_reg))
            ≡ some p.augmentation_data)
        × (raw : DwarfInstructions) × (serialize_dwarf_reg_instructions codes ops
              cie.initial_instructions
            ≡ some raw)
        × (p.instrs ≡ raw.instrs)
  unfolding cie_parts
  cie_parts-inverse cie cfi buf p present run =
      let (_, _, run1) = bind-some (assert (ltb cie.address_size 256)) _ p run in
      let (_, _, run2) = bind-some (assert (ltb cie.segment_size 256)) _ p run1 in
      let (code, _, run3) = bind-some (uint_to_leb128 (cie.code_align % 2 ^ 32)) _ p run2 in
      let (factor, _, run4) = bind-some (int_to_leb128 (cie.data_align % 2 ^ 32)) _ p run3 in
      let (return_reg, _, run5) = bind-some (uint_to_leb128 cie.return_addr_rule_num) _ p run4 in
      let place =
        personality_location pe bitwidth number stale cfi buf (length (augmentation_string cie))
          (length code + length factor + length return_reg) in
      let (aug, made, run6) =
        bind-some
          (if cie.data_present
            then cie_augmentation_data pe bitwidth number stale cie place
            else some [])
          _ p run5 in
      let (aug_length, _, run7) =
        bind-some (if cie.data_present then uint_to_leb128 (length aug) else some []) _ p run6 in
      let (raw, serialized, run8) =
        bind-some (serialize_dwarf_reg_instructions codes ops cie.initial_instructions) _ p run7 in
      let whole : CieParts = record {
        string = augmentation_string cie;
        sizes = header2 cie;
        code_align = code;
        data_align = factor;
        return_addr_reg = return_reg;
        augmentation_length = aug_length;
        augmentation_data = aug;
        instrs = raw.instrs;
      } in
      let same : whole ≡ p = some-injective run8 in
      subst
        (λ (q : CieParts).
          (q.string ≡ augmentation_string cie)
          × (cie_augmentation_data pe bitwidth number stale cie (
                personality_location pe bitwidth number stale cfi buf (length q.string)
                  (length q.code_align + length q.data_align + length q.return_addr_reg))
              ≡ some q.augmentation_data)
          × (raw : DwarfInstructions) × (serialize_dwarf_reg_instructions codes ops
                cie.initial_instructions
              ≡ some raw)
          × (q.instrs ≡ raw.instrs))
        same (refl, taken cie.data_present _ _ aug present made, raw, serialized, refl)

  read_cie-parsed :
      {D : Type 0} (dict : RuleDict D) (empty : D) (saved : List D) (loc : ℕ) (rules : VmState dict)
      (cfi : Section) (i : ℕ) (info : CieInfo) (parsed : Cie) (instrs : List RegInstruction)
      → info.code_align < 64
      → (ltb info.data_align 64 || leb (2 ^ 63) info.data_align) ≡ true
      → info.return_addr_rule_num < 64
      → parse_augmentation_string_and_data pe bitwidth
          (record (zeroed_cie i) {
            version = info.version;
            code_align = info.code_align;
            data_align = info.data_align;
            return_addr_rule_num = info.return_addr_rule_num;
          })
          info.augmenter
          info.augdata
          info.augdata_len
          (augdata_address cfi info)
        ≡ some parsed
      → parse_fde_instructions codes ops info.instrs info.instrs_len ≡ some instrs
      → evaluate_instructions_to_rules dict
          (alignments parsed.code_align parsed.data_align)
          none
          instrs
          0
          (record { rules = empty; saved = saved })
        ≡ some (loc, rules)
      → read_cie pe bitwidth codes ops dict empty saved cfi i info
        ≡ some (record parsed { initial_instructions = instrs; code_align = 1 }, rules)
  unfolding read_cie
  read_cie-parsed dict empty saved loc rules cfi i info parsed instrs hc hd hr augmentation
        instructions evaluated =
      let hc' : ltb info.code_align 64 ≡ true = ground (arith, hc) in
      let hr' : ltb info.return_addr_rule_num 64 ≡ true = ground (arith, hr) in
      rw (hc', hd, hr', augmentation, instructions, evaluated) refl

  -- The reader takes the place of the personality to be where the writer does.
  augdata_address-location :
      (cie : Cie) (cfi : Section) (buf : GrowingBuffer) (p : CieParts)
      (behind_instrs behind_augdata : List ℕ)
      → length p.code_align + length p.data_align + length p.return_addr_reg ≡ 3
      → (augdata_address cfi (found cie p (length buf.bytes) behind_instrs behind_augdata) + 1)
          % 2 ^ 64
        ≡ personality_location pe bitwidth number stale cfi buf
            (length p.string)
            (length p.code_align + length p.data_align + length p.return_addr_reg)
  unfolding augdata_address personality_location
  augdata_address-location cie cfi buf p behind_instrs behind_augdata alignments =
      omega (arith, alignments)

  -- A CIE with augmentation data that `buildCIERawData` prepares is read back by src/fderead.c, if
  -- libdwarf finds the parts where they were written, whatever comes behind them: the reader gives the
  -- CIE the encodings and the personality of its augmentation, its alignments and its instructions,
  -- but a code alignment of one. The alignments and the return address take a byte each and are those
  -- that the reader asserts; the augmentation has at least one of P, L and R; the personality is below
  -- 2 ^ 32 and fits its format, relative to the place that both compute. The initial instructions are those
  -- of `FrameInstr`, with operands that fit, and such that their evaluation comes to its end: each
  -- DW_CFA_restore_state has remembered rules on the stack, and there is no DW_CFA_restore,
  -- DW_CFA_advance_loc4, DW_CFA_GNU_args_size or DW_CFA_def_cfa_expression. The initial rules are what
  -- `evaluateInstructionsToRules` makes of the instructions with the alignments as they were written.
  pub read_cie-cie_parts :
      {D : Type 0} (dict : RuleDict D) (empty : D) (saved : List D) (fs : List FrameInstr)
      (cie : Cie) (cfi : Section) (buf : GrowingBuffer) (p : CieParts)
      (behind_instrs behind_augdata : List ℕ)
      → bitwidth ≤ 64
      → cie_parts pe bitwidth number stale codes ops cie cfi buf ≡ some p
      → cie.data_present ≡ true
      → (cie.personality || (cie.fde_lsda || cie.fde_enc)) ≡ true
      → (cie.personality ≡ true
          → Encodes pe bitwidth cie.personality_function cie.personality_pointer_encoding
              (personality_location pe bitwidth number stale cfi buf (length p.string) 3))
      → length p.code_align + length p.data_align + length p.return_addr_reg ≡ 3
      → cie.code_align < 64
      → (ltb cie.data_align 64 || leb (2 ^ 63) cie.data_align) ≡ true
      → cie.return_addr_rule_num < 64
      → cie.initial_instructions ≡ map reg_instruction fs
      → All (Fits codes ops) fs
      → evaluable (length saved) fs ≡ true
      → length p.instrs < 2 ^ 31
      → All IsByte behind_instrs
      → (loc : ℕ) × (rules : VmState dict) × (evaluate_instructions_to_rules dict
            (alignments cie.code_align cie.data_align)
            none
            cie.initial_instructions
            0
            (record { rules = empty; saved = saved })
          ≡ some (loc, rules))
        × (read_cie pe bitwidth codes ops dict empty saved cfi cie.idx
              (found cie p (length buf.bytes) behind_instrs behind_augdata)
            ≡ some (as_read cie, rules))
  read_cie-cie_parts dict empty saved fs cie cfi buf p behind_instrs behind_augdata hb run present
        flags encodes three hc hd hr instrs fits taken_to_end short behind =
      let (string, made, raw, serialized, raw_instrs) =
        cie_parts-inverse cie cfi buf p present run in
      let place = personality_location pe bitwidth number stale cfi buf (length p.string) in
      let same = augdata_address-location cie cfi buf p behind_instrs behind_augdata three in
      let info = found cie p (length buf.bytes) behind_instrs behind_augdata in
      let base : Cie = record (zeroed_cie cie.idx) {
        version = cie.version;
        code_align = cie.code_align;
        data_align = cie.data_align;
        return_addr_rule_num = cie.return_addr_rule_num;
      } in
      let encodes' : cie.personality ≡ true
          → Encodes pe bitwidth cie.personality_function cie.personality_pointer_encoding
              ((augdata_address cfi info + 1) % 2 ^ 64) =
        λ e.
          subst (Encodes pe bitwidth cie.personality_function cie.personality_pointer_encoding)
            (sym (same ∙ ap place three)) (encodes e) in
      let (bytes, written, parsed) =
        parse_augmentation-cie pe bitwidth hb number stale (augdata_address cfi info) cie base
          behind_augdata present flags encodes' in
      let held : bytes ≡ p.augmentation_data =
        some-injective
          (sym written ∙ (ap (cie_augmentation_data pe bitwidth number stale cie) same ∙ made)) in
      let parsed' =
        ap
          (λ s.
            parse_augmentation_string_and_data pe bitwidth base s (bytes ++ behind_augdata)
              (length bytes) (augdata_address cfi info))
          string
        ∙ parsed in
      let instructions =
        parse_fde_instructions-serialize codes ops fs raw behind_instrs fits
          (ap (serialize_dwarf_reg_instructions codes ops) (sym instrs) ∙ serialized)
          (subst (λ (is : List ℕ). length is < 2 ^ 31) raw_instrs short) behind in
      let start_machine = machine cie in
      let start : VmState dict = record { rules = empty; saved = saved } in
      let ((loc, rules), evaluated) =
        ended
          (evaluate_instructions_to_rules dict start_machine none (map reg_instruction fs) 0 start)
          (evaluate-ends dict start_machine fs 0 empty saved ∙ taken_to_end) in
      let evaluated' =
        ap (λ is. evaluate_instructions_to_rules dict start_machine none is 0 start) instrs
        ∙ evaluated in
      (
        loc,
        rules,
        evaluated',
        read_cie-parsed dict empty saved loc rules cfi cie.idx info (augmented cie base)
            cie.initial_instructions hc hd hr
            (subst
              (λ bs.
                parse_augmentation_string_and_data pe bitwidth base p.string (bs ++ behind_augdata)
                  (length bs) (augdata_address cfi info)
                ≡ some (augmented cie base))
              held parsed')
            (subst
              (λ is.
                parse_fde_instructions codes ops (is ++ behind_instrs) (length is)
                ≡ some cie.initial_instructions)
              (sym raw_instrs) (instructions ∙ ap some (sym instrs)))
            (ap (λ m. evaluate_instructions_to_rules dict m none cie.initial_instructions 0 start)
                (augmented-machine cie base)
              ∙ evaluated'),
      )
