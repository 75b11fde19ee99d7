-- ===== src/EhPe/Numbers.antt =====
-- The numbers of <dwarf.h> for the pointers of .eh_frame.
use kanana.Base.{ℕ, List, [], ◌∷◌, ◌==◌, if◌then◌else◌}
use kanana.EhPe.{
  Format, absptr, uleb128, udata2, udata4, udata8, sleb128, sdata2, sdata4, sdata8, unknown_format,
  Application, direct, pcrel, textrel, datarel, funcrel, aligned, unknown_application, PeCodes,
}

abbrev pub pick {ℓ} : {A : Type ℓ} → ℕ → List (ℕ × A) → A → A
pick n [] default = default
pick n ((m, a) ∷ cases) default = let rest = pick n cases default in if n == m then a else rest

abbrev pub formats : List (ℕ × Format)
formats =
    (0, absptr)
    ∷ (1, uleb128)
    ∷ (2, udata2)
    ∷ (3, udata4)
    ∷ (4, udata8)
    ∷ (9, sleb128)
    ∷ (10, sdata2)
    ∷ (11, sdata4)
    ∷ (12, sdata8)
    ∷ []

abbrev pub applications : List (ℕ × Application)
applications =
    (0, direct) ∷ (1, pcrel) ∷ (2, textrel) ∷ (3, datarel) ∷ (4, funcrel) ∷ (5, aligned) ∷ []

abbrev pub lsb : PeCodes
lsb = record {
  format_of = λ n. pick n formats unknown_format;
  application_of = λ n. pick n applications unknown_application;
  omit = 0xff;
}

-- DW_EH_PE_uleb128 and so on.
abbrev pub number : Format → ℕ
number absptr = 0
number uleb128 = 1
number udata2 = 2
number udata4 = 3
number udata8 = 4
number sleb128 = 9
number sdata2 = 10
number sdata4 = 11
number sdata8 = 12
number unknown_format = 0

-- DW_EH_PE_pcrel
abbrev pub pcrel_number : ℕ
pcrel_number = 0x10
