-- ===== src/Patcher/Aliases.antt =====
-- A register that src/patcher/safety.c sets is the one that it gets.
use kanana.Base.{
  ℕ, zero, suc, ◌<◌, ◌≡◌, refl, sym, ap, ◌∙◌, inl, inr, arith, map, Option, none, some, List, [],
  ◌∷◌, Bool, true, false, not, leb, ltb, ◌==◌, ◌&&◌, ◌||◌, if◌then◌else◌, get_elem?, get_or, length,
  Bool-cases, ==_iff,
}
use kanana.Base.Memory.{◌>>=◌, bind-some, get_elem?-some}
use kanana.Patcher.Registers.{
  Arch, x86, x86_64, RegName, ax, UserRegs, place, with_reg, fields, set_cases, set_field,
  get_field, set_reg_value_from_dwarf_reg_num, get_reg_value_from_dwarf_reg_num,
}

abbrev all_below : ℕ → (ℕ → Bool) → Bool
all_below zero f = true
all_below (suc n) f = f n && all_below n f

and-left : (a b : Bool) → (a && b) ≡ true → a ≡ true
and-left true b h = refl
and-left false b h = absurd cc

and-right : (a b : Bool) → (a && b) ≡ true → b ≡ true
and-right true b h = h
and-right false b h = absurd cc

all_below-true : (n : ℕ) (f : ℕ → Bool) → all_below n f ≡ true → (i : ℕ) → i < n → f i ≡ true
all_below-true zero f h i less = absurd (omega (arith, less))
all_below-true (suc n) f h i less = elim (Bool-cases (i == n)) [
  | inl e ↦ ap f ((==_iff i n).0 e) ∙ and-left (f n) (all_below n f) h
  | inr e ↦ all_below-true n f (and-right (f n) (all_below n f) h) i (ground (arith, less, e))
]

-- The places of the fields of two registers differ, unless both are above 9.
abbrev field_place : Arch → ℕ → ℕ
field_place arch i = get_or (map place (fields arch)) i 0

abbrev apart : Arch → ℕ → ℕ → Bool
apart arch i j =
    (i == j) || ((leb 10 i && leb 10 j) || not (field_place arch j == field_place arch i))

all-apart :
    (arch : Arch)
    → all_below (length (fields arch)) (λ i. all_below (length (fields arch)) (apart arch i)) ≡ true
all-apart x86 = refl
all-apart x86_64 = refl

inside :
    (regs : List RegName) (i : ℕ) (reg : RegName) → get_elem? regs i ≡ some reg → i < length regs
inside [] i reg h = absurd cc
inside (r ∷ regs) zero reg h = omega arith
inside (r ∷ regs) (suc i) reg h = omega (arith, inside regs i reg h)

get_or-place :
    (regs : List RegName) (i : ℕ) (reg : RegName)
    → get_elem? regs i ≡ some reg
    → get_or (map place regs) i 0 ≡ place reg
get_or-place [] i reg h = absurd cc
get_or-place (r ∷ regs) zero reg h = ap place (some-injective h)
  where
    some-injective : some r ≡ some reg → r ≡ reg
    some-injective e = cc
get_or-place (r ∷ regs) (suc i) reg h = get_or-place regs i reg h

distinct :
    (arch : Arch) (i j : ℕ) (reg other : RegName)
    → get_elem? (fields arch) i ≡ some reg
    → get_elem? (fields arch) j ≡ some other
    → (i == j) ≡ false
    → (leb 10 i && leb 10 j) ≡ false
    → (place other == place reg) ≡ false
distinct arch i j reg other hi hj differ high =
    let n = length (fields arch) in
    let row = all_below-true n _ (all-apart arch) i (inside (fields arch) i reg hi) in
    let entry : apart arch i j ≡ true =
      all_below-true n (apart arch i) row j (inside (fields arch) j other hj) in
    let pi = get_or-place (fields arch) i reg hi in
    let pj = get_or-place (fields arch) j other hj in
    let entry' : not (place other == place reg) ≡ true = rw (differ, high, pi, pj) at entry in
    not-true (place other == place reg) entry'
  where
    not-true : (b : Bool) → not b ≡ true → b ≡ false
    not-true true h = absurd cc
    not-true false h = refl

abbrev alike : Arch → ℕ → ℕ → Bool
alike arch i j = not (leb 10 i && leb 10 j) || (field_place arch j == field_place arch i)

all-alike :
    (arch : Arch)
    → all_below (length (fields arch)) (λ i. all_below (length (fields arch)) (alike arch i)) ≡ true
all-alike x86 = refl
all-alike x86_64 = refl

shared :
    (arch : Arch) (i j : ℕ) (reg other : RegName)
    → get_elem? (fields arch) i ≡ some reg
    → get_elem? (fields arch) j ≡ some other
    → (leb 10 i && leb 10 j) ≡ true
    → (place other == place reg) ≡ true
shared arch i j reg other hi hj high =
    let n = length (fields arch) in
    let row = all_below-true n _ (all-alike arch) i (inside (fields arch) i reg hi) in
    let entry : alike arch i j ≡ true =
      all_below-true n (alike arch i) row j (inside (fields arch) j other hj) in
    let pi = get_or-place (fields arch) i reg hi in
    let pj = get_or-place (fields arch) j other hj in rw (high, pi, pj) at entry

-- The struct after one of its fields is set, at another.
module _ (arch : Arch) (regs : UserRegs) (reg : RegName) (v : ℕ) where
  get-kept :
      (other : ℕ)
      → ((r : RegName) → get_elem? (fields arch) other ≡ some r → (place r == place reg) ≡ false)
      → get_reg_value_from_dwarf_reg_num arch (with_reg regs reg v) other
        ≡ get_reg_value_from_dwarf_reg_num arch regs other
  unfolding with_reg
  get-kept other differs =
      get_field arch (with_reg regs reg v) other
      ∙ (same (get_elem? (fields arch) other) differs ∙ sym (get_field arch regs other))
    where
      same :
          (o : Option RegName)
          → ((r : RegName) → o ≡ some r → (place r == place reg) ≡ false)
          → (o >>= λ r. some (with_reg regs reg v r)) ≡ (o >>= λ r. some (regs r))
      same none h = refl
      same (some r) h = rw (h r refl) refl

  get-new :
      (other : ℕ) (r : RegName)
      → get_elem? (fields arch) other ≡ some r
      → (place r == place reg) ≡ true
      → get_reg_value_from_dwarf_reg_num arch (with_reg regs reg v) other ≡ some v
  unfolding with_reg
  get-new other r h e = get_field arch (with_reg regs reg v) other ∙ rw (h, e) refl

absent : (regs : List RegName) (i : ℕ) → ltb i (length regs) ≡ false → get_elem? regs i ≡ none
absent [] i h = refl
absent (r ∷ regs) zero h = absurd (ground (arith, h))
absent (r ∷ regs) (suc i) h = absent regs i (ground (arith, h))

length-set_cases : (arch : Arch) → length (set_cases arch) ≡ length (fields arch)
unfolding set_cases
length-set_cases x86 = refl
length-set_cases x86_64 = refl

at_register :
    (arch : Arch) (regs : UserRegs) (reg : RegName) (num v other : ℕ)
    → get_elem? (fields arch) num ≡ some reg
    → get_reg_value_from_dwarf_reg_num arch (with_reg regs reg v) other ≡ (
        if ltb other (length (fields arch)) && ((num == other) || (leb 10 num && leb 10 other))
        then some v
        else get_reg_value_from_dwarf_reg_num arch regs other)
at_register arch regs reg num v other found = elim (Bool-cases (ltb other (length (fields arch)))) [
  | inr e ↦ rw e (
      get_field arch (with_reg regs reg v) other
      ∙ (rw (absent (fields arch) other e) refl ∙ sym (get_field arch regs other)))
  | inl e ↦ elim (Bool-cases (num == other)) [
    | inl same ↦
        rw (e, same)
          (get-new arch regs reg v other reg
            (ap (get_elem? (fields arch)) (sym ((==_iff num other).0 same)) ∙ found)
            ((==_iff _ _).1 refl))
    | inr differ ↦ elim (Bool-cases (leb 10 num && leb 10 other)) [
      | inl high ↦
          let at_other = get_elem?-some (fields arch) other ax (ground (arith, e)) in
          rw (e, differ, high)
            (get-new arch regs reg v other (get_or (fields arch) other ax) at_other
              (shared arch num other reg (get_or (fields arch) other ax) found at_other high))
      | inr high ↦
          rw (e, differ, high)
            (get-kept arch regs reg v other
              λ r at_other. distinct arch num other reg r found at_other differ high)
    ]
  ]
]

-- After `setRegValueFromDwarfRegNum` sets a register, on either architecture, `getRegValueFromDwarfRegNum`
-- gets the new value for it, and for each of the registers from 10 on if it is one of these; every other
-- register keeps its value.
pub get_reg_value-set_reg_value :
    (arch : Arch) (regs regs' : UserRegs) (num v other : ℕ)
    → set_reg_value_from_dwarf_reg_num arch regs num v ≡ some regs'
    → get_reg_value_from_dwarf_reg_num arch regs' other ≡ (
        if ltb other (length (set_cases arch)) && ((num == other) || (leb 10 num && leb 10 other))
        then some v
        else get_reg_value_from_dwarf_reg_num arch regs other)
get_reg_value-set_reg_value arch regs regs' num v other run =
    let (reg, found, made) =
      bind-some (get_elem? (fields arch) num) (λ r. some (with_reg regs r v)) regs'
        (sym (set_field arch regs num v) ∙ run) in
    ap (λ after. get_reg_value_from_dwarf_reg_num arch after other) (sym (some-injective made))
    ∙ rw (length-set_cases arch) (at_register arch regs reg num v other found)
  where
    some-injective : {f g : UserRegs} → some f ≡ some g → f ≡ g
    some-injective e = cc
