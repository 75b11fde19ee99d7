-- ===== src/Patcher/Registers.antt =====
-- `setRegValueFromDwarfRegNum` and `getRegValueFromDwarfRegNum` of src/patcher/safety.c, for both
-- architectures.
use kanana.Base.{
  ℕ, zero, suc, ◌≡◌, refl, sym, map, Option, none, some, List, [], ◌∷◌, ◌==◌, if◌then◌else◌,
  get_elem?,
}
use kanana.Base.Memory.{◌>>=◌}

pub data Arch : Type 0 where
  x86 x86_64 : Arch

-- The registers of `struct user_regs_struct`, and the struct as their values.
pub data RegName : Type 0 where
  ax bx cx dx si di bp sp ip r8 r9 r10 r11 r12 r13 r14 r15 : RegName

abbrev pub UserRegs : Type 0
UserRegs = RegName → ℕ

abbrev pub place : RegName → ℕ
place ax = 0
place bx = 1
place cx = 2
place dx = 3
place si = 4
place di = 5
place bp = 6
place sp = 7
place ip = 8
place r8 = 9
place r9 = 10
place r10 = 11
place r11 = 12
place r12 = 13
place r13 = 14
place r14 = 15
place r15 = 16

-- The assignment to one field of the struct.
unfoldable pub with_reg : UserRegs → RegName → ℕ → UserRegs
with_reg regs reg v other = if place other == place reg then v else regs other

-- The macros of src/arch.h.
pub data RegMacro : Type 0 where
  reg_ax reg_bx reg_cx reg_dx reg_si reg_di reg_bp reg_sp reg_ip : RegMacro
  reg_8 reg_9 reg_10 reg_11 reg_12 reg_13 reg_14 reg_15 : RegMacro

unfoldable pub field : RegMacro → RegName
field reg_ax = ax
field reg_bx = bx
field reg_cx = cx
field reg_dx = dx
field reg_si = si
field reg_di = di
field reg_bp = bp
field reg_sp = sp
field reg_ip = ip
field reg_8 = r8
field reg_9 = r9
field reg_10 = r10
field reg_11 = r10
field reg_12 = r10
field reg_13 = r10
field reg_14 = r10
field reg_15 = r10

-- The cases of the switch that sets, from register 0 on, and of that which gets.
unfoldable pub set_cases : Arch → List RegMacro
set_cases x86 = reg_ax ∷ reg_cx ∷ reg_dx ∷ reg_bx ∷ reg_sp ∷ reg_bp ∷ reg_si ∷ reg_di ∷ reg_ip ∷ []
set_cases x86_64 =
    reg_ax ∷ reg_dx ∷ reg_cx ∷ reg_bx ∷ reg_si ∷ reg_di ∷ reg_bp ∷ reg_sp ∷ reg_8 ∷ reg_9 ∷ reg_10
    ∷ reg_10 ∷ reg_10 ∷ reg_10 ∷ reg_10 ∷ reg_10 ∷ []

unfoldable pub get_cases : Arch → List RegMacro
get_cases x86 = reg_ax ∷ reg_cx ∷ reg_dx ∷ reg_bx ∷ reg_sp ∷ reg_bp ∷ reg_si ∷ reg_di ∷ reg_ip ∷ []
get_cases x86_64 =
    reg_ax ∷ reg_dx ∷ reg_cx ∷ reg_bx ∷ reg_si ∷ reg_di ∷ reg_bp ∷ reg_sp ∷ reg_8 ∷ reg_9 ∷ reg_10
    ∷ reg_11 ∷ reg_12 ∷ reg_13 ∷ reg_14 ∷ reg_15 ∷ []

unfoldable pub set_reg_value_from_dwarf_reg_num : Arch → UserRegs → ℕ → ℕ → Option UserRegs
set_reg_value_from_dwarf_reg_num arch regs num new_value = do
  reg ← get_elem? (set_cases arch) num
  some (with_reg regs (field reg) new_value)

unfoldable pub get_reg_value_from_dwarf_reg_num : Arch → UserRegs → ℕ → Option ℕ
get_reg_value_from_dwarf_reg_num arch regs num = do
  reg ← get_elem? (get_cases arch) num
  some (regs (field reg))

-- The fields that the cases lead to.
abbrev pub fields : Arch → List RegName
fields x86 = ax ∷ cx ∷ dx ∷ bx ∷ sp ∷ bp ∷ si ∷ di ∷ ip ∷ []
fields x86_64 =
    ax ∷ dx ∷ cx ∷ bx ∷ si ∷ di ∷ bp ∷ sp ∷ r8 ∷ r9 ∷ r10 ∷ r10 ∷ r10 ∷ r10 ∷ r10 ∷ r10 ∷ []

map-set_cases : (arch : Arch) → map field (set_cases arch) ≡ fields arch
unfolding field set_cases
map-set_cases x86 = refl
map-set_cases x86_64 = refl

map-get_cases : (arch : Arch) → map field (get_cases arch) ≡ fields arch
unfolding field get_cases
map-get_cases x86 = refl
map-get_cases x86_64 = refl

get_elem?-map :
    (ms : List RegMacro) (i : ℕ)
    → get_elem? (map field ms) i ≡ (get_elem? ms i >>= λ m. some (field m))
get_elem?-map [] i = refl
get_elem?-map (m ∷ ms) zero = refl
get_elem?-map (m ∷ ms) (suc i) = get_elem?-map ms i

-- What both do, by the field.
pub set_field :
    (arch : Arch) (regs : UserRegs) (num v : ℕ)
    → set_reg_value_from_dwarf_reg_num arch regs num v
      ≡ (get_elem? (fields arch) num >>= λ reg. some (with_reg regs reg v))
unfolding set_reg_value_from_dwarf_reg_num
set_field arch regs num v =
    rw (sym (map-set_cases arch), get_elem?-map (set_cases arch) num)
      (bind (get_elem? (set_cases arch) num))
  where
    bind :
        (o : Option RegMacro)
        → (o >>= λ reg. some (with_reg regs (field reg) v))
          ≡ ((o >>= λ m. some (field m)) >>= λ reg. some (with_reg regs reg v))
    bind none = refl
    bind (some m) = refl

pub get_field :
    (arch : Arch) (regs : UserRegs) (num : ℕ)
    → get_reg_value_from_dwarf_reg_num arch regs num
      ≡ (get_elem? (fields arch) num >>= λ reg. some (regs reg))
unfolding get_reg_value_from_dwarf_reg_num
get_field arch regs num =
    rw (sym (map-get_cases arch), get_elem?-map (get_cases arch) num)
      (bind (get_elem? (get_cases arch) num))
  where
    bind :
        (o : Option RegMacro)
        → (o >>= λ reg. some (regs (field reg)))
          ≡ ((o >>= λ m. some (field m)) >>= λ reg. some (regs reg))
    bind none = refl
    bind (some m) = refl
