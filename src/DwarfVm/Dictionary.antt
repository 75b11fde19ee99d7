-- ===== src/DwarfVm/Dictionary.antt =====
-- The rules of src/register.h, and what src/dwarfvm.c relies on of src/util/dictionary.c.
use kanana.Base.{
  ℕ, ◌≡◌, refl, ap, sym, ◌∙◌, arith, Option, none, some, List, [], ◌∷◌, Bool, true, false, ◌==◌,
  ◌&&◌, ◌||◌, if◌then◌else◌,
}
use kanana.Dwarf.Register.{
  PoReg, RegType, unused, basic, curr_targ_new, curr_targ_old, expr, old_sym_val, new_sym_val, cfa,
}

-- `E_REG_RULE_TYPE`; the first, ERRT_UNDEF, is that of a zeroed rule.
pub data RuleType : Type 0 where
  by_default by_offset by_register by_cfa by_expr recurse_fixup recurse_fixup_pointer : RuleType

pub record PoRegRule : Type 0 where
  pub reg_lh : PoReg
  pub type : RuleType
  pub reg_rh : PoReg
  pub offset : ℕ
  pub index : ℕ

unfoldable type_number : RegType → ℕ
type_number unused = 0
type_number basic = 1
type_number curr_targ_new = 2
type_number curr_targ_old = 3
type_number expr = 4
type_number old_sym_val = 5
type_number new_sym_val = 6
type_number cfa = 7

-- `!strcmp` on the strings of two registers.
unfoldable pub same_reg : PoReg → PoReg → Bool
unfolding type_number
same_reg a b = type_number a.type == type_number b.type && a.size == b.size && a.value == b.value

abbrev pub holds : PoReg → List PoReg → Bool
holds k [] = false
holds k (k' ∷ ks) = same_reg k' k || holds k ks

abbrev pub is_some : Option PoRegRule → Bool
is_some none = false
is_some (some rule) = true

-- A dictionary of rules: dictGet, dictInsert together with the assignment through the pointer that
-- dictGet returns, and dictKeys. A copy by dictDuplicate is the dictionary's value.
pub record RuleDict (D : Type 0) : Type 0 where
  pub get : D → PoReg → Option PoRegRule
  pub set : D → PoReg → PoRegRule → D
  pub keys : D → List PoReg
  pub get-set :
      (d : D) (k k' : PoReg) (r : PoRegRule)
      → get (set d k r) k' ≡ (if same_reg k k' then some r else get d k')
  pub keys-get : (d : D) (k : PoReg) → holds k (keys d) ≡ is_some (get d k)

abbrev type_of : ℕ → RegType
type_of n =
    if n == 0
    then unused
    else (if n == 1
        then basic
        else (if n == 2
            then curr_targ_new
            else (if n == 3
                then curr_targ_old
                else (if n == 4
                    then expr
                    else (if n == 5 then old_sym_val else (if n == 6 then new_sym_val else cfa))))))

type_of-number : (t : RegType) → type_of (type_number t) ≡ t
unfolding type_number
type_of-number unused = refl
type_of-number basic = refl
type_of-number curr_targ_new = refl
type_of-number curr_targ_old = refl
type_of-number expr = refl
type_of-number old_sym_val = refl
type_of-number new_sym_val = refl
type_of-number cfa = refl

reg_eq : (a b : PoReg) → a.type ≡ b.type → a.size ≡ b.size → a.value ≡ b.value → a ≡ b
reg_eq a b t s v =
    ap (λ x. record a { type = x }) t
    ∙ (ap (λ x. record a { type = b.type; size = x }) s
        ∙ ap (λ x. record a { type = b.type; size = b.size; value = x }) v)

pub same_reg-eq : (a b : PoReg) → same_reg a b ≡ true → a ≡ b
unfolding same_reg
same_reg-eq a b h =
    let t : type_number a.type ≡ type_number b.type = ground arith in
    reg_eq a b (sym (type_of-number a.type) ∙ (ap type_of t ∙ type_of-number b.type)) (ground arith)
      (ground arith)

pub same_reg_refl : (a : PoReg) → same_reg a a ≡ true
unfolding same_reg type_number
same_reg_refl a = ground arith
