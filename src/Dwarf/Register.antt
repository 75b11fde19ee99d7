-- ===== src/Dwarf/Register.antt =====
-- src/register.c: the registers of the patching machine, as LEB128 numbers.
-- An `int` is its bit pattern; the union of offset and index is one field.
pub mod Laws
use kanana.Base.{
  ℕ, suc, ◌-◌, ◌*◌, ◌%◌, ◌<◌, ◌+◌, ◌^◌, ◌≡◌, ◌≤◌, refl, ap, arith, Option, none, some, List, [],
  ◌∷◌, ◌++◌, Bool, true, false, ltb, leb, ◌==◌, ◌&&◌, ◌||◌, if◌then◌else◌, length, get_or, take,
  drop, All, inl, inr, Bool-cases,
}
use kanana.Base.Memory.{◌>>=◌, ◌>>◌, assert, IsByte}
use kanana.Leb.{decode_leb128}
use kanana.Leb.Value.{le_value}
use kanana.Leb.Words.{uint_to_leb128}

-- `E_REG_TYPE`; ERT_PO_START and ERT_PO_END are 0xF0 and 0xF7.
pub data RegType : Type 0 where
  unused basic curr_targ_new curr_targ_old expr old_sym_val new_sym_val cfa : RegType

pub record PoReg : Type 0 where
  pub type : RegType
  pub size : ℕ
  pub value : ℕ

abbrev pub no_reg : PoReg
no_reg = record { type = unused; size = 0; value = 0 }

abbrev pub basic_reg : ℕ → PoReg
basic_reg index = record { type = basic; size = 0; value = index }

unfoldable pub is_po_reg_type : ℕ → Bool
is_po_reg_type b = ltb 0xf0 b && ltb b 0xf7

-- A register of the target has its size and then its offset, of which bytes may be missing.
unfoldable pub target_reg : RegType → List ℕ → Option PoReg
target_reg type bytes =
    if leb 5 (length bytes) && leb (length bytes) 9
    then some (record {
      type = type;
      size = le_value (take 4 (drop 1 bytes));
      value = le_value (drop 5 bytes);
    })
    else none

unfoldable pub indexed_reg : RegType → List ℕ → Option PoReg
indexed_reg type bytes =
    if length bytes == 5
    then some (record { type = type; size = 0; value = le_value (drop 1 bytes) })
    else none

unfoldable pub po_reg : List ℕ → Option PoReg
po_reg bytes =
    let tag = get_or bytes 0 0 in
    if tag == 0xf1
    then target_reg curr_targ_new bytes
    else (if tag == 0xf2
        then target_reg curr_targ_old bytes
        else (if tag == 0xf3
            then indexed_reg expr bytes
            else (if tag == 0xf4
                then indexed_reg old_sym_val bytes
                else (if tag == 0xf5 then indexed_reg new_sym_val bytes else none))))

-- The `memcpy` into the index must end inside it, which the `assert` before it does not see to.
unfoldable pub read_basic : List ℕ → Option PoReg
read_basic bytes = do
  assert (ltb (length bytes) 8)
  assert (leb (length bytes) 4)
  some (basic_reg (le_value bytes))

unfoldable pub reg_of_bytes : List ℕ → Option PoReg
reg_of_bytes bytes = do
  assert (ltb 0 (length bytes))
  if ltb (get_or bytes 0 0) 0xf0 then read_basic bytes else po_reg bytes

unfoldable pub read_reg_from_leb128 : List ℕ → Option (PoReg × ℕ)
read_reg_from_leb128 leb = do
  (bytes, septets) ← decode_leb128 leb false
  reg ← reg_of_bytes bytes
  some (reg, septets)

unfoldable pub encode_reg_as_leb128 : PoReg → Option (List ℕ)
encode_reg_as_leb128 reg = elim reg.type [ basic ↦ uint_to_leb128 reg.value | _ ↦ none ]
