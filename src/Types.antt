-- ===== src/Types.antt =====
-- The types of src/types.h, for the comparison of two versions in src/patchwrite/typediff.c. A type is its
-- place in a store, and so is a pointer to one.
pub mod Compare
pub mod After
pub mod Good
pub mod Parts
pub mod Noted
pub mod Ends
mod Tests
use kanana.Base.{
  ℕ, ◌+◌, Option, none, some, List, [], ◌∷◌, Bool, true, false, ◌==◌, ◌&&◌, if◌then◌else◌,
}

-- `TYPE_TYPE`
pub data TypeType : Type 0 where
  struct base pointer array union enum subroutine_type const void : TypeType

abbrev pub number : TypeType → ℕ
number struct = 1
number base = 2
number pointer = 3
number array = 4
number union = 5
number enum = 6
number subroutine_type = 7
number const = 8
number void = 9

-- `E_TYPEDIFF_STATUS`
pub data TypediffStatus : Type 0 where
  not_done differed same : TypediffStatus

-- `E_FIELD_TRANSFORM_TYPE`
pub data FieldTransformType : Type 0 where
  delete copy recurse : FieldTransformType

-- `TypeTransform`; a field that is deleted has no offset.
pub record TypeTransform : Type 0 where
  pub from : ℕ
  pub to : ℕ
  pub straight_copy : Bool
  pub field_offsets : List (Option ℕ)
  pub field_transform_types : List FieldTransformType

-- The pointer to a transform may be left to one that has been freed.
pub data Transformer : Type 0 where
  no_transformer freed : Transformer
  transformer : TypeTransform → Transformer

-- `TypeInfo`, with lists that have `numFields` and `depth` elements.
pub record TypeInfo : Type 0 where
  pub name : List ℕ
  pub type : TypeType
  pub size : ℕ
  pub fields : List (List ℕ)
  pub field_types : List ℕ
  pub field_offsets : List ℕ
  pub pointed_type : ℕ
  pub lower_bounds : List ℕ
  pub upper_bounds : List ℕ
  pub diff_against : Option ℕ
  pub typediff_status : TypediffStatus
  pub type_transformer : Transformer

abbrev pub Store : Type 0
Store = List TypeInfo
