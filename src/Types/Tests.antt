-- ===== src/Types/Tests.antt =====
-- A list node that gains a field, whose types are compared as src/patchwrite/typediff.c does.
use kanana.Base.{ℕ, ◌≡◌, ◌≢◌, refl, Option, none, some, List, [], ◌∷◌, Bool, false, get_elem?}
use kanana.Base.Memory.{◌>>=◌}
use kanana.Base.Outcome.{Outcome, done, out_of_fuel, then_run, or_fault}
use kanana.Util.Dictionary.{str_eq}
use kanana.Types.{
  TypeType, struct, base, pointer, not_done, copy, Transformer, no_transformer, transformer,
  TypeInfo, Store,
}
use kanana.Types.Compare.{
  cached, compare_pointed, compare_kind, pointer_transform, field_transform, recurse_field,
  transform_fields, generate, compare_types_and_gen_transforms, modify, same_fields,
  get_index_for_field, get_offset_for_field, transforms_to,
}
use kanana.Types.Ends.{
  compare_types_and_gen_transforms-ends, compare_types_and_gen_transforms-again,
}

abbrev a_type : List ℕ → TypeType → ℕ → List (List ℕ) → List ℕ → List ℕ → ℕ → TypeInfo
a_type name type size fields field_types field_offsets pointed = record {
  name = name;
  type = type;
  size = size;
  fields = fields;
  field_types = field_types;
  field_offsets = field_offsets;
  pointed_type = pointed;
  lower_bounds = [];
  upper_bounds = [];
  diff_against = none;
  typediff_status = not_done;
  type_transformer = no_transformer;
}

-- struct n { int v; int *p; } gains a field at its start, as a type 3.
abbrev node : Store
node =
    a_type (b'n' ∷ []) struct 8 ((b'v' ∷ []) ∷ (b'p' ∷ []) ∷ []) (1 ∷ 2 ∷ []) (0 ∷ 4 ∷ []) 9
    ∷ a_type (b'i' ∷ []) base 4 [] [] [] 9
    ∷ a_type (b'*' ∷ []) pointer 4 [] [] [] 1
    ∷ a_type (b'n' ∷ []) struct 12 ((b'k' ∷ []) ∷ (b'v' ∷ []) ∷ (b'p' ∷ []) ∷ []) (4 ∷ 4 ∷ 5 ∷ [])
        (0 ∷ 4 ∷ 8 ∷ []) 9
    ∷ a_type (b'i' ∷ []) base 4 [] [] [] 9
    ∷ a_type (b'*' ∷ []) pointer 4 [] [] [] 4
    ∷ []

-- struct n { struct n *p; } against the same in the new version.
abbrev list : Store
list =
    a_type (b'n' ∷ []) struct 4 ((b'p' ∷ []) ∷ []) (1 ∷ []) (0 ∷ []) 9
    ∷ a_type (b'*' ∷ []) pointer 4 [] [] [] 0
    ∷ a_type (b'n' ∷ []) struct 8 ((b'p' ∷ []) ∷ (b'v' ∷ []) ∷ []) (3 ∷ 4 ∷ []) (0 ∷ 4 ∷ []) 9
    ∷ a_type (b'*' ∷ []) pointer 4 [] [] [] 2
    ∷ a_type (b'i' ∷ []) base 4 [] [] [] 9
    ∷ []

abbrev answer : Outcome (Bool × Store) → Option Bool
answer (done (r, _)) = some r
answer _ = none

abbrev transform_of : ℕ → Outcome (Bool × Store) → Option Transformer
transform_of i (done (_, s)) = get_elem? s i >>= λ t. some t.type_transformer
transform_of i _ = none

-- The field moves and its pointer is copied, since the type it points at is the same.
node-transform :
    transform_of 0 (compare_types_and_gen_transforms 7 0 3 node)
    ≡ some (
        transformer (record {
          from = 0;
          to = 3;
          straight_copy = false;
          field_offsets = some 4 ∷ some 8 ∷ [];
          field_transform_types = copy ∷ copy ∷ [];
        }))
unfolding compare_types_and_gen_transforms generate transform_fields field_transform
    pointer_transform recurse_field compare_kind compare_pointed cached modify same_fields
    get_index_for_field get_offset_for_field transforms_to then_run or_fault str_eq
node-transform = refl

-- From the pointer to the node, the pointer is reached again while it is compared: the assertion fails.
list-pointer : answer (compare_types_and_gen_transforms 6 1 3 list) ≡ none
unfolding compare_types_and_gen_transforms generate transform_fields field_transform
    pointer_transform recurse_field compare_kind compare_pointed cached modify same_fields
    get_index_for_field get_offset_for_field transforms_to then_run or_fault str_eq
list-pointer = refl

-- From the node itself, its transform is there when the pointer needs it.
list-node : answer (compare_types_and_gen_transforms 6 0 2 list) ≡ some false
unfolding compare_types_and_gen_transforms generate transform_fields field_transform
    pointer_transform recurse_field compare_kind compare_pointed cached modify same_fields
    get_index_for_field get_offset_for_field transforms_to then_run or_fault str_eq
list-node = refl

compare_types_and_gen_transforms-ends_example :
    compare_types_and_gen_transforms 6 1 3 list ≢ out_of_fuel
compare_types_and_gen_transforms-ends_example = compare_types_and_gen_transforms-ends list 1 3

abbrev store_of : Outcome (Bool × Store) → Store
store_of (done (_, s)) = s
store_of _ = []

abbrev compared : Store
compared = store_of (compare_types_and_gen_transforms 6 0 2 list)

list-compared : compare_types_and_gen_transforms 6 0 2 list ≡ done (false, compared)
unfolding compare_types_and_gen_transforms generate transform_fields field_transform
    pointer_transform recurse_field compare_kind compare_pointed cached modify same_fields
    get_index_for_field get_offset_for_field transforms_to then_run or_fault str_eq
list-compared = refl

-- The nodes again, which differ.
compare_types_and_gen_transforms-again_example :
    compare_types_and_gen_transforms 1 0 2 compared ≡ done (false, compared)
compare_types_and_gen_transforms-again_example =
    compare_types_and_gen_transforms-again list compared 0 2 false list-compared
