-- ===== src/Types/Compare.antt =====
-- `compareTypesAndGenTransforms` of src/patchwrite/typediff.c.
use kanana.Base.{
  ℕ, zero, suc, Option, none, some, List, [], ◌∷◌, ◌++◌, Bool, true, false, not, ◌==◌, ◌&&◌, ◌||◌,
  if◌then◌else◌, length, get_elem?, take,
}
use kanana.Base.Memory.{◌>>=◌, ◌>>◌, assert}
use kanana.Base.Outcome.{Outcome, done, fault, out_of_fuel, then_run, or_fault}
use kanana.Util.Dictionary.{str_eq}
use kanana.Types.{
  TypeType, struct, base, pointer, array, union, enum, subroutine_type, const, number,
  TypediffStatus, not_done, differed, same, FieldTransformType, delete, copy, recurse,
  TypeTransform, Transformer, no_transformer, freed, transformer, TypeInfo, Store,
}

abbrev pub type_eq : TypeType → TypeType → Bool
type_eq t u = number t == number u

-- `getIndexForField` and `getOffsetForField`; none is FIELD_DELETED.
unfoldable pub get_index_for_field : List (List ℕ) → List ℕ → Option ℕ
get_index_for_field [] name = none
get_index_for_field (field ∷ fields) name =
    let later = get_index_for_field fields name >>= λ i. some (suc i) in
    if str_eq name field then some 0 else later

unfoldable pub get_offset_for_field : TypeInfo → List ℕ → Option ℕ
get_offset_for_field t name = do i ← get_index_for_field t.fields name; get_elem? t.field_offsets i

unfoldable pub is_anonymous : List ℕ → Bool
is_anonymous name = str_eq (take 5 name) (b'a' ∷ b'n' ∷ b'o' ∷ b'n' ∷ b'_' ∷ [])

-- Whether a field of a structure or union has changed, from the names of the fields and their types.
unfoldable pub field_changed : List ℕ → List ℕ → TypeInfo → TypeInfo → Bool
field_changed field_a field_b a b =
    let differs =
      not (a.size == b.size) || (not (str_eq a.name b.name) || not (str_eq field_a field_b)) in
    let excused =
      is_anonymous a.name
      && (type_eq a.type b.type && (str_eq field_a field_b && (a.size == b.size))) in
    differs && not excused

-- Whether no field has changed; the two have as many.
unfoldable pub same_fields : Store → List (List ℕ) → List (List ℕ) → List ℕ → List ℕ → Option Bool
same_fields s (field_a ∷ fields_a) (field_b ∷ fields_b) (a ∷ as_) (b ∷ bs) = do
  type_a ← get_elem? s a
  type_b ← get_elem? s b
  let rest = same_fields s fields_a fields_b as_ bs
  if field_changed field_a field_b type_a type_b then some false else rest
same_fields s _ _ _ _ = some true

-- Whether the bounds of an array are the same; another lower bound is a death.
unfoldable pub same_bounds : List ℕ → List ℕ → List ℕ → List ℕ → Option Bool
same_bounds (lower_a ∷ las) (lower_b ∷ lbs) (upper_a ∷ uas) (upper_b ∷ ubs) =
    let rest = same_bounds las lbs uas ubs in
    if (lower_a == lower_b) && (upper_a == upper_b)
    then rest
    else if lower_a == lower_b
    then some false
    else none
same_bounds _ _ _ _ = some true

-- The assignments to the fields of a type.
unfoldable pub modify : Store → ℕ → (TypeInfo → TypeInfo) → Store
modify [] i f = []
modify (t ∷ s) zero f = f t ∷ s
modify (t ∷ s) (suc i) f = t ∷ modify s i f

abbrev pub set_against : ℕ → TypeInfo → TypeInfo
set_against b t = record t { diff_against = some b }

abbrev pub set_status : TypediffStatus → TypeInfo → TypeInfo
set_status st t = record t { typediff_status = st }

abbrev pub set_transformer : Transformer → TypeInfo → TypeInfo
set_transformer tr t = record t { type_transformer = tr }

abbrev pub has_transformer : Transformer → Bool
has_transformer no_transformer = false
has_transformer _ = true

-- The comparison of two types, from a store to a store.
abbrev pub Compare : Type 0
Compare = ℕ → ℕ → Store → Outcome (Bool × Store)

-- A type that has been compared is not compared again.
unfoldable pub cached : TypeInfo → ℕ → ℕ → Store → Outcome (Bool × Store)
cached a c b s = or_fault (assert (c == b)) λ _. elim a.typediff_status [
  | not_done ↦ fault
  | differed ↦ done (false, s)
  | same ↦ done (true, s)
]

-- What the switch on the type makes of `retval`; a comparison of the types pointed at comes last.
unfoldable pub compare_pointed :
    Compare → TypeInfo → TypeInfo → Bool → Store → Outcome (Bool × Store)
compare_pointed compare a b retval s =
    then_run (compare a.pointed_type b.pointed_type s) λ (r, s'). done (retval && r, s')

unfoldable pub compare_kind :
    Compare → TypeType → TypeInfo → TypeInfo → Bool → Store → Outcome (Bool × Store)
compare_kind compare struct a b retval s =
    or_fault
      (if retval then same_fields s a.fields b.fields a.field_types b.field_types else some false)
      λ r. done (r, s)
compare_kind compare union a b retval s =
    or_fault
      (if retval then same_fields s a.fields b.fields a.field_types b.field_types else some false)
      λ r. done (r, s)
compare_kind compare array a b retval s =
    or_fault (assert (length a.lower_bounds == length b.lower_bounds)) λ _.
      or_fault (same_bounds a.lower_bounds b.lower_bounds a.upper_bounds b.upper_bounds)
        λ r. compare_pointed compare a b (retval && r) s
compare_kind compare pointer a b retval s = compare_pointed compare a b retval s
compare_kind compare const a b retval s = compare_pointed compare a b retval s
compare_kind compare subroutine_type a b retval s = done (true, s)
compare_kind compare _ a b retval s = done (retval, s)

-- The transforms of the fields so far, or that none can be made.
pub data FieldsDone : Type 0 where
  fields_done : List (Option ℕ) → List FieldTransformType → Store → FieldsDone
  unable : Store → FieldsDone

-- How a field of one of the types is transformed, from the types that it points at, if it is a pointer.
unfoldable pub pointer_transform :
    Compare → TypeInfo → TypeInfo → Store → Outcome (Option FieldTransformType × Store)
pointer_transform compare old new s =
    then_run (compare old.pointed_type new.pointed_type s) λ (r, s').
      or_fault (get_elem? s' old.pointed_type) λ pointed.
        if has_transformer pointed.type_transformer
        then done (some recurse, s')
        else if r
        then done (some copy, s')
        else done (none, s')

unfoldable pub field_transform :
    Compare → TypeType → TypeInfo → TypeInfo → Store → Outcome (Option FieldTransformType × Store)
field_transform compare base old new s = done (some copy, s)
field_transform compare enum old new s = done (some copy, s)
field_transform compare struct old new s = done (some recurse, s)
field_transform compare union old new s = done (some recurse, s)
field_transform compare pointer old new s = pointer_transform compare old new s
field_transform compare const old new s = pointer_transform compare old new s
field_transform compare _ old new s = fault

-- A field's type that has a transform to another type is a death; one that is freed is no object.
unfoldable pub transforms_to : Transformer → ℕ → Bool
transforms_to no_transformer b = true
transforms_to freed b = false
transforms_to (transformer tr) b = tr.to == b

-- The comparison of the types of a field, if it needs one: whether the fields can go on.
unfoldable pub recurse_field :
    Compare → TypeType → FieldTransformType → ℕ → ℕ → Store → Outcome (Bool × Store)
recurse_field compare type recurse a b s = then_run (compare a b s) λ (r, s').
    or_fault (get_elem? s' a) λ old.
      if r
      then done (true, s')
      else if not (has_transformer old.type_transformer)
      then done (false, s')
      else if type_eq type union
      then fault
      else done (true, s')
recurse_field compare type _ a b s = done (true, s)

-- The loop over the fields of `a`: their names and the places of their types.
unfoldable pub transform_fields :
    Compare
    → TypeInfo
    → TypeInfo
    → List (List ℕ)
    → List ℕ
    → List (Option ℕ)
    → List FieldTransformType
    → Store
    → Outcome FieldsDone
transform_fields compare a b (field ∷ fields) (old_at ∷ olds) offsets types s =
    or_fault (get_index_for_field b.fields field >>= get_elem? b.field_types) λ new_at.
      or_fault (get_elem? s old_at) λ old. or_fault (get_elem? s new_at) λ new.
        let deleted =
          transform_fields compare a b fields olds (offsets ++ none ∷ []) (types ++ delete ∷ [])
            s in
        let goes_on = λ (type : FieldTransformType) (s' : Store).
          transform_fields compare a b fields olds (offsets ++ get_offset_for_field b field ∷ [])
            (types ++ type ∷ []) s' in
        let transformed = then_run (field_transform compare old.type old new s) λ (way, s').
          elim way [
            | none ↦ done (unable s')
            | some type ↦ or_fault (get_elem? s' old_at) λ old'.
                or_fault (assert (transforms_to old'.type_transformer new_at)) λ _.
                  then_run (recurse_field compare a.type type old_at new_at s')
                    λ (able, s''). if able then goes_on type s'' else done (unable s'')
          ] in
        if type_eq old.type new.type then transformed else deleted
transform_fields compare a b _ _ offsets types s = done (fields_done offsets types s)

-- `genStraightCopyTransform`
unfoldable pub gen_straight_copy_transform : ℕ → ℕ → Store → Option Store
gen_straight_copy_transform a_at b_at s = do
  a ← get_elem? s a_at
  assert (not (has_transformer a.type_transformer))
  let copied : TypeTransform = record {
    from = a_at;
    to = b_at;
    straight_copy = true;
    field_offsets = [];
    field_transform_types = [];
  }
  some (modify s a_at (set_transformer (transformer copied)))

abbrev pub is_straight : TypeType → Bool
is_straight t = type_eq t union || (type_eq t enum || type_eq t array)

-- The transform of a type that has changed.
unfoldable pub generate : Compare → ℕ → ℕ → TypeInfo → TypeInfo → Store → Outcome (Bool × Store)
generate compare a_at b_at a b s =
    let started : TypeTransform = record {
      from = a_at;
      to = b_at;
      straight_copy = is_straight a.type;
      field_offsets = [];
      field_transform_types = [];
    } in
    let s1 =
      modify (modify s a_at (set_status differed)) a_at (set_transformer (transformer started)) in
    then_run (transform_fields compare a b a.fields a.field_types [] [] s1) λ r. elim r [
      | unable s' ↦ done (false, modify s' a_at (set_transformer freed))
      | fields_done offsets types s' ↦
          let whole = record started { field_offsets = offsets; field_transform_types = types } in
          done (false, modify s' a_at (set_transformer (transformer whole)))
    ]

-- The first argument bounds the depth.
unfoldable pub compare_types_and_gen_transforms : ℕ → Compare
compare_types_and_gen_transforms zero a_at b_at s = out_of_fuel
compare_types_and_gen_transforms (suc rounds) a_at b_at s = or_fault (get_elem? s a_at) λ a.
    or_fault (get_elem? s b_at) λ b.
      let retval =
        str_eq a.name b.name && ((length a.fields == length b.fields) && (a.size == b.size)) in
      let s1 = modify s a_at (set_against b_at) in
      let compared =
        then_run (compare_kind (compare_types_and_gen_transforms rounds) a.type a b retval s1)
          λ (r, s2).
            if r
            then done (true, modify s2 a_at (set_status same))
            else generate (compare_types_and_gen_transforms rounds) a_at b_at a b s2 in
      if not (type_eq a.type b.type)
      then done (false, s)
      else elim a.diff_against [ some c ↦ cached a c b_at s | none ↦ compared ]
