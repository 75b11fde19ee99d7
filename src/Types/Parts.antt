-- ===== src/Types/Parts.antt =====
-- The parts of src/patchwrite/typediff.c leave a later store, if the comparisons in them do.
use kanana.Types.After.{open_types, After, After-refl, After-trans, After-transformer}
use kanana.Base.{
  ℕ, ◌≤◌, ◌≡◌, refl, arith, Option, none, some, List, [], ◌∷◌, ◌++◌, Bool, false, not, ◌&&◌,
  if◌then◌else◌,
}
use kanana.Base.Outcome.{Outcome, done, or_fault}
use kanana.Types.{
  TypeType, struct, base, pointer, array, union, enum, subroutine_type, const, void, differed,
  FieldTransformType, delete, copy, recurse, TypeTransform, transformer, freed, TypeInfo, Store,
}
use kanana.Types.Compare.{
  Compare, FieldsDone, fields_done, unable, compare_pointed, compare_kind, pointer_transform,
  field_transform, recurse_field, transform_fields, is_straight, generate, modify, set_status,
  set_transformer, same_fields, has_transformer, type_eq, get_offset_for_field,
}
use kanana.Types.Good.{Good, good, then_run-Good, or_fault-Good, if-Good, elim-Good}

-- A store that a comparison can leave behind.
abbrev pub Left : {A : Type 0} → Store → A × Store → Type 0
Left s (_, s') = After s s'

abbrev pub LeftFields : Store → FieldsDone → Type 0
LeftFields s (fields_done offsets types s') = After s s'
LeftFields s (unable s') = After s s'

-- A comparison that ends on stores with that many open types, and opens none.
abbrev pub Ends : Compare → ℕ → Type 0
Ends compare n = (a b : ℕ) (s : Store) → open_types s ≤ n → Good (Left s) (compare a b s)

module _ (compare : Compare) (n : ℕ) (ends : Ends compare n) where
  pub compare_pointed-Good :
      (a b : TypeInfo) (retval : Bool) (s : Store)
      → open_types s ≤ n
      → Good (Left s) (compare_pointed compare a b retval s)
  unfolding compare_pointed
  compare_pointed-Good a b retval s h =
      then_run-Good (ends a.pointed_type b.pointed_type s h) λ (r, s') h'. good h'

  pub fields-Good :
      (a b : TypeInfo) (retval : Bool) (s : Store)
      → Good (Left s) (
          or_fault
            (if retval
              then same_fields s a.fields b.fields a.field_types b.field_types
              else some false)
            λ r. done (r, s))
  fields-Good a b retval s = or_fault-Good λ r e. good (After-refl s)

  pub compare_kind-Good :
      (type : TypeType) (a b : TypeInfo) (retval : Bool) (s : Store)
      → open_types s ≤ n
      → Good (Left s) (compare_kind compare type a b retval s)
  unfolding compare_kind
  compare_kind-Good struct a b retval s h = fields-Good a b retval s
  compare_kind-Good union a b retval s h = fields-Good a b retval s
  compare_kind-Good array a b retval s h =
      or_fault-Good λ _ _. or_fault-Good λ r _. compare_pointed-Good a b (retval && r) s h
  compare_kind-Good pointer a b retval s h = compare_pointed-Good a b retval s h
  compare_kind-Good const a b retval s h = compare_pointed-Good a b retval s h
  compare_kind-Good subroutine_type a b retval s h = good (After-refl s)
  compare_kind-Good base a b retval s h = good (After-refl s)
  compare_kind-Good enum a b retval s h = good (After-refl s)
  compare_kind-Good void a b retval s h = good (After-refl s)

  pub pointer_transform-Good :
      (old new : TypeInfo) (s : Store)
      → open_types s ≤ n
      → Good (Left s) (pointer_transform compare old new s)
  unfolding pointer_transform
  pointer_transform-Good old new s h =
      then_run-Good (ends old.pointed_type new.pointed_type s h) λ (r, s') h'.
        or_fault-Good λ pointed _.
          if-Good (has_transformer pointed.type_transformer) (good h')
            (if-Good r (good h') (good h'))

  pub field_transform-Good :
      (type : TypeType) (old new : TypeInfo) (s : Store)
      → open_types s ≤ n
      → Good (Left s) (field_transform compare type old new s)
  unfolding field_transform
  field_transform-Good base old new s h = good (After-refl s)
  field_transform-Good enum old new s h = good (After-refl s)
  field_transform-Good struct old new s h = good (After-refl s)
  field_transform-Good union old new s h = good (After-refl s)
  field_transform-Good pointer old new s h = pointer_transform-Good old new s h
  field_transform-Good const old new s h = pointer_transform-Good old new s h
  field_transform-Good array old new s h = good tt
  field_transform-Good subroutine_type old new s h = good tt
  field_transform-Good void old new s h = good tt

  pub recurse_field-Good :
      (type : TypeType) (way : FieldTransformType) (a b : ℕ) (s : Store)
      → open_types s ≤ n
      → Good (Left s) (recurse_field compare type way a b s)
  unfolding recurse_field
  recurse_field-Good type recurse a b s h = then_run-Good (ends a b s h) λ (r, s') h'.
      or_fault-Good λ old _. if-Good r (good h') (
        if-Good (not (has_transformer old.type_transformer)) (good h')
          (if-Good (type_eq type union) (good tt) (good h')))
  recurse_field-Good type delete a b s h = good (After-refl s)
  recurse_field-Good type copy a b s h = good (After-refl s)

  pub transform_fields-Good :
      (s0 : Store) (a b : TypeInfo) (fields : List (List ℕ)) (olds : List ℕ)
      (offsets : List (Option ℕ)) (types : List FieldTransformType) (s : Store)
      → After s0 s
      → open_types s0 ≤ n
      → Good (LeftFields s0) (transform_fields compare a b fields olds offsets types s)
  unfolding transform_fields
  transform_fields-Good s0 a b [] olds offsets types s h hn = good h
  transform_fields-Good s0 a b (field ∷ fields) [] offsets types s h hn = good h
  transform_fields-Good s0 a b (field ∷ fields) (old_at ∷ olds) offsets types s h hn =
      or_fault-Good λ new_at _. or_fault-Good λ old _. or_fault-Good λ new _.
        if-Good (type_eq old.type new.type)
          (then_run-Good (field_transform-Good old.type old new s (omega (arith, h.fewer, hn)))
            λ (way, s') h'.
              elim-Good way (λ _. good (After-trans h h'))
                λ type _. or_fault-Good λ old' _. or_fault-Good λ _ _.
                  then_run-Good
                    (recurse_field-Good a.type type old_at new_at s'
                      (omega (arith, h.fewer, h'.fewer, hn)))
                    λ (able, s'') h''.
                      if-Good able
                        (transform_fields-Good s0 a b fields olds
                          (offsets ++ get_offset_for_field b field ∷ []) (types ++ type ∷ []) s''
                          (After-trans h (After-trans h' h'')) hn)
                        (good (After-trans h (After-trans h' h''))))
          (transform_fields-Good s0 a b fields olds (offsets ++ none ∷ []) (types ++ delete ∷ []) s
            h hn)

  pub finished-Good :
      (s0 : Store) (a_at : ℕ) (finished : List (Option ℕ) → List FieldTransformType → TypeTransform)
      (r : FieldsDone)
      → LeftFields s0 r
      → Good
          (λ (r', s'). (r' ≡ false) × After s0 s')
          (elim r as (λ _. Outcome (Bool × Store)) [
            | unable s' ↦ done (false, modify s' a_at (set_transformer freed))
            | fields_done offsets types s' ↦
                done
                  (false, modify s' a_at (set_transformer (transformer (finished offsets types))))
          ])
  finished-Good s0 a_at finished (unable s') h = good (refl, After-transformer a_at freed h)
  finished-Good s0 a_at finished (fields_done offsets types s') h =
      good (refl, After-transformer a_at (transformer (finished offsets types)) h)

  pub generate-Good :
      (a_at b_at : ℕ) (a b : TypeInfo) (s : Store)
      → open_types (modify s a_at (set_status differed)) ≤ n
      → Good
          (λ (r, s'). (r ≡ false) × After (modify s a_at (set_status differed)) s')
          (generate compare a_at b_at a b s)
  unfolding generate
  generate-Good a_at b_at a b s h =
      let started : TypeTransform = record {
        from = a_at;
        to = b_at;
        straight_copy = is_straight a.type;
        field_offsets = [];
        field_transform_types = [];
      } in
      let s1 = modify s a_at (set_status differed) in
      then_run-Good
        (transform_fields-Good s1 a b a.fields a.field_types [] []
          (modify s1 a_at (set_transformer (transformer started)))
          (After-transformer a_at (transformer started) (After-refl s1)) h)
        λ r h'.
          finished-Good s1 a_at
            (λ offsets types. record started {
              field_offsets = offsets;
              field_transform_types = types;
            })
            r h'
