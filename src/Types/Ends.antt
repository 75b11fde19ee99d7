-- ===== src/Types/Ends.antt =====
-- The recursion of src/patchwrite/typediff.c over types that point at each other ends, once for each type.
use mathlib.Core.Path.{subst}
use kanana.Types.After.{open_types, open_types-le, modify-against, After-refl}
use kanana.Base.{
  inl, inr, ==_iff, ℕ, zero, suc, ◌≤◌, ◌≡◌, ◌≢◌, refl, arith, none, some, Bool, true, false, ◌==◌,
  ◌&&◌, if◌then◌else◌, length, get_elem?,
}
use kanana.Base.Outcome.{Outcome, done, fault, out_of_fuel, then_run, or_fault}
use kanana.Util.Dictionary.{str_eq}
use kanana.Types.{not_done, differed, same, TypeInfo, Store}
use kanana.Types.Compare.{
  cached, compare_kind, generate, compare_types_and_gen_transforms, modify, set_against, set_status,
  type_eq,
}
use kanana.Types.Good.{Good, good, weaken-Good, or_fault-Good, against-Good, if-not-Good}
use kanana.Types.Parts.{Ends}
use kanana.Types.Noted.{status_of, Noted, Answered, cached-Good, compared-Good}

-- A depth is enough for the comparison of two types if the one below it is for what they refer to.
EndsBelow : ℕ → Type 0
EndsBelow zero = Unit
EndsBelow (suc n) = Ends (compare_types_and_gen_transforms (suc n)) n

opened-Good :
    (n a_at b_at : ℕ) (a b : TypeInfo) (retval : Bool) (s : Store)
    → EndsBelow n
    → open_types s ≤ n
    → get_elem? s a_at ≡ some a
    → get_elem? s b_at ≡ some b
    → type_eq a.type b.type ≡ true
    → a.diff_against ≡ none
    → Good (Answered a_at b_at s) (
        then_run
          (compare_kind
            (compare_types_and_gen_transforms n)
            a.type
            a
            b
            retval
            (modify s a_at (set_against b_at)))
          λ (r, s2).
            if r
            then done (true, modify s2 a_at (set_status same))
            else generate (compare_types_and_gen_transforms n) a_at b_at a b s2)
unfolding EndsBelow
opened-Good zero a_at b_at a b retval s below h at_a at_b kinds unopened =
    absurd (omega (arith, h, modify-against s a_at b_at a at_a unopened))
opened-Good (suc n) a_at b_at a b retval s below h at_a at_b kinds unopened =
    compared-Good (compare_types_and_gen_transforms (suc n)) n below a b a_at b_at s at_a at_b kinds
      unopened retval (omega (arith, h, modify-against s a_at b_at a at_a unopened))

step-Good :
    (n a_at b_at : ℕ) (s : Store)
    → EndsBelow n
    → open_types s ≤ n
    → Good (Answered a_at b_at s) (compare_types_and_gen_transforms (suc n) a_at b_at s)
unfolding compare_types_and_gen_transforms
step-Good n a_at b_at s below h = or_fault-Good λ a at_a. or_fault-Good λ b at_b.
    if-not-Good (type_eq a.type b.type)
      (λ kinds. good (
        After-refl s,
        record { old = a; new = b; old_there = at_a; new_there = at_b; answer = inl (kinds, refl) },
      ))
      λ kinds.
        against-Good a.diff_against
          (λ unopened.
            opened-Good n a_at b_at a b
              (str_eq a.name b.name && ((length a.fields == length b.fields) && (a.size == b.size)))
              s below h at_a at_b kinds unopened)
          (λ c against. cached-Good a b a_at c b_at s at_a at_b kinds against)

below-Ends : (n : ℕ) → EndsBelow n
unfolding EndsBelow
below-Ends zero = tt
below-Ends (suc n) =
    λ a_at b_at s h. weaken-Good (step-Good n a_at b_at s (below-Ends n) h) λ _ answered. answered.0

compare-Good :
    (n a_at b_at : ℕ) (s : Store)
    → open_types s ≤ n
    → Good (Answered a_at b_at s) (compare_types_and_gen_transforms (suc n) a_at b_at s)
compare-Good n a_at b_at s h = step-Good n a_at b_at s (below-Ends n) h

ends-Good : {A : Type 0} {P : A → Type 0} {m : Outcome A} → Good P m → m ≢ out_of_fuel
ends-Good {m = done a} h e = absurd cc
ends-Good {m = fault} h e = absurd cc
ends-Good {m = out_of_fuel} h e = absurd h.is_good

-- A comparison of two types, in a store of any size with types that may point at each other, ends within a depth
-- of one more than the number of types: with an answer or with a fault.
pub compare_types_and_gen_transforms-ends :
    (s : Store) (a b : ℕ) → compare_types_and_gen_transforms (suc (length s)) a b s ≢ out_of_fuel
compare_types_and_gen_transforms-ends s a b =
    ends-Good (compare-Good (length s) a b s (open_types-le s))

answered-again :
    (k a_at b_at : ℕ) (r : Bool) (s : Store)
    → Noted a_at b_at r s
    → compare_types_and_gen_transforms (suc k) a_at b_at s ≡ done (r, s)
unfolding compare_types_and_gen_transforms or_fault cached
answered-again k a_at b_at r s noted = elim noted.answer [
  | inl (kinds, answer) ↦ rw (noted.old_there, noted.new_there, kinds, answer) refl
  | inr (kinds, against, status) ↦
      let itself : (b_at == b_at) ≡ true = (==_iff b_at b_at).1 refl in
      rw (noted.old_there, noted.new_there, kinds, against, itself) (of_status r status)
]
  where
    of_status :
        (r' : Bool)
        → noted.old.typediff_status ≡ status_of r'
        → elim noted.old.typediff_status as (λ _. Outcome (Bool × Store)) [
          | not_done ↦ fault
          | differed ↦ done (false, s)
          | same ↦ done (true, s)
        ]
          ≡ done (r', s)
    of_status true h = rw h refl
    of_status false h = rw h refl

-- When a comparison of two types, in any store, has given an answer, a second comparison of the two gives the
-- same answer, leaves the store as it is, and does not go to the types that they refer to.
pub compare_types_and_gen_transforms-again :
    (s s' : Store) (a b : ℕ) (r : Bool)
    → compare_types_and_gen_transforms (suc (length s)) a b s ≡ done (r, s')
    → compare_types_and_gen_transforms 1 a b s' ≡ done (r, s')
compare_types_and_gen_transforms-again s s' a b r run =
    answered-again 0 a b r s'
      (answer (subst (Good (Answered a b s)) run (compare-Good (length s) a b s (open_types-le s))))
  where
    answer : Good (Answered a b s) (done (r, s')) → Noted a b r s'
    answer h = h.is_good.1
