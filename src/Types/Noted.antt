-- ===== src/Types/Noted.antt =====
-- The answers of src/patchwrite/typediff.c as they are noted in the types.
use mathlib.Core.Path.{subst}
use kanana.Types.After.{
  open_types, get-modify, After, After-refl, After-trans, After-status, After-against, status-kept,
}
use kanana.Base.{
  ◌⊎◌, inr, ==_iff, ℕ, ◌≤◌, ◌≡◌, refl, sym, ap, ◌∙◌, arith, none, some, Bool, true, false, ◌==◌,
  if◌then◌else◌, get_elem?,
}
use kanana.Base.Memory.{assert}
use kanana.Base.Outcome.{Outcome, done, fault, then_run}
use kanana.Types.{TypediffStatus, not_done, differed, same, TypeInfo, Store}
use kanana.Types.Compare.{
  Compare, cached, compare_kind, generate, modify, set_against, set_status, type_eq,
}
use kanana.Types.Good.{Good, good, weaken-Good, then_run-Good, or_fault-Good, if-Good}
use kanana.Types.Parts.{Ends, compare_kind-Good, generate-Good}

-- What a comparison says, as it is noted in the types: they are of different kinds, or the first has been
-- compared to the second and has the status for the answer.
abbrev pub status_of : Bool → TypediffStatus
status_of true = same
status_of false = differed

pub record Noted (a_at b_at : ℕ) (r : Bool) (s : Store) : Type 0 where
  pub old : TypeInfo
  pub new : TypeInfo
  pub old_there : get_elem? s a_at ≡ some old
  pub new_there : get_elem? s b_at ≡ some new
  pub answer :
      ((type_eq old.type new.type ≡ false) × (r ≡ false))
      ⊎ ((type_eq old.type new.type ≡ true)
          × (old.diff_against ≡ some b_at)
          × (old.typediff_status ≡ status_of r))

abbrev pub Answered : ℕ → ℕ → Store → Bool × Store → Type 0
Answered a_at b_at s (r, s') = After s s' × Noted a_at b_at r s'

pub cached-Good :
    (a b : TypeInfo) (a_at c b_at : ℕ) (s : Store)
    → get_elem? s a_at ≡ some a
    → get_elem? s b_at ≡ some b
    → type_eq a.type b.type ≡ true
    → a.diff_against ≡ some c
    → Good (Answered a_at b_at s) (cached a c b_at s)
unfolding cached
cached-Good a b a_at c b_at s at_a at_b kinds against =
    or_fault-Good λ _ e. of_status a.typediff_status refl e
  where
    asserted : (x : Bool) → assert x ≡ some tt → x ≡ true
    asserted true h = refl
    asserted false h = absurd cc

    noted :
        (r : Bool)
        → assert (c == b_at) ≡ some tt
        → a.typediff_status ≡ status_of r
        → Answered a_at b_at s (r, s)
    noted r e h = (
      After-refl s,
      record {
        old = a;
        new = b;
        old_there = at_a;
        new_there = at_b;
        answer = inr (kinds, against ∙ ap some ((==_iff c b_at).0 (asserted (c == b_at) e)), h);
      },
    )

    of_status :
        (st : TypediffStatus)
        → a.typediff_status ≡ st
        → assert (c == b_at) ≡ some tt
        → Good (Answered a_at b_at s) (elim st as (λ _. Outcome (Bool × Store)) [
          | not_done ↦ fault
          | differed ↦ done (false, s)
          | same ↦ done (true, s)
        ])
    of_status not_done h e = good tt
    of_status differed h e = good (noted false e h)
    of_status same h e = good (noted true e h)

-- The two types of an answer, in a store that comes after one where the status was set.
pub sets-Noted :
    (a b : TypeInfo) (a_at b_at : ℕ) (r : Bool) (s s2 s' : Store)
    → get_elem? s a_at ≡ some a
    → get_elem? s b_at ≡ some b
    → type_eq a.type b.type ≡ true
    → After (modify s a_at (set_against b_at)) s2
    → After (modify s2 a_at (set_status (status_of r))) s'
    → After s s'
    → Noted a_at b_at r s'
sets-Noted a b a_at b_at r s s2 s' at_a at_b kinds h2 h' h =
    let (a2, at_a2, k2) =
      h2.settled a_at (set_against b_at a) (get-modify s a_at (set_against b_at) a at_a) in
    let (a3, at_a3, k3) =
      h'.settled a_at (set_status (status_of r) a2)
        (get-modify s2 a_at (set_status (status_of r)) a2 at_a2) in
    let (b3, at_b3, kb) = h.settled b_at b at_b in
    let against = k2.same_against b_at refl in
    record {
      old = a3;
      new = b3;
      old_there = at_a3;
      new_there = at_b3;
      answer = inr (
        rw (k3.same_type ∙ k2.same_type, kb.same_type) kinds,
        k3.same_against b_at against,
        k3.same_status b_at against,
      );
    }

module _ (compare : Compare) (n : ℕ) (ends : Ends compare n) (a b : TypeInfo) (a_at b_at : ℕ)
    (s : Store) (at_a : get_elem? s a_at ≡ some a) (at_b : get_elem? s b_at ≡ some b)
    (kinds : type_eq a.type b.type ≡ true) (unopened : a.diff_against ≡ none) where
  pub compared-Good :
      (retval : Bool)
      → open_types (modify s a_at (set_against b_at)) ≤ n
      → Good (Answered a_at b_at s) (
          then_run
            (compare_kind compare a.type a b retval (modify s a_at (set_against b_at)))
            λ (r, s2).
              if r
              then done (true, modify s2 a_at (set_status same))
              else generate compare a_at b_at a b s2)
  compared-Good retval h =
      let opened = After-against a_at b_at a at_a unopened in
      then_run-Good
        (compare_kind-Good compare n ends a.type a b retval (modify s a_at (set_against b_at)) h)
        λ (r, s2) h2.
          let marked =
            λ (st : TypediffStatus). After-status a_at st a at_a unopened (After-trans opened h2) in
          if-Good r
            (good (
              marked same,
              sets-Noted a b a_at b_at true s s2 (modify s2 a_at (set_status same)) at_a at_b kinds
                  h2 (After-refl (modify s2 a_at (set_status same))) (marked same),
            ))
            (weaken-Good
              (generate-Good compare n ends a_at b_at a b s2
                (omega (arith, h, h2.fewer, status-kept s2 a_at differed)))
              λ (r', s') (answer, h').
                let whole = After-trans (marked differed) h' in
                (
                  whole,
                  subst (λ x. Noted a_at b_at x s') (sym answer)
                      (sets-Noted a b a_at b_at false s s2 s' at_a at_b kinds h2 h' whole),
                ))
