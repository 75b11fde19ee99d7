-- ===== src/Types/Good.antt =====
-- Outcomes of the comparison of types in src/patchwrite/typediff.c, and what holds of their results.
use kanana.Base.{◌≡◌, refl, Option, none, some, Bool, true, false, not, if◌then◌else◌}
use kanana.Base.Outcome.{Outcome, done, fault, out_of_fuel, then_run, or_fault}

-- An outcome that is not for lack of rounds, and is as said if there is one.
abbrev pub IsGood : {A : Type 0} → (A → Type 0) → Outcome A → Type 0
IsGood P (done a) = P a
IsGood P fault = Unit
IsGood P out_of_fuel = ⊥

pub record Good {A : Type 0} (P : A → Type 0) (m : Outcome A) : Type 0 where
  pub is_good : IsGood P m

pub good : {A : Type 0} {P : A → Type 0} {m : Outcome A} → IsGood P m → Good P m
good h = record { is_good = h }

pub weaken-Good :
    {A : Type 0} {P Q : A → Type 0} {m : Outcome A} → Good P m → ((a : A) → P a → Q a) → Good Q m
weaken-Good {m = done a} h hpq = good (hpq a h.is_good)
weaken-Good {m = fault} h hpq = good tt
weaken-Good {m = out_of_fuel} h hpq = absurd h.is_good

pub then_run-Good :
    {A B : Type 0} {P : A → Type 0} {Q : B → Type 0} {m : Outcome A} {f : A → Outcome B}
    → Good P m
    → ((a : A) → P a → Good Q (f a))
    → Good Q (then_run m f)
unfolding then_run
then_run-Good {m = done a} h hf = hf a h.is_good
then_run-Good {m = fault} h hf = good tt
then_run-Good {m = out_of_fuel} h hf = absurd h.is_good

pub or_fault-Good :
    {A B : Type 0} {Q : B → Type 0} {m : Option A} {f : A → Outcome B}
    → ((a : A) → m ≡ some a → Good Q (f a))
    → Good Q (or_fault m f)
unfolding or_fault
or_fault-Good {m = none} hf = good tt
or_fault-Good {m = some a} hf = hf a refl

pub if-Good :
    {B : Type 0} {Q : B → Type 0} (b : Bool) {x y : Outcome B}
    → Good Q x
    → Good Q y
    → Good Q (if b then x else y)
if-Good true hx hy = hx
if-Good false hx hy = hy

pub elim-Good :
    {A B : Type 0} {Q : B → Type 0} (o : Option A) {x : Outcome B} {f : A → Outcome B}
    → (o ≡ none → Good Q x)
    → ((a : A) → o ≡ some a → Good Q (f a))
    → Good Q (elim o [ none ↦ x | some a ↦ f a ])
elim-Good none hx hf = hx refl
elim-Good (some a) hx hf = hf a refl

pub against-Good :
    {A B : Type 0} {Q : B → Type 0} (o : Option A) {x : Outcome B} {f : A → Outcome B}
    → (o ≡ none → Good Q x)
    → ((a : A) → o ≡ some a → Good Q (f a))
    → Good Q (elim o [ some a ↦ f a | none ↦ x ])
against-Good none hx hf = hx refl
against-Good (some a) hx hf = hf a refl

pub if-not-Good :
    {B : Type 0} {Q : B → Type 0} (b : Bool) {x y : Outcome B}
    → (b ≡ false → Good Q x)
    → (b ≡ true → Good Q y)
    → Good Q (if not b then x else y)
if-not-Good true hx hy = hy refl
if-not-Good false hx hy = hx refl
