-- ===== src/Base/Memory.antt =====
-- Access to the memory of an object. `none` is an access outside the object, or a failed
-- `assert` or `death`, which end the program.
use Prim.Native.Nat.{ℕ, zero, suc, ◌<◌}
use mathlib.Core.Path.{◌≡◌, refl, ap}
use mathlib.Core.Bool.{Bool, true, false}
use mathlib.Core.Option.{Option, none, some}
use mathlib.Core.List.{List, [], ◌∷◌}
use native.Mathlib.Omega.{arith}
use kanana.Base.Lists.{length, get_elem?, get_or, set, take}
use kanana.Base.Tests.{leb, if◌then◌else◌}

infixl 5 ◌>>=◌ ◌>>◌
abbrev pub ◌>>=◌ {ℓ κ} : {A : Type ℓ} {B : Type κ} → Option A → (A → Option B) → Option B
none >>= f = none
some a >>= f = f a

abbrev pub ◌>>◌ {ℓ} : {B : Type ℓ} → Option (Unit {0}) → Option B → Option B
m >> k = m >>= λ _. k

-- `assert(b)`
abbrev pub assert : Bool → Option (Unit {0})
assert true = some tt
assert false = none

-- `buf[i]=v`
abbrev pub store {ℓ} : {A : Type ℓ} → List A → ℕ → A → Option (List A)
store [] i v = none
store (x ∷ xs) zero v = some (v ∷ xs)
store (x ∷ xs) (suc i) v = store xs i v >>= λ ys. some (x ∷ ys)

-- The first `n` bytes of an object, as `memcpy` reads them.
abbrev pub read_bytes {ℓ} : {A : Type ℓ} → ℕ → List A → Option (List A)
read_bytes n xs = if leb n (length xs) then some (take n xs) else none

abbrev pub IsByte : ℕ → Type 0
IsByte b = b < 256

module _ {ℓ} {A : Type ℓ} where
  pub get_elem?-some :
      (xs : List A) (i : ℕ) (d : A) → i < length xs → get_elem? xs i ≡ some (get_or xs i d)
  get_elem?-some [] i d h = absurd (omega arith)
  get_elem?-some (x ∷ xs) zero d h = refl
  get_elem?-some (x ∷ xs) (suc i) d h = get_elem?-some xs i d (omega arith)

  pub store-some : (xs : List A) (i : ℕ) (v : A) → i < length xs → store xs i v ≡ some (set xs i v)
  store-some [] i v h = absurd (omega arith)
  store-some (x ∷ xs) zero v h = refl
  store-some (x ∷ xs) (suc i) v h =
      ap (λ o. o >>= λ ys. some (x ∷ ys)) (store-some xs i v (omega arith))

module _ {ℓ κ} {A : Type ℓ} {B : Type κ} where
  pub bind-some :
      (m : Option A) (f : A → Option B) (b : B)
      → (m >>= f) ≡ some b
      → (a : A) × (m ≡ some a) × (f a ≡ some b)
  bind-some none f b h = absurd cc
  bind-some (some a) f b h = (a, refl, h)

pub taken {ℓ} :
    {A : Type ℓ} (b : Bool) (m n : Option A) (a : A)
    → b ≡ true
    → (if b then m else n) ≡ some a
    → m ≡ some a
taken b m n a e h = rw e at h
