-- ===== src/Base/Faults.antt =====
-- Runs that may end in a fault: what C leaves undefined, and a failed `assert`.
use Prim.Native.Nat.{ℕ, zero, suc, ◌<◌}
use mathlib.Core.Path.{◌≡◌, refl, ap}
use mathlib.Core.Logic.{◌≢◌}
use mathlib.Core.List.{List, [], ◌∷◌}
use mathlib.Core.Option.{Option, none, some}
use native.Mathlib.Omega.{arith}
use orchid_linux.Base.Lists.{get_elem?, set, length}

-- An access outside an array, a use of a null pointer, an assertion that does not hold, a division by
-- zero, an exception of C++ that nothing catches, a loop that runs longer than the rounds the model
-- gives it.
pub data Fault : Type 0 where
  out_of_bounds null_pointer assertion divide_by_zero thrown no_fuel : Fault

pub data Run {ℓ} (A : Type ℓ) : Type ℓ where
  fault : Fault → Run A
  ok : A → Run A

-- The rest of the run, after a value.
infixl 5 ◌>>=◌
abbrev pub ◌>>=◌ {ℓ μ} : {A : Type ℓ} {B : Type μ} → Run A → (A → Run B) → Run B
fault reason >>= rest = fault reason
ok value >>= rest = rest value

-- A value that must be there.
abbrev pub or_fault {ℓ} : {A : Type ℓ} → Fault → Option A → Run A
or_fault e none = fault e
or_fault e (some a) = ok a

-- A read of an array.
abbrev pub read {ℓ} : {A : Type ℓ} → List A → ℕ → Run A
read xs i = or_fault out_of_bounds (get_elem? xs i)

-- A write to an array.
unfoldable pub write {ℓ} : {A : Type ℓ} → List A → ℕ → A → Run (List A)
write xs i v = read xs i >>= λ old. ok (set xs i v)

-- The run returns a value with the property.
abbrev pub Returns {ℓ μ} : {A : Type ℓ} → Run A → (A → Type μ) → Type (ℓ ⊔ μ)
Returns {A} run P = (result : A) × (run ≡ ok result) × P result

module _ {ℓ} {A : Type ℓ} where
  pub read-inside : (xs : List A) (i : ℕ) → i < length xs → (a : A) × (read xs i ≡ ok a)
  read-inside [] i h = absurd (omega arith)
  read-inside (x ∷ xs) zero h = (x, refl)
  read-inside (x ∷ xs) (suc i) h = read-inside xs i (omega arith)

  pub write-inside : (xs : List A) (i : ℕ) (v : A) → i < length xs → write xs i v ≡ ok (set xs i v)
  unfolding write
  write-inside xs i v h = rw (read-inside xs i h).1

  pub read-set_self : (xs : List A) (i : ℕ) (v : A) → i < length xs → read (set xs i v) i ≡ ok v
  read-set_self [] i v h = absurd (omega arith)
  read-set_self (x ∷ xs) zero v h = refl
  read-set_self (x ∷ xs) (suc i) v h = read-set_self xs i v (omega arith)

  pub read-set_ne : (xs : List A) (i j : ℕ) (v : A) → i ≢ j → read (set xs i v) j ≡ read xs j
  read-set_ne [] i j v h = refl
  read-set_ne (x ∷ xs) zero zero v h = absurd (h refl)
  read-set_ne (x ∷ xs) zero (suc j) v h = refl
  read-set_ne (x ∷ xs) (suc i) zero v h = refl
  read-set_ne (x ∷ xs) (suc i) (suc j) v h = read-set_ne xs i j v (λ e. h (ap suc e))

abbrev result_or {ℓ} : {A : Type ℓ} → A → Run A → A
result_or a (fault e) = a
result_or a (ok b) = b

pub ok_injective {ℓ} : {A : Type ℓ} {a b : A} → ok a ≡ ok b → a ≡ b
ok_injective {A} {a} {b} e = ap (result_or a) e

module _ {ℓ μ ν} {A : Type ℓ} {B : Type μ} {C : Type ν} where
  pub bind_assoc :
      (r : Run A) (f : A → Run B) (h : B → Run C) → (r >>= f >>= h) ≡ (r >>= λ a. f a >>= h)
  bind_assoc (fault e) f h = refl
  bind_assoc (ok a) f h = refl

module _ {ℓ μ} {A : Type ℓ} {B : Type μ} where
  pub bind_congr : (r : Run A) (f h : A → Run B) → ((a : A) → f a ≡ h a) → (r >>= f) ≡ (r >>= h)
  bind_congr (fault e) f h same = refl
  bind_congr (ok a) f h same = same a
