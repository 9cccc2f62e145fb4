-- ===== src/Prelude/Outcome.antt =====
-- How a call ends, and the rules for calls that end well.
use mathlib.Core.Path.{◌≡◌, refl, subst, sym}
use mathlib.Core.Bool.{Bool, true, false}
use mathlib.Core.Option.{Option, none, some}
use goev.Prelude.Tests.{if◌then◌else◌}

-- A value, a run-time panic (an index out of range, a nil dereference, a call of `panic`), or the
-- end of the model's fuel.
pub data Run {ℓ} (A : Type ℓ) : Type ℓ where
  ok : A → Run A
  panic : Run A
  out_of_fuel : Run A

infixl 5 ◌>>=◌
abbrev pub ◌>>=◌ {ℓ κ} : {A : Type ℓ} {B : Type κ} → Run A → (A → Run B) → Run B
ok a >>= f = f a
panic >>= f = panic
out_of_fuel >>= f = out_of_fuel

-- `none` is a panic.
abbrev pub demand {ℓ} : {A : Type ℓ} → Option A → Run A
demand (some a) = ok a
demand none = panic

-- The run returns normally, and its value has the property.
pub data Ends {ℓ κ} {A : Type ℓ} (P : A → Type κ) : Run A → Type (ℓ ⊔ κ) where
  ends : {a : A} → P a → Ends P (ok a)

module _ {ℓ κ} {A : Type ℓ} {P : A → Type κ} where
  pub Ends-bind {ℓ' κ'} :
      {B : Type ℓ'} {Q : B → Type κ'} {m : Run A} {f : A → Run B}
      → Ends P m
      → ((a : A) → P a → Ends Q (f a))
      → Ends Q (m >>= f)
  Ends-bind (ends p) k = k _ p

  -- A call that binds, and what follows the call.
  pub Ends-bind-bind {ℓ' ℓ'' κ'} :
      {B : Type ℓ'} {C : Type ℓ''} {Q : C → Type κ'} {m : Run A} (f : A → Run B) (k : B → Run C)
      → Ends P m
      → ((a : A) → P a → Ends Q (f a >>= k))
      → Ends Q ((m >>= f) >>= k)
  Ends-bind-bind f k (ends p) next = next _ p

  -- A call in tail position.
  pub Ends-tail : (m : Run A) → Ends P (m >>= λ a. ok a) → Ends P m
  Ends-tail (ok a) e = e
  Ends-tail panic e = e
  Ends-tail out_of_fuel e = e

  pub Ends-weaken {κ'} : {Q : A → Type κ'} {m : Run A} → Ends P m → ((a : A) → P a → Q a) → Ends Q m
  Ends-weaken (ends p) k = ends (k _ p)

  pub Ends-test :
      {x y : Run A} (b : Bool)
      → (b ≡ true → Ends P x)
      → (b ≡ false → Ends P y)
      → Ends P (if b then x else y)
  Ends-test true p q = p refl
  Ends-test false p q = q refl

  -- Two properties of the same run.
  pub Ends-both {κ'} : {Q : A → Type κ'} {m : Run A} → Ends P m → Ends Q m → Ends (λ a. P a × Q a) m
  Ends-both (ends p) (ends q) = ends (p, q)

  pub Ends-value : {m : Run A} → Ends P m → (a : A) × (m ≡ ok a) × P a
  Ends-value (ends p) = (_, refl, p)

  pub Ends-of_eq : {m : Run A} {a : A} → m ≡ ok a → P a → Ends P m
  Ends-of_eq e p = subst (Ends P) (sym e) (ends p)
