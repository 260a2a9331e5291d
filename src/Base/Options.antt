-- ===== src/Base/Options.antt =====
-- `Option::map` and `Option::and_then` of the standard library.
use evilresp.Base.Tests.{if◌then◌else◌}
use mathlib.Core.Bool.{Bool, true, false}
use mathlib.Core.Option.{Option, none, some}
use mathlib.Core.Path.{◌≡◌, refl, subst}

module _ {ℓ κ} {A : Type ℓ} {B : Type κ} where
  abbrev pub map : (A → B) → Option A → Option B
  map f none = none
  map f (some a) = some (f a)

  abbrev pub bind : Option A → (A → Option B) → Option B
  bind none f = none
  bind (some a) f = f a

  pub bind-eq-some :
      (o : Option A) (f : A → Option B) {b : B}
      → bind o f ≡ some b
      → (a : A) × (o ≡ some a) × (f a ≡ some b)
  bind-eq-some none f h = cc
  bind-eq-some (some a) f h = (a, refl, h)

module _ {ℓ} {A : Type ℓ} where
  -- A refusal by a test, undone.
  pub if_none-eq-some :
      (b : Bool) (x : Option A) {a : A}
      → (if b then none else x) ≡ some a
      → (b ≡ false) × (x ≡ some a)
  if_none-eq-some true x h = cc
  if_none-eq-some false x h = (refl, h)

-- What holds of a value holds of the value of an equal option.
pub of_some {ℓ κ} : {A : Type ℓ} (P : A → Type κ) {a b : A} → some a ≡ some b → P a → P b
of_some P e h = subst P (cc) h
