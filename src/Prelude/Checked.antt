-- ===== src/Prelude/Checked.antt =====
-- What a check accepts, or the error that it raises.
use mathlib.Core.Path.{◌≡◌, refl, ap}
use mathlib.Core.Bool.{Bool, true, false}
use mathlib.Core.Option.{Option, none, some}

pub data Checked (E A : Type 0) : Type 0 where
  accepted : A → Checked E A
  rejected : E → Checked E A

infixl 5 ◌>>=◌ ◌>>◌
abbrev pub ◌>>=◌ : {E A B : Type 0} → Checked E A → (A → Checked E B) → Checked E B
accepted a >>= f = f a
rejected e >>= f = rejected e

abbrev pub ◌>>◌ : {E B : Type 0} → Checked E (Unit {0}) → Checked E B → Checked E B
m >> k = m >>= λ _. k

-- `if not test: raise e`
abbrev pub require : {E : Type 0} → Bool → E → Checked E (Unit {0})
require true e = accepted tt
require false e = rejected e

-- `if value is None: raise e`
abbrev pub present : {E A : Type 0} → Option A → E → Checked E A
present none e = rejected e
present (some a) e = accepted a

module _ {E A B : Type 0} where
  -- What was accepted in the end was accepted at each step.
  pub accepted_by :
      (m : Checked E A) (f : A → Checked E B) (b : B)
      → (m >>= f) ≡ accepted b
      → (a : A) × (m ≡ accepted a) × (f a ≡ accepted b)
  accepted_by (accepted a) f b h = (a, refl, h)
  accepted_by (rejected e) f b h = cc

module _ {E B : Type 0} where
  pub required_by :
      (t : Bool) (e : E) (k : Checked E B) (b : B)
      → (require t e >> k) ≡ accepted b
      → (t ≡ true) × (k ≡ accepted b)
  required_by true e k b h = (refl, h)
  required_by false e k b h = cc

pub required_last : {E : Type 0} (t : Bool) (e : E) → require t e ≡ accepted tt → t ≡ true
required_last true e h = refl
required_last false e h = cc

module _ {E A : Type 0} where
  abbrev accepted_or : A → Checked E A → A
  accepted_or a (accepted b) = b
  accepted_or a (rejected e) = a

  pub accepted_inj : (a b : A) → ◌≡◌ {A = Checked E A} (accepted a) (accepted b) → a ≡ b
  accepted_inj a b h = ap (accepted_or a) h

  abbrev error_or : E → Checked E A → E
  error_or e (accepted a) = e
  error_or e (rejected f) = f

  pub rejected_inj : (e f : E) → ◌≡◌ {A = Checked E A} (rejected e) (rejected f) → e ≡ f
  rejected_inj e f h = ap (error_or e) h
