-- ===== src/Prelude/Options.antt =====
-- The monad of fallible steps: `none` is a step that C leaves undefined, or a lookup that fails.
use mathlib.Core.Path.{◌≡◌, refl}
use mathlib.Core.Logic.{◌↔◌}
use mathlib.Core.Option.{Option, none, some}

infixl 5 ◌>>=◌
abbrev pub ◌>>=◌ {ℓ κ} : {A : Type ℓ} {B : Type κ} → Option A → (A → Option B) → Option B
none >>= f = none
some a >>= f = f a

-- Inversion of a chain that gives a result.
pub >>=-eq-some {ℓ κ} :
    {A : Type ℓ} {B : Type κ} (m : Option A) (f : A → Option B) {b : B}
    → (m >>= f) ≡ some b
    → (a : A) × (m ≡ some a) × (f a ≡ some b)
>>=-eq-some none f h = cc
>>=-eq-some (some a) f h = (a, refl, h)

pub eq_of_some {ℓ} : {A : Type ℓ} {a b : A} → some a ≡ some b → a ≡ b
eq_of_some h = cc

-- A step with a result is followed by one.
pub >>=-eq-none {ℓ κ} :
    {A : Type ℓ} {B : Type κ} (m : Option A) (f : A → B)
    → ((m >>= λ a. some (f a)) ≡ none) ↔ (m ≡ none)
>>=-eq-none none f = (λ h. refl, λ h. refl)
>>=-eq-none (some a) f = (λ h. cc, λ h. cc)
