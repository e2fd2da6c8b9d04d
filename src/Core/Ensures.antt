-- ===== src/Core/Ensures.antt =====
-- What an action gives, where it gives a value.
use agentic_test_system.Prelude.{◌≡◌, refl}
use mathlib.Core.Path.{subst}
use agentic_test_system.Core.Effects.{Result, ok, err, Action, continue, ◌>>=◌}

abbrev pub Ensures : {A : Type 0} → (A → Type 0) → Result A → Type 0
Ensures P (ok a) = P a
Ensures P (err e) = Unit

anything : {A : Type 0} (r : Result A) → Ensures (λ _. Unit {0}) r
anything (ok a) = tt
anything (err e) = tt

-- What holds of every value that an action may return.
pub of_values :
    {S A : Type 0} (P : A → Type 0) (x : Result A × S)
    → ((a : A) (s : S) → x ≡ (ok a, s) → P a)
    → Ensures P x.0
of_values P (ok a, s) h = h a s refl
of_values P (err e, s) h = tt

pub value-Ensures :
    {S A : Type 0} (P : A → Type 0) (x : Result A × S) (a : A) (s : S)
    → Ensures P x.0
    → x ≡ (ok a, s)
    → P a
value-Ensures {S = S} {A = A} P x a s h e = subst (λ (y : Result A × S). Ensures P y.0) e h

-- Through the first action of a `do` block, with what it ensures, or without.
module _ {S A B : Type 0} (Q : B → Type 0) (f : A → Action S B) where
  pub continue-Ensures :
      (P : A → Type 0) (r : Result A) (s : S)
      → Ensures P r
      → ((a : A) (s' : S) → P a → Ensures Q (f a s').0)
      → Ensures Q (continue f r s).0
  continue-Ensures P (ok a) s h k = k a s h
  continue-Ensures P (err e) s h k = tt

  pub bind-Ensures :
      (P : A → Type 0) (m : Action S A) (s : S)
      → Ensures P (m s).0
      → ((a : A) (s' : S) → P a → Ensures Q (f a s').0)
      → Ensures Q ((m >>= f) s).0
  bind-Ensures P m s = continue-Ensures P (m s).0 (m s).1

  pub bind-any :
      (m : Action S A) (s : S)
      → ((a : A) (s' : S) → Ensures Q (f a s').0)
      → Ensures Q ((m >>= f) s).0
  bind-any m s k = bind-Ensures (λ _. Unit {0}) m s (anything (m s).0) (λ a s' _. k a s')
