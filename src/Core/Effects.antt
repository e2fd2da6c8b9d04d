-- ===== src/Core/Effects.antt =====
-- Exceptions, and methods that change an object and may raise. What was written before a raise
-- stays written, so an action hands back the object beside the error too.
use agentic_test_system.Prelude.{String, ◌≡◌, refl, Bool, true, false, ◌⊎◌, inl, inr, List, [], ◌∷◌}

-- The classes of exceptions that the components raise, with the message that `str` shows.
pub data Exn : Type 0 where
  value_error : String → Exn
  runtime_error : String → Exn
  key_error : String → Exn
  recovery_error : String → Exn
  -- sqlite3.IntegrityError: a foreign key or a primary key is violated
  integrity_error : String → Exn
  source_integrity_error : String → Exn
  staging_error : String → Exn
  staging_path_error : String → Exn
  staging_validation_error : String → Exn
  sandbox_error : String → Exn
  context_budget_error : String → Exn
  llm_communication_error : String → Exn
  schema_validation_error : String → Exn
  syntax_error : String → Exn
  -- any other exception of a called service, by class and message
  other_error : String → String → Exn

-- `str(exc)`.
unfoldable pub str : Exn → String
str (value_error m) = m
str (runtime_error m) = m
str (key_error m) = m
str (recovery_error m) = m
str (integrity_error m) = m
str (source_integrity_error m) = m
str (staging_error m) = m
str (staging_path_error m) = m
str (staging_validation_error m) = m
str (sandbox_error m) = m
str (context_budget_error m) = m
str (llm_communication_error m) = m
str (schema_validation_error m) = m
str (syntax_error m) = m
str (other_error c m) = m

pub data Result {ℓ} (A : Type ℓ) : Type ℓ where
  ok : A → Result A
  err : Exn → Result A

-- A value goes on, an error ends the computation.
abbrev pub and_then {ℓ κ} : {A : Type ℓ} {B : Type κ} → Result A → (A → Result B) → Result B
and_then (ok a) f = f a
and_then (err e) f = err e

pub Result-cases {ℓ} :
    {A : Type ℓ} (r : Result A) → ((a : A) × (r ≡ ok a)) ⊎ ((e : Exn) × (r ≡ err e))
Result-cases (ok a) = inl (a, refl)
Result-cases (err e) = inr (e, refl)

abbrev pub Action {ℓ} : Type ℓ → Type ℓ → Type ℓ
Action S A = S → Result A × S

module _ {ℓ} {S A : Type ℓ} where
  abbrev pub pure : A → Action S A
  pure a s = (ok a, s)

  abbrev pub raise : Exn → Action S A
  raise e s = (err e, s)

  abbrev pub lift : Result A → Action S A
  lift r s = (r, s)

module _ {ℓ} {S A B : Type ℓ} where
  abbrev pub continue : (A → Action S B) → Result A → S → Result B × S
  continue f (ok a) s = f a s
  continue f (err e) s = (err e, s)

  infixl 5 ◌>>=◌ ◌>>◌
  abbrev pub ◌>>=◌ : Action S A → (A → Action S B) → Action S B
  ◌>>=◌ m f s = let (r, s') = m s in continue f r s'

  abbrev pub ◌>>◌ : Action S A → Action S B → Action S B
  m >> n = m >>= λ _. n

-- `if test: raise e`.
abbrev pub raise_if : {S : Type 0} → Bool → Exn → Action S (Unit {0})
raise_if true e s = (err e, s)
raise_if false e s = (ok tt, s)

-- `for x in xs: f(x)`, which stops at the first raise.
unfoldable pub for_each : {S A : Type 0} → (A → Action S (Unit {0})) → List A → Action S (Unit {0})
for_each f [] s = (ok tt, s)
for_each f (x ∷ xs) s = let (r, s') = f x s in continue (λ _. for_each f xs) r s'
