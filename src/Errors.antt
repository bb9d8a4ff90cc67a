-- ===== src/Errors.antt =====
-- The exception classes of app/, with their places in the class hierarchy. Only the class of an
-- exception decides what handlers do with it, so a message is not modelled.
use llm_inference_autoscalin.Base.{ℕ, Bool, List, [], ◌∷◌, ◌||◌, eqb}

-- `other_error` is any class that none of the program's handlers names, such as AttributeError.
pub data Error : Type 0 where
  budget_exceeded_error user_budget_exceeded_error rate_limit_exceeded_error : Error
  context_too_large_error ledger_unavailable_error admission_timeout_error : Error
  circuit_open_error no_model_available_error : Error
  provider_timeout_error provider_unavailable_error provider_error : Error
  json_decode_error value_error other_error : Error

abbrev pub code : Error → ℕ
code budget_exceeded_error = 0
code user_budget_exceeded_error = 1
code rate_limit_exceeded_error = 2
code context_too_large_error = 3
code ledger_unavailable_error = 4
code admission_timeout_error = 5
code circuit_open_error = 6
code no_model_available_error = 7
code provider_timeout_error = 8
code provider_unavailable_error = 9
code provider_error = 10
code json_decode_error = 11
code value_error = 12
code other_error = 13

-- The class and its bases, nearest first, but for `Exception` and above.
abbrev pub ancestors : Error → List Error
ancestors provider_timeout_error = provider_timeout_error ∷ provider_error ∷ []
ancestors provider_unavailable_error = provider_unavailable_error ∷ provider_error ∷ []
ancestors json_decode_error = json_decode_error ∷ value_error ∷ []
ancestors e = e ∷ []

abbrev pub any_of : Error → List Error → Bool
any_of e [] = Bool.false
any_of e (d ∷ ds) = eqb (code e) (code d) || any_of e ds

-- `isinstance(exc, exc_type)`
abbrev pub is_instance : Error → Error → Bool
is_instance exc exc_type = any_of exc_type (ancestors exc)

-- How a call that can fail ends: with a value, or with an exception of a class.
pub data Result {ℓ} (A : Type ℓ) : Type ℓ where
  returns : A → Result A
  throws : Error → Result A

infixl 5 ◌>>=◌
abbrev pub ◌>>=◌ {ℓ κ} : {A : Type ℓ} {B : Type κ} → Result A → (A → Result B) → Result B
returns a >>= f = f a
throws e >>= f = throws e
