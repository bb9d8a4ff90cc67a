-- ===== src/Http/Status.antt =====
-- app/main.py: which status an exception gets.
use llm_inference_autoscalin.Base.{
  ℕ, ◌≡◌, refl, Option, none, some, List, [], ◌∷◌, eqb, if◌then◌else◌,
}
use llm_inference_autoscalin.Errors.{
  Error, budget_exceeded_error, user_budget_exceeded_error, rate_limit_exceeded_error,
  context_too_large_error, ledger_unavailable_error, admission_timeout_error, circuit_open_error,
  no_model_available_error, provider_timeout_error, provider_unavailable_error, provider_error,
  json_decode_error, value_error, other_error, code, ancestors,
}
use llm_inference_autoscalin.Http.{status_map, first_match, status_for}

-- The status that the map has for this very class.
abbrev pub entry : Error → List (Error × ℕ) → Option ℕ
entry e [] = none
entry e ((d, status) ∷ rest) = if eqb (code e) (code d) then some status else entry e rest

-- The status of the nearest of the classes that has one.
abbrev pub nearest : List Error → Option ℕ
nearest [] = none
nearest (e ∷ es) = elim (entry e status_map) [ some status ↦ some status | none ↦ nearest es ]

-- The order of the map never gives an exception the status of a remoter base: the status is that of
-- the nearest class, among the exception's own and its bases, that the map names, and there is none
-- exactly if it names none of them.
pub status_for-nearest : (exc : Error) → status_for exc ≡ nearest (ancestors exc)
unfolding status_for first_match
status_for-nearest budget_exceeded_error = refl
status_for-nearest user_budget_exceeded_error = refl
status_for-nearest rate_limit_exceeded_error = refl
status_for-nearest context_too_large_error = refl
status_for-nearest ledger_unavailable_error = refl
status_for-nearest admission_timeout_error = refl
status_for-nearest circuit_open_error = refl
status_for-nearest no_model_available_error = refl
status_for-nearest provider_timeout_error = refl
status_for-nearest provider_unavailable_error = refl
status_for-nearest provider_error = refl
status_for-nearest json_decode_error = refl
status_for-nearest value_error = refl
status_for-nearest other_error = refl
