-- ===== src/Config/Settings/Reading.antt =====
-- app/config.py: what the environment makes of the settings.
use llm_inference_autoscalin.Base.{
  ℕ, String, ◌≡◌, refl, ap, ◌∙◌, ◌⊎◌, inl, inr, true, ◌||◌, Option, none, some, List, [], ◌∷◌, ◌++◌,
  ◌==◌, if◌then◌else◌, Bool-cases, Dict,
}
use llm_inference_autoscalin.Errors.{returns}
use llm_inference_autoscalin.Config.Settings.{
  Environment, defaults, float_var, int_var, bool_var, text_var, add_pair, add_pairs,
  parse_model_map, from_env,
}

-- The two places that have the defaults agree: in an environment without any of the variables,
-- `from_env` returns the settings that the dataclass has by default, if the empty text splits into
-- one empty text, which is its own `strip`.
pub from_env-defaults :
    (env : Environment) (second token : ℕ)
    → env.split "" ≡ "" ∷ []
    → env.strip "" ≡ ""
    → from_env (record env { getenv = λ _. none }) second token ≡ returns (defaults second token)
unfolding from_env defaults float_var int_var bool_var text_var parse_model_map add_pairs
from_env-defaults env second token h k =
    ap (λ m. returns (record (defaults second token) { vllm_model_map = m }))
      (pairs (env.split "") h)
  where
    pairs :
        (ps : List String) → ps ≡ "" ∷ [] → add_pairs (record env { getenv = λ _. none }) ps [] ≡ []
    pairs ps e =
        ap (λ x. add_pairs (record env { getenv = λ _. none }) x []) e
        ∙ ap
            (λ (s : String).
              if s == ""
              then []
              else add_pair (record env { getenv = λ _. none }) (env.partition s) [])
            k

abbrev pub IsUseless : Environment → Option (String × String) → Type 0
IsUseless env none = Unit {0}
IsUseless env (some (key, value)) = ((env.strip key == "") || (env.strip value == "")) ≡ true

-- A pair is malformed if it is blank or has no `=`, or if its key or its value is blank.
abbrev pub IsMalformed : Environment → String → Type 0
IsMalformed env pair =
    ((env.strip pair == "") ≡ true) ⊎ IsUseless env (env.partition (env.strip pair))

add_pair-useless :
    (env : Environment) (x : Option (String × String)) (out : Dict String)
    → IsUseless env x
    → add_pair env x out ≡ out
add_pair-useless env none out h = refl
add_pair-useless env (some (key, value)) out h = rw h refl

-- A malformed pair is skipped, wherever it stands: the map is that of the other pairs.
pub add_pairs-malformed :
    (env : Environment) (xs ys : List String) (pair : String) (out : Dict String)
    → IsMalformed env pair
    → add_pairs env (xs ++ pair ∷ ys) out ≡ add_pairs env (xs ++ ys) out
unfolding add_pairs
add_pairs-malformed env [] ys pair out (inl blank) = rw (blank, add_pairs) refl
add_pairs-malformed env [] ys pair out (inr useless) = elim (Bool-cases (env.strip pair == "")) [
  | inl blank ↦ rw (blank, add_pairs) refl
  | inr full ↦
      rw (full, add_pairs)
        (ap (add_pairs env ys) (add_pair-useless env (env.partition (env.strip pair)) out useless))
]
add_pairs-malformed env (x ∷ xs) ys pair out h =
    add_pairs-malformed env xs ys pair
      (if env.strip x == "" then out else add_pair env (env.partition (env.strip x)) out) h
