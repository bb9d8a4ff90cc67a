-- ===== src/Complexity.antt =====
-- app/complexity.py: the task-complexity score. A score is a whole number of 120000ths, fine enough
-- for every weight and signal of the source to be exact. The source adds floats: where the exact sum
-- is a threshold of the tiers, the sum of the floats can lie just off it, and the tier is then another
-- than here. A set of keywords is a list.
pub mod Keywords
pub mod Tiers
use llm_inference_autoscalin.Base.{
  ℕ, ◌+◌, ◌-◌, ◌*◌, min, String, Bool, ◌&&◌, Option, none, some, List, [], ◌∷◌, ltb, leb, eqb, ◌==◌,
  if◌then◌else◌, length,
}
use llm_inference_autoscalin.Tokens.{TextRuntime, count_tokens}
use llm_inference_autoscalin.Config.{Complexity, simple, moderate, complex, rank}
use llm_inference_autoscalin.Complexity.Keywords.{
  keyword_hits, reasoning_keywords, simple_keywords, contains_text,
}

-- The strings of `reasons`, by kind.
pub data Reason : Type 0 where
  explicit_task_type : String → Reason
  prompt_tokens : ℕ → ℕ → Reason
  max_output_tokens : ℕ → ℕ → Reason
  reasoning_hits : List String → Reason
  simple_hits : List String → Reason
  contains_code_block : Reason
  scored : ℕ → Complexity → Reason

pub record ComplexityResult : Type 0 where
  pub tier : Complexity
  pub score : ℕ
  pub reasons : List Reason

-- The unit of a score, 1.0.
abbrev pub one : ℕ
one = 120000

-- The dictionary of explicit task types.
unfoldable pub override : String → Option Complexity
override key =
    if key == "simple"
    then some simple
    else if key == "moderate"
    then some moderate
    else if key == "complex"
    then some complex
    else none

-- `max_output_tokens or 0`
abbrev pub or_zero : Option ℕ → ℕ
or_zero none = 0
or_zero (some n) = n

-- The weighted blend of steps 2 to 5: 0.60 * min(hits / 3, 1) + 0.15 * min(tokens / 2000, 1)
-- + 0.15 * min(out / 2000, 1) + (0.15 if there is a code block), then the pull of a simple
-- keyword and the cap.
unfoldable pub blend : ℕ → ℕ → ℕ → ℕ → Bool → ℕ
blend tokens out reasoning simples code =
    let score =
      24000 * min reasoning 3
      + 9 * min tokens 2000
      + 9 * min out 2000
      + (if code then 18000 else 0) in
    min (if ltb 0 simples && eqb reasoning 0 then score - 18000 else score) one

-- Step 6.
unfoldable pub bucket : ℕ → Complexity
bucket score = if leb 60000 score then complex else if leb 24000 score then moderate else simple

abbrev pub when : Bool → Reason → List Reason → List Reason
when c r rs = if c then r ∷ rs else rs

-- The heuristic, past the explicit override.
unfoldable pub score_prompt : TextRuntime → String → Option ℕ → ℕ → ComplexityResult
score_prompt rt prompt requested chars_per_token =
    let tokens = count_tokens rt prompt chars_per_token in
    let out = or_zero requested in
    let reasoning = keyword_hits rt (rt.lower prompt) reasoning_keywords in
    let simples = keyword_hits rt (rt.lower prompt) simple_keywords in
    let code = contains_text "```" prompt in
    let score = blend tokens out (length reasoning) (length simples) code in
    record {
      tier = bucket score;
      score = score;
      reasons =
          prompt_tokens tokens (min tokens 2000)
          ∷ when (ltb 0 out) (max_output_tokens out (min out 2000)) (
              when (ltb 0 (length reasoning)) (reasoning_hits reasoning) (
                when (ltb 0 (length simples)) (simple_hits simples)
                  (when code contains_code_block (scored score (bucket score) ∷ []))));
    }

-- `task_type` as the source reads it: the tier that it names, if it is given, not empty and known.
unfoldable pub explicit_tier : TextRuntime → Option String → Option Complexity
explicit_tier rt none = none
explicit_tier rt (some t) = if t == "" then none else override (rt.lower (rt.strip t))

abbrev pub task_key : TextRuntime → Option String → String
task_key rt none = ""
task_key rt (some t) = rt.lower (rt.strip t)

unfoldable pub estimate_complexity :
    TextRuntime → String → Option String → Option ℕ → ℕ → ComplexityResult
estimate_complexity rt prompt task_type requested chars_per_token =
    elim (explicit_tier rt task_type) [
      | some tier ↦ record {
        tier = tier;
        score = rank tier * 40000;
        reasons = explicit_task_type (task_key rt task_type) ∷ [];
      }
      | none ↦ score_prompt rt prompt requested chars_per_token
    ]
