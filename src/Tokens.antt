-- ===== src/Tokens.antt =====
-- app/tokens.py: token estimation. `chars_per_token` is in thousandths of a character. What the
-- code takes from `tiktoken` and from Python's Unicode tables is a parameter.
use llm_inference_autoscalin.Base.{
  ℕ, ◌+◌, ◌*◌, ◌≤◌, ◌<◌, max, String, Bool, Option, none, some, arith, ltb, ◌==◌, if◌then◌else◌,
  round_div,
}
use Prim.Native.String.{count}
use llm_inference_autoscalin.Base.{round_div-near}

pub record TextRuntime : Type 0 where
  -- `len(_encoder().encode(text))`; `none` where `tiktoken` is not installed or the call raises
  pub encode : String → Option ℕ
  -- `text.lower()`, `text.strip()`
  pub lower : String → String
  pub strip : String → String
  -- whether `\w` matches the character
  pub is_word : ℕ → Bool

-- `max(1, round(len(text) / chars_per_token))`, of the number of characters.
unfoldable pub heuristic_tokens : ℕ → ℕ → ℕ
heuristic_tokens chars chars_per_token = max 1 (round_div (chars * 1000) chars_per_token)

unfoldable pub count_tokens : TextRuntime → String → ℕ → ℕ
count_tokens rt text chars_per_token =
    if text == ""
    then 0
    else elim (rt.encode text) [ some n ↦ n | none ↦ heuristic_tokens (count text) chars_per_token ]

-- `requested_max if requested_max and requested_max > 0 else default_max`
unfoldable pub ceiling : Option ℕ → ℕ → ℕ
ceiling none default_max = default_max
ceiling (some n) default_max = if ltb 0 n then n else default_max

-- `max(1, round(ceiling * 0.75))`
unfoldable pub estimate_output_tokens : Option ℕ → ℕ → ℕ
estimate_output_tokens requested_max default_max =
    max 1 (round_div (ceiling requested_max default_max * 3) 4)

-- The projected completion is at least one token, is within half a token of three quarters of
-- the ceiling, and is below the ceiling from three tokens on.
pub estimate_output_tokens-range :
    (requested : Option ℕ) (default_max : ℕ)
    → 0 < ceiling requested default_max
    → let c = ceiling requested default_max in
      let e = estimate_output_tokens requested default_max in
      (1 ≤ e) × (e ≤ c) × (c * 3 ≤ e * 4 + 2) × (e * 4 ≤ c * 3 + 2) × (e < max c 3)
unfolding estimate_output_tokens
estimate_output_tokens-range requested default_max p =
    omega (arith, round_div-near (ceiling requested default_max * 3) 4 (omega arith))
