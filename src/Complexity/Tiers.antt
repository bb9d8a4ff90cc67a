-- ===== src/Complexity/Tiers.antt =====
-- app/complexity.py: which tier a request gets.
use llm_inference_autoscalin.Base.{
  ℕ, zero, suc, ◌*◌, ◌≤◌, ◌<◌, String, ◌≡◌, inl, inr, Bool, true, false, Option, none, some, arith,
  ltb, leb, if◌then◌else◌, Option-cases, length,
}
use llm_inference_autoscalin.Tokens.{TextRuntime, count_tokens}
use llm_inference_autoscalin.Config.{Complexity, simple, moderate, complex, rank}
use llm_inference_autoscalin.Complexity.Keywords.{
  keyword_hits, reasoning_keywords, simple_keywords, contains_text,
}
use llm_inference_autoscalin.Complexity.{
  ComplexityResult, one, blend, bucket, or_zero, score_prompt, explicit_tier, estimate_complexity,
}

-- The number of reasoning keywords that the prompt hits.
abbrev pub reasoning_count : TextRuntime → String → ℕ
reasoning_count rt prompt = length (keyword_hits rt (rt.lower prompt) reasoning_keywords)

blend_plain : (tokens out simples : ℕ) (code : Bool) → blend tokens out 0 simples code < 60000
unfolding blend
blend_plain tokens out simples code = ground arith

blend_reasoning :
    (tokens out reasoning simples : ℕ) (code : Bool)
    → 0 < reasoning
    → (24000 ≤ blend tokens out reasoning simples code)
      × (3 ≤ reasoning → 60000 ≤ blend tokens out reasoning simples code)
unfolding blend
blend_reasoning tokens out reasoning simples code p = ground arith

blend_bare : (tokens simples : ℕ) → blend tokens 0 0 simples false < 24000
unfolding blend
blend_bare tokens simples = ground arith

blend_code : (tokens simples : ℕ) → tokens < 667 → blend tokens 0 0 simples true < 24000
unfolding blend
blend_code tokens simples p = ground arith

rank-le : (t : Complexity) → rank t * 40000 ≤ one
rank-le simple = omega arith
rank-le moderate = omega arith
rank-le complex = omega arith

-- The score that the heuristic gives a prompt.
abbrev score_of : TextRuntime → String → Option ℕ → ℕ → ℕ
score_of rt prompt requested chars_per_token =
    blend (count_tokens rt prompt chars_per_token) (or_zero requested) (reasoning_count rt prompt)
      (length (keyword_hits rt (rt.lower prompt) simple_keywords)) (contains_text "```" prompt)

bucket-simple : (s : ℕ) → s < 24000 → bucket s ≡ simple
unfolding bucket
bucket-simple s h = ground arith

-- The least and the greatest rank of a tier, by the number of reasoning keywords.
abbrev pub least_rank : ℕ → ℕ
least_rank n = if leb 3 n then 3 else if ltb 0 n then 2 else 1

abbrev pub most_rank : ℕ → ℕ
most_rank n = if ltb 0 n then 3 else 2

bucket-le : (s : ℕ) → rank (bucket s) ≤ (if leb 60000 s then 3 else 2)
unfolding bucket
bucket-le s = ground arith

bucket-ge : (s : ℕ) → (if leb 60000 s then 3 else if leb 24000 s then 2 else 1) ≤ rank (bucket s)
unfolding bucket
bucket-ge s = ground arith

blend-bucket :
    (tokens out reasoning simples : ℕ) (code : Bool)
    → (least_rank reasoning ≤ rank (bucket (blend tokens out reasoning simples code)))
      × (rank (bucket (blend tokens out reasoning simples code)) ≤ most_rank reasoning)
blend-bucket tokens out zero simples code = ground (
  arith,
  blend_plain tokens out simples code,
  bucket-le (blend tokens out 0 simples code),
  bucket-ge (blend tokens out 0 simples code),
)
blend-bucket tokens out (suc n) simples code = ground (
  arith,
  blend_reasoning tokens out (suc n) simples code (omega arith),
  bucket-le (blend tokens out (suc n) simples code),
  bucket-ge (blend tokens out (suc n) simples code),
)

module _ (rt : TextRuntime) (prompt : String) (task_type : Option String) (requested : Option ℕ)
    (chars_per_token : ℕ) where
  abbrev result : ComplexityResult
  result = estimate_complexity rt prompt task_type requested chars_per_token

  -- A score is at most 1.0, that of an explicit tier included.
  pub score-le-one : result.score ≤ one
  unfolding estimate_complexity score_prompt blend
  score-le-one = elim (Option-cases (explicit_tier rt task_type)) [
    | inl heuristic ↦ rw (heuristic, estimate_complexity) (omega arith)
    | inr (tier, named) ↦ rw (named, estimate_complexity) (rank-le tier)
  ]

  -- A known explicit task type decides the tier, whatever the prompt and the requested length.
  pub tier-explicit : {t : Complexity} → explicit_tier rt task_type ≡ some t → result.tier ≡ t
  unfolding estimate_complexity
  tier-explicit e = rw (e, estimate_complexity)

  module _ (heuristic : explicit_tier rt task_type ≡ none) where
    result_lem : result.tier ≡ bucket (score_of rt prompt requested chars_per_token)
    unfolding estimate_complexity score_prompt
    result_lem = rw (heuristic, estimate_complexity)

    -- Without an explicit task type, the reasoning keywords decide: without any of them the tier
    -- is below COMPLEX, with one it is MODERATE or above, and with three it is COMPLEX, whatever
    -- the length of the prompt, the requested length, the simple keywords and the code blocks.
    pub tier-reasoning :
        (least_rank (reasoning_count rt prompt) ≤ rank result.tier)
        × (rank result.tier ≤ most_rank (reasoning_count rt prompt))
    tier-reasoning = rw result_lem (
        blend-bucket (count_tokens rt prompt chars_per_token) (or_zero requested)
          (reasoning_count rt prompt) (length (keyword_hits rt (rt.lower prompt) simple_keywords))
          (contains_text "```" prompt))

    -- A code block alone does not make a request MODERATE: without an explicit task type, a
    -- prompt below 667 tokens with a code block, no reasoning keyword and no requested length is
    -- SIMPLE.
    pub tier-code_block :
        contains_text "```" prompt ≡ true
        → reasoning_count rt prompt ≡ 0
        → or_zero requested ≡ 0
        → count_tokens rt prompt chars_per_token < 667
        → result.tier ≡ simple
    tier-code_block c r o n = rw result_lem (
        bucket-simple (score_of rt prompt requested chars_per_token)
          (rw (c, r, o) (blend_code _ _ n)))

    -- Length alone does not make a request MODERATE: without an explicit task type, a prompt with no
    -- code block, no reasoning keyword and no requested length is SIMPLE, however long it is.
    pub tier-long :
        contains_text "```" prompt ≡ false
        → reasoning_count rt prompt ≡ 0
        → or_zero requested ≡ 0
        → result.tier ≡ simple
    tier-long c r o = rw result_lem (
        bucket-simple (score_of rt prompt requested chars_per_token)
          (rw (c, r, o) (blend_bare _ _)))
