-- ===== src/Providers/Vllm/Generate.antt =====
-- app/providers/vllm.py: `generate`, its retries and its delays. The replies to its posts are a
-- function of the number of the attempt.
use llm_inference_autoscalin.Base.{ℕ, String, false, none, some, [], ◌∷◌, leb, if◌then◌else◌}
use llm_inference_autoscalin.Errors.{
  provider_unavailable_error, provider_error, json_decode_error, Result, throws,
}
use llm_inference_autoscalin.Config.{ModelSpec}
use llm_inference_autoscalin.Providers.{Completion}
use llm_inference_autoscalin.Providers.Vllm.{
  Codec, VllmProvider, retryable_status, one_of, headers, payload, parse_completion, Failure,
  failure_error, Action, post,
}
use llm_inference_autoscalin.Providers.Vllm.Loop.{Outcome, retried, attempts}

-- The answer to a post: the transport fails, or there is a response with a status and a body.
pub data Reply : Type 0 where
  fails : Failure → Reply
  responds : ℕ → String → Reply

module _ (c : Codec) (p : VllmProvider) (model : ModelSpec) (prompt : String)
    (max_output_tokens : ℕ) where
  abbrev pub posts : Action
  posts = post (payload p model prompt max_output_tokens false) (headers p)

  -- `return self._parse_completion(resp.json(), model, prompt)`
  unfoldable pub read_body : String → Result Completion
  read_body body = elim (c.loads body) [
    | none ↦ throws json_decode_error
    | some data_ ↦ parse_completion c p model prompt data_
  ]

  unfoldable pub responded :
      ℕ → ℕ → String → Outcome (Result Completion) → Outcome (Result Completion)
  responded attempt status_code body next =
      if one_of status_code retryable_status
      then retried p posts attempt (throws provider_unavailable_error) next
      else record {
        actions = posts ∷ [];
        result = if leb 400 status_code then throws provider_error else read_body body;
      }

  -- The body of the loop.
  unfoldable pub replied : ℕ → Reply → Outcome (Result Completion) → Outcome (Result Completion)
  unfolding responded
  replied attempt (fails f) next = retried p posts attempt (throws (failure_error f)) next
  replied attempt (responds status_code body) next = responded attempt status_code body next

  -- `generate`
  unfoldable pub generate : (ℕ → Reply) → Outcome (Result Completion)
  generate replies = attempts replies replied (throws provider_unavailable_error) 0 p.max_retries
