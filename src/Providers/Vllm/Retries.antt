-- ===== src/Providers/Vllm/Retries.antt =====
-- app/providers/vllm.py: `generate` ends at the first reply that is not worth a retry.
use llm_inference_autoscalin.Base.{
  ℕ, ◌<◌, String, refl, inl, inr, Bool, true, leb, if◌then◌else◌, Bool-cases,
}
use llm_inference_autoscalin.Errors.{provider_unavailable_error, provider_error, Result, throws}
use llm_inference_autoscalin.Config.{ModelSpec}
use llm_inference_autoscalin.Providers.{Completion}
use llm_inference_autoscalin.Providers.Vllm.{
  Codec, VllmProvider, retryable_status, one_of, failure_error,
}
use llm_inference_autoscalin.Providers.Vllm.Generate.{
  Reply, fails, responds, posts, read_body, responded, replied, generate,
}
use llm_inference_autoscalin.Providers.Vllm.Loop.{Obeys, IsDecided, loop-IsDecided}

-- A reply that is worth a retry: the transport has failed, or the status is a transient one.
abbrev pub is_retryable : Reply → Bool
is_retryable (fails f) = true
is_retryable (responds status_code body) = one_of status_code retryable_status

module _ (c : Codec) (p : VllmProvider) (model : ModelSpec) (prompt : String)
    (max_output_tokens : ℕ) where
  -- What the last reply makes of the call.
  abbrev pub verdict : Reply → Result Completion
  verdict (fails f) = throws (failure_error f)
  verdict (responds status_code body) =
      if one_of status_code retryable_status
      then throws provider_unavailable_error
      else if leb 400 status_code
      then throws provider_error
      else read_body c p model prompt max_output_tokens body

  replied-Obeys :
      Obeys p
        (posts c p model prompt max_output_tokens)
        is_retryable
        verdict
        (replied c p model prompt max_output_tokens)
  unfolding replied responded
  replied-Obeys attempt (fails f) next = inl (refl, refl)
  replied-Obeys attempt (responds status body) next =
      elim (Bool-cases (one_of status retryable_status)) [
        | inl yes_ ↦ inl (yes_, rw (yes_, replied) refl)
        | inr no_ ↦ inr (no_, rw (no_, replied) refl)
      ]

  -- `generate` is decided by one reply, if an attempt is allowed at all: the first that is not
  -- worth a retry, or that of the last attempt allowed. It makes one post for each attempt up to
  -- that one, with the delay of that attempt after each but the last, and returns or raises what
  -- that reply makes of the call.
  pub generate-IsDecided :
      (replies : ℕ → Reply)
      → 0 < p.max_retries
      → IsDecided p
          (posts c p model prompt max_output_tokens)
          is_retryable
          verdict
          replies
          0
          (generate c p model prompt max_output_tokens replies)
  unfolding generate
  generate-IsDecided replies h =
      loop-IsDecided p (posts c p model prompt max_output_tokens) is_retryable verdict
        (replied c p model prompt max_output_tokens) replied-Obeys _ replies p.max_retries refl h
