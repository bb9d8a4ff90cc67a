-- ===== src/Providers/Vllm/Stream/Once.antt =====
-- app/providers/vllm.py: `generate_stream` hands on what one attempt yields, and nothing twice.
use llm_inference_autoscalin.Base.{
  ℕ, ◌<◌, String, ◌≡◌, refl, ap, ◌⊎◌, inl, inr, Bool, true, false, not, Option, none, some, List,
  [], ◌∷◌, ◌++◌, arith, leb, eqb, if◌then◌else◌, Bool-cases,
}
use llm_inference_autoscalin.Errors.{provider_unavailable_error, provider_error}
use llm_inference_autoscalin.Config.{ModelSpec}
use llm_inference_autoscalin.Tokens.{heuristic_tokens}
use llm_inference_autoscalin.Providers.{StreamChunk, is_some}
use llm_inference_autoscalin.Providers.Vllm.{
  Codec, VllmProvider, retryable_status, one_of, Failure, failure_error, Action,
}
use llm_inference_autoscalin.Providers.Vllm.Loop.{
  Outcome, retried, Obeys, IsDecided, loop-IsDecided,
}
use llm_inference_autoscalin.Providers.Vllm.Stream.{
  StreamReply, refuses, opens, Reading, unread, Ending, completes, breaks, read_lines,
  usage_or_estimate, final_chunk, Streamed, fails_with, after_chunks, posts, after_reading,
  rejected, opened, replied, generate_stream,
}
use llm_inference_autoscalin.Providers.Vllm.Stream.Counted.{
  IsSilent, read_lines-IsSilent, characters, Counts, read_lines-Counts,
}

-- Whether a reading has failed before its first frame.
abbrev pub failed_silently : List StreamChunk × Ending → Bool
failed_silently (cs, completes r) = false
failed_silently (cs, breaks started f) = not started

module _ (c : Codec) (p : VllmProvider) (model : ModelSpec) (prompt : String)
    (max_output_tokens : ℕ) where
  -- A reply that is worth a retry: no frame has come of it, and it is no rejection.
  abbrev pub is_retryable : StreamReply → Bool
  is_retryable (refuses f) = true
  is_retryable (opens status lines failure) =
      if one_of status retryable_status
      then true
      else if leb 400 status
      then is_some failure
      else failed_silently (read_lines c unread lines failure)

  abbrev pub verdict_of : List StreamChunk × Ending → Streamed
  verdict_of (cs, completes r) = record {
    chunks = cs ++ final_chunk c p prompt r ∷ [];
    raises = none;
  }
  verdict_of (cs, breaks true f) = record { chunks = cs; raises = some provider_error }
  verdict_of (cs, breaks false f) = fails_with (failure_error f)

  abbrev pub rejection : Option Failure → Streamed
  rejection none = fails_with provider_error
  rejection (some f) = fails_with (failure_error f)

  -- What the caller gets of the deciding reply.
  abbrev pub verdict : StreamReply → Streamed
  verdict (refuses f) = fails_with (failure_error f)
  verdict (opens status lines failure) =
      if one_of status retryable_status
      then fails_with provider_unavailable_error
      else if leb 400 status
      then rejection failure
      else verdict_of (read_lines c unread lines failure)

  abbrev one_post : Action
  one_post = posts c p model prompt max_output_tokens

  reading-obeys :
      (attempt : ℕ) (x : List StreamChunk × Ending) (next : Outcome Streamed)
      → IsSilent x
      → ((failed_silently x ≡ true)
          × (after_reading c p model prompt max_output_tokens attempt x next
              ≡ retried p one_post attempt (verdict_of x) next))
        ⊎ ((failed_silently x ≡ false)
            × (after_reading c p model prompt max_output_tokens attempt x next
                ≡ record { actions = one_post ∷ []; result = verdict_of x }))
  unfolding after_reading
  reading-obeys attempt (cs, completes r) next h = inr (refl, refl)
  reading-obeys attempt (cs, breaks true f) next h = inr (refl, refl)
  reading-obeys attempt (cs, breaks false f) next h = inl (
    refl,
    ap (λ ds. after_chunks ds (retried p one_post attempt (fails_with (failure_error f)) next)) h,
  )

  rejected-obeys :
      (attempt : ℕ) (failure : Option Failure) (next : Outcome Streamed)
      → ((is_some failure ≡ true)
          × (rejected c p model prompt max_output_tokens attempt failure next
              ≡ retried p one_post attempt (rejection failure) next))
        ⊎ ((is_some failure ≡ false)
            × (rejected c p model prompt max_output_tokens attempt failure next
                ≡ record { actions = one_post ∷ []; result = rejection failure }))
  unfolding rejected
  rejected-obeys attempt none next = inr (refl, refl)
  rejected-obeys attempt (some f) next = inl (refl, refl)

  replied-Obeys :
      Obeys p
        (posts c p model prompt max_output_tokens)
        is_retryable
        verdict
        (replied c p model prompt max_output_tokens)
  unfolding replied opened
  replied-Obeys attempt (refuses f) next = inl (refl, refl)
  replied-Obeys attempt (opens status lines failure) next =
      elim (Bool-cases (one_of status retryable_status)) [
        | inl transient ↦ inl (rw transient refl, rw (transient, replied) refl)
        | inr lasting ↦ elim (Bool-cases (leb 400 status)) [
          | inl bad ↦ rw (lasting, bad, replied) (rejected-obeys attempt failure next)
          | inr good ↦
              rw (lasting, good, replied)
                (reading-obeys attempt (read_lines c unread lines failure) next
                  (read_lines-IsSilent c lines failure unread))
        ]
      ]

  -- A caller of `generate_stream` gets what one attempt yields, if one is allowed at all: the first
  -- whose reply is not worth a retry, or the last allowed. There is one post for each attempt up to
  -- that one, with a delay after each but the last. The chunks are those of that attempt alone, so
  -- that no text is handed on twice, and the exception at their end is that attempt's: after the
  -- first frame a failure is always a provider error, and never retried.
  pub generate_stream-IsDecided :
      (replies : ℕ → StreamReply)
      → 0 < p.max_retries
      → IsDecided p
          (posts c p model prompt max_output_tokens)
          is_retryable
          verdict
          replies
          0
          (generate_stream c p model prompt max_output_tokens replies)
  unfolding generate_stream
  generate_stream-IsDecided replies h =
      loop-IsDecided p (posts c p model prompt max_output_tokens) is_retryable verdict
        (replied c p model prompt max_output_tokens) replied-Obeys _ replies p.max_retries refl h

abbrev received : Ending → ℕ
received (completes r) = r.accumulated
received (breaks started f) = 0

-- The estimate, where no usage has come, is of the characters of the chunks that were handed on.
pub read_lines-estimate :
    (c : Codec) (p : VllmProvider) (prompt : String) (lines : List String)
    (failure : Option Failure) (r : Reading)
    → (read_lines c unread lines failure).1 ≡ completes r
    → r.final_usage ≡ none
    → let n = characters (read_lines c unread lines failure).0 in
      (usage_or_estimate c p prompt r).output_tokens
      ≡ (if eqb n 0 then 0 else heuristic_tokens n p.chars_per_token)
unfolding usage_or_estimate
read_lines-estimate c p prompt lines failure r e unreported = rw unreported (
    ap (λ n. if eqb n 0 then 0 else heuristic_tokens n p.chars_per_token)
      (counted (read_lines c unread lines failure) e (read_lines-Counts c lines failure unread)))
  where
    counted :
        (x : List StreamChunk × Ending)
        → x.1 ≡ completes r
        → Counts 0 x
        → r.accumulated ≡ characters x.0
    counted (cs, completes r') e h = omega (arith, ap received e)
    counted (cs, breaks s f) e h = absurd (cc e)
