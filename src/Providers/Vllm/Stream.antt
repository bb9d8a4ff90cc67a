-- ===== src/Providers/Vllm/Stream.antt =====
-- app/providers/vllm.py: `generate_stream`. The replies to its posts are a function of the number of
-- the attempt; a caller reads the stream to its end.
pub mod Frames
pub mod Counted
pub mod Once
use Prim.Native.String.{count}
use llm_inference_autoscalin.Base.{
  ℕ, ◌+◌, String, Bool, true, false, Option, none, some, List, [], ◌∷◌, ◌++◌, leb, eqb, ◌==◌,
  if◌then◌else◌,
}
use llm_inference_autoscalin.Errors.{
  Error, provider_unavailable_error, provider_error, other_error, Result, returns, throws, ◌>>=◌,
}
use llm_inference_autoscalin.Json.{Json, text, is_truthy, Fields, get}
use llm_inference_autoscalin.Config.{ModelSpec}
use llm_inference_autoscalin.Tokens.{count_tokens, heuristic_tokens}
use llm_inference_autoscalin.Providers.{TokenUsage, StreamChunk}
use llm_inference_autoscalin.Providers.Vllm.{
  Codec, VllmProvider, retryable_status, one_of, headers, payload, get_of, first_choice, text_of,
  usage_from, Line, skipped, done, frame, parse_sse_line, Failure, unreachable, failure_error,
  Action, post,
}
use llm_inference_autoscalin.Providers.Vllm.Loop.{Outcome, retried, attempts}

-- The answer to a post: no connection, or a status, the lines that arrive, and the failure that
-- breaks them off, if one does.
pub data StreamReply : Type 0 where
  refuses : Failure → StreamReply
  opens : ℕ → List String → Option Failure → StreamReply

-- The local variables of the loop over the lines.
pub record Reading : Type 0 where
  pub started : Bool
  pub final_usage : Option TokenUsage
  pub finish_reason : Option String
  pub accumulated : ℕ

abbrev pub unread : Reading
unread = record { started = false; final_usage = none; finish_reason = none; accumulated = 0 }

-- `choices[0].get("finish_reason") or finish_reason`. A value that is neither falsy nor a text, which
-- no completions API sends, is taken for an exception here.
unfoldable pub reason_of : Option String → Option Json → Result (Option String)
reason_of reason none = returns reason
reason_of reason (some (text s)) = returns (if s == "" then reason else some s)
reason_of reason (some j) = if is_truthy j then throws other_error else returns reason

abbrev pub text_chunk : String → StreamChunk
text_chunk piece = record { text = piece; finish_reason = none; usage = none }

-- What the choice of a frame yields: its piece, if there is one, and the variables after it.
unfoldable pub read_choice : Reading → Option Json → Result (Reading × List StreamChunk)
read_choice r none = returns (r, [])
read_choice r (some choice) = text_of choice >>= λ piece.
    get_of "finish_reason" choice >>= reason_of r.finish_reason >>= λ reason. returns (
      if piece == "" then (record r { finish_reason = reason }, []) else (
        record r { finish_reason = reason; accumulated = r.accumulated + count piece },
        text_chunk piece ∷ [],
      ))

-- How the reading of a stream ends: at the end marker or the last line, or by an exception, whose handler
-- sees whether a frame had come. Any exception but a timeout counts as `unreachable` there.
pub data Ending : Type 0 where
  completes : Reading → Ending
  breaks : Bool → Failure → Ending

abbrev pub with_usage : Reading → Option TokenUsage → Reading
with_usage r none = r
with_usage r (some u) = record r { final_usage = some u }

abbrev pub yielding : List StreamChunk → List StreamChunk × Ending → List StreamChunk × Ending
yielding cs (ds, e) = (cs ++ ds, e)

unfoldable pub read_usage :
    Result (Option TokenUsage)
    → Reading × List StreamChunk
    → (Reading → List StreamChunk × Ending)
    → List StreamChunk × Ending
read_usage (throws e) (r, cs) next = (cs, breaks true unreachable)
read_usage (returns u) (r, cs) next = yielding cs (next (with_usage r u))

unfoldable pub read_choices :
    Codec
    → Fields
    → Result (Reading × List StreamChunk)
    → (Reading → List StreamChunk × Ending)
    → List StreamChunk × Ending
unfolding read_usage
read_choices c fs (throws e) next = ([], breaks true unreachable)
read_choices c fs (returns x) next = read_usage (usage_from c fs) x next

-- What the loop does with a line; `next` is the rest of the loop.
unfoldable pub read_line :
    Codec → Reading → Line → (Reading → List StreamChunk × Ending) → List StreamChunk × Ending
unfolding read_choices
read_line c r skipped next = next r
read_line c r done next = ([], completes r)
read_line c r (frame fs) next =
    read_choices c fs
      (first_choice (get "choices" fs) >>= read_choice (record r { started = true })) next

-- The loop over the lines.
unfoldable pub read_lines :
    Codec → Reading → List String → Option Failure → List StreamChunk × Ending
read_lines c r [] none = ([], completes r)
read_lines c r [] (some f) = ([], breaks r.started f)
read_lines c r (line ∷ lines) failure =
    read_line c r (parse_sse_line c line) (λ r'. read_lines c r' lines failure)

-- The usage that is reported, or an estimate from the characters that were handed on.
unfoldable pub usage_or_estimate : Codec → VllmProvider → String → Reading → TokenUsage
usage_or_estimate c p prompt r = elim r.final_usage [
  | some u ↦ u
  | none ↦ record {
    input_tokens = count_tokens c.runtime prompt p.chars_per_token;
    output_tokens =
        if eqb r.accumulated 0 then 0 else heuristic_tokens r.accumulated p.chars_per_token;
  }
]

-- `finish_reason or "stop"`
abbrev pub reason_or_stop : Option String → String
reason_or_stop none = "stop"
reason_or_stop (some s) = if s == "" then "stop" else s

abbrev pub final_chunk : Codec → VllmProvider → String → Reading → StreamChunk
final_chunk c p prompt r = record {
  text = "";
  finish_reason = some (reason_or_stop r.finish_reason);
  usage = some (usage_or_estimate c p prompt r);
}

-- The chunks that a caller gets, and the exception at their end, if there is one.
pub record Streamed : Type 0 where
  pub chunks : List StreamChunk
  pub raises : Option Error

abbrev pub fails_with : Error → Streamed
fails_with e = record { chunks = []; raises = some e }

-- Chunks of this attempt stay with the caller if the loop goes on.
abbrev pub after_chunks : List StreamChunk → Outcome Streamed → Outcome Streamed
after_chunks cs o = record o {
  result = record { chunks = cs ++ o.result.chunks; raises = o.result.raises };
}

module _ (c : Codec) (p : VllmProvider) (model : ModelSpec) (prompt : String)
    (max_output_tokens : ℕ) where
  abbrev pub posts : Action
  posts = post (payload p model prompt max_output_tokens true) (headers p)

  unfoldable pub after_reading : ℕ → List StreamChunk × Ending → Outcome Streamed → Outcome Streamed
  after_reading attempt (cs, completes r) next = record {
    actions = posts ∷ [];
    result = record { chunks = cs ++ final_chunk c p prompt r ∷ []; raises = none };
  }
  after_reading attempt (cs, breaks true f) next = record {
    actions = posts ∷ [];
    result = record { chunks = cs; raises = some provider_error };
  }
  after_reading attempt (cs, breaks false f) next =
      after_chunks cs (retried p posts attempt (fails_with (failure_error f)) next)

  -- A status from 400 on: the body is read for the message, which can fail.
  unfoldable pub rejected : ℕ → Option Failure → Outcome Streamed → Outcome Streamed
  rejected attempt none next = record { actions = posts ∷ []; result = fails_with provider_error }
  rejected attempt (some f) next = retried p posts attempt (fails_with (failure_error f)) next

  unfoldable pub opened : ℕ → ℕ → List String → Option Failure → Outcome Streamed → Outcome Streamed
  unfolding after_reading rejected
  opened attempt status_code lines failure next =
      if one_of status_code retryable_status
      then retried p posts attempt (fails_with provider_unavailable_error) next
      else if leb 400 status_code
      then rejected attempt failure next
      else after_reading attempt (read_lines c unread lines failure) next

  -- The body of the loop.
  unfoldable pub replied : ℕ → StreamReply → Outcome Streamed → Outcome Streamed
  unfolding opened
  replied attempt (refuses f) next = retried p posts attempt (fails_with (failure_error f)) next
  replied attempt (opens status_code lines failure) next =
      opened attempt status_code lines failure next

  -- `generate_stream`
  unfoldable pub generate_stream : (ℕ → StreamReply) → Outcome Streamed
  generate_stream replies =
      attempts replies replied (fails_with provider_unavailable_error) 0 p.max_retries
