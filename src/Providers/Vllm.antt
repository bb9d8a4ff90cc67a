-- ===== src/Providers/Vllm.antt =====
-- app/providers/vllm.py: the settings of a VLLMProvider, what it sends and what it reads. `httpx` and
-- `json` are not modelled: a reply is a value, and a `Codec` has the functions that the code calls.
pub mod Loop
pub mod Generate
pub mod Stream
pub mod Retries
use Prim.Native.String.{len, slice, ◌++◌ as ◌<>◌}
use package.text.Mathlib.Text.{starts_with}
use llm_inference_autoscalin.Base.{
  ℕ, ◌+◌, ◌*◌, ◌/◌, ◌%◌, String, Bool, true, false, not, ◌&&◌, ◌||◌, Option, none, some, List, [],
  ◌∷◌, eqb, ◌==◌, if◌then◌else◌, Dict, lookup_or,
}
use Prim.Native.Nat.{◌^◌}
use llm_inference_autoscalin.Errors.{
  Error, provider_timeout_error, provider_unavailable_error, provider_error, value_error,
  other_error, Result, returns, throws, ◌>>=◌,
}
use llm_inference_autoscalin.Json.{
  Json, null, bool, number, fraction, text, array, object, no_items, item, Fields, no_fields, field,
  is_truthy, get,
}
use llm_inference_autoscalin.Config.{ModelSpec}
use llm_inference_autoscalin.Tokens.{TextRuntime, count_tokens}
use llm_inference_autoscalin.Providers.{TokenUsage, Completion}

-- `json.loads`, which raises JSONDecodeError at `none`; `int` of a text, which raises ValueError at
-- `none`; and `strip` and what `count_tokens` needs.
pub record Codec : Type 0 where
  pub loads : String → Option Json
  pub int_of : String → Option ℕ
  pub runtime : TextRuntime

-- `backoff_base` is in ticks, and `chars_per_token` in thousandths.
pub record VllmProvider : Type 0 where
  pub api_key : Option String
  pub model_map : Dict String
  pub max_retries : ℕ
  pub backoff_base : ℕ
  pub chars_per_token : ℕ

-- `_RETRYABLE_STATUS`
abbrev pub retryable_status : List ℕ
retryable_status = 408 ∷ 425 ∷ 429 ∷ 500 ∷ 502 ∷ 503 ∷ 504 ∷ []

abbrev pub one_of : ℕ → List ℕ → Bool
one_of n [] = false
one_of n (m ∷ ms) = eqb n m || one_of n ms

-- `_headers`
unfoldable pub headers : VllmProvider → List (String × String)
headers p = ("content-type", "application/json") ∷ elim p.api_key [
  | none ↦ []
  | some key ↦ if key == "" then [] else ("authorization", "Bearer " <> key) ∷ []
]

-- `_payload`
unfoldable pub payload : VllmProvider → ModelSpec → String → ℕ → Bool → Fields
payload p model prompt max_output_tokens stream =
    field "model" (text (lookup_or model.name model.name p.model_map)) (
      field "prompt" (text prompt) (
        field "max_tokens" (number max_output_tokens) (
          field "stream" (bool stream) (
            if stream
            then field "stream_options" (object (field "include_usage" (bool true) no_fields))
                no_fields
            else no_fields))))

-- The delay of `_sleep_backoff`, in tenths of a tick.
unfoldable pub backoff : VllmProvider → ℕ → ℕ
backoff p attempt = p.backoff_base * 2 ^ attempt * (10 + attempt % 3)

-- `d.get(key)`, of a value that need not be a dictionary.
unfoldable pub get_of : String → Json → Result (Option Json)
get_of key (object fs) = returns (get key fs)
get_of key j = throws other_error

-- `int(value or 0)`
unfoldable pub int_or_zero : Codec → Option Json → Result ℕ
int_or_zero c none = returns 0
int_or_zero c (some null) = returns 0
int_or_zero c (some (bool b)) = returns (if b then 1 else 0)
int_or_zero c (some (number n)) = returns n
int_or_zero c (some (fraction num den)) = returns (num / den)
int_or_zero c (some (text s)) =
    if s == ""
    then returns 0
    else elim (c.int_of s) [ none ↦ throws value_error | some n ↦ returns n ]
int_or_zero c (some (array xs)) = if is_truthy (array xs) then throws other_error else returns 0
int_or_zero c (some (object fs)) = if is_truthy (object fs) then throws other_error else returns 0

-- `value is None`
abbrev pub is_none : Option Json → Bool
is_none none = true
is_none (some null) = true
is_none (some j) = false

-- `not value`
abbrev pub is_falsy : Option Json → Bool
is_falsy none = true
is_falsy (some j) = not (is_truthy j)

unfoldable pub usage_in : Codec → Option Json → Option Json → Result (Option TokenUsage)
usage_in c prompt_tokens completion_tokens =
    if is_none prompt_tokens && is_none completion_tokens
    then returns none
    else (int_or_zero c prompt_tokens >>= λ i. int_or_zero c completion_tokens >>= λ o.
        returns (some (record { input_tokens = i; output_tokens = o })))

unfoldable pub usage_of : Codec → Option Json → Result (Option TokenUsage)
usage_of c none = returns none
usage_of c (some usage) =
    if not (is_truthy usage)
    then returns none
    else (get_of "prompt_tokens" usage >>= λ p.
        get_of "completion_tokens" usage >>= λ o. usage_in c p o)

-- `_usage_from`
unfoldable pub usage_from : Codec → Fields → Result (Option TokenUsage)
usage_from c data_ = usage_of c (get "usage" data_)

-- `choices[0]` of what `data.get("choices") or []` is: `none` if that is empty.
unfoldable pub first_choice : Option Json → Result (Option Json)
first_choice none = returns none
first_choice (some (array no_items)) = returns none
first_choice (some (array (item choice rest))) = returns (some choice)
first_choice (some (text s)) = if s == "" then returns none else returns (some (text s))
first_choice (some j) = if is_truthy j then throws other_error else returns none

-- `value or ""`. A value that is neither falsy nor a text, which no completions API sends, is taken
-- for an exception here.
unfoldable pub text_or_empty : Option Json → Result String
text_or_empty none = returns ""
text_or_empty (some (text s)) = returns s
text_or_empty (some j) = if is_truthy j then throws other_error else returns ""

-- `choices[0].get("text", "") or ""`
unfoldable pub text_of : Json → Result String
text_of choice = get_of "text" choice >>= text_or_empty

-- The rest of `_parse_completion`, which falls back to an estimate if there is no usage.
unfoldable pub completion_of :
    Codec → VllmProvider → ModelSpec → String → Fields → Option Json → Result Completion
completion_of c p model prompt data_ none = throws provider_error
completion_of c p model prompt data_ (some choice) = text_of choice >>= λ t.
    usage_from c data_ >>= λ u. returns (elim u [
      | some usage ↦ record {
        text = t;
        input_tokens = usage.input_tokens;
        output_tokens = usage.output_tokens;
        model = model.name;
      }
      | none ↦ record {
        text = t;
        input_tokens = count_tokens c.runtime prompt p.chars_per_token;
        output_tokens = count_tokens c.runtime t p.chars_per_token;
        model = model.name;
      }
    ])

-- `_parse_completion`, of a value that need not be a dictionary.
unfoldable pub parse_completion :
    Codec → VllmProvider → ModelSpec → String → Json → Result Completion
parse_completion c p model prompt (object data_) =
    first_choice (get "choices" data_) >>= completion_of c p model prompt data_
parse_completion c p model prompt j = throws other_error

-- What a line of a stream is: nothing, the last one, or a frame.
pub data Line : Type 0 where
  skipped : Line
  done : Line
  frame : Fields → Line

unfoldable pub frame_of : Option Json → Line
frame_of (some (object fs)) = frame fs
frame_of _ = skipped

-- `_parse_sse_line`
unfoldable pub parse_sse_line : Codec → String → Line
parse_sse_line c raw =
    let line = c.runtime.strip raw in
    if raw == ""
    then skipped
    else if line == "" || starts_with line ":"
    then skipped
    else if not (starts_with line "data:")
    then skipped
    else let payload = c.runtime.strip (slice line 5 (len line)) in
      if payload == "[DONE]" then done else frame_of (c.loads payload)

-- How the transport fails, and the exception that is made of it.
pub data Failure : Type 0 where
  timed_out : Failure
  unreachable : Failure

unfoldable pub failure_error : Failure → Error
failure_error timed_out = provider_timeout_error
failure_error unreachable = provider_unavailable_error

-- What a call of the provider does besides: it posts, with its headers, and sleeps.
pub data Action : Type 0 where
  post : Fields → List (String × String) → Action
  sleep : ℕ → Action
