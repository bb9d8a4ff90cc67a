-- ===== src/Http.antt =====
-- app/main.py: exceptions as HTTP answers, and the endpoints that run a request. FastAPI is not
-- modelled: an endpoint is the function that it registers.
pub mod Status
pub mod Backoff
pub mod Requests
pub mod Bodies
pub mod Operations
use llm_inference_autoscalin.Base.{
  ℕ, zero, suc, ◌+◌, ◌*◌, ◌/◌, max, String, Bool, ◌||◌, Option, none, some, List, [], ◌∷◌,
  if◌then◌else◌, round_div,
}
use llm_inference_autoscalin.Errors.{
  Error, budget_exceeded_error, user_budget_exceeded_error, rate_limit_exceeded_error,
  context_too_large_error, ledger_unavailable_error, admission_timeout_error, circuit_open_error,
  no_model_available_error, provider_timeout_error, provider_unavailable_error, provider_error,
  value_error, is_instance,
}
use llm_inference_autoscalin.Config.{Complexity}
use llm_inference_autoscalin.Complexity.{Reason}
use llm_inference_autoscalin.RateLimit.{Delay, quotient, infinite}
use llm_inference_autoscalin.Router.{
  RouteError, budget_exceeded, context_too_large, no_model_available, unknown_model,
  no_model_for_tier, RoutingDecision, Note, Routed, routed, refused, route,
}
use llm_inference_autoscalin.Service.State.{
  Service, World, unavailable, timeout, InferenceResult, Fault, rate_limited, routing, user_budget,
  shed, circuit_open, server_fault, provider_fault, Reply, served, raised, pending,
}
use llm_inference_autoscalin.Service.Handle.{Request, handle}
use llm_inference_autoscalin.Service.Stream.{
  StreamWorld, StreamEvent, StreamReply, replayed, streamed, refuses, stream_pending, handle_stream,
}

-- `_STATUS_MAP`, in its order.
abbrev pub status_map : List (Error × ℕ)
status_map =
    (budget_exceeded_error, 402)
    ∷ (user_budget_exceeded_error, 429)
    ∷ (rate_limit_exceeded_error, 429)
    ∷ (context_too_large_error, 413)
    ∷ (ledger_unavailable_error, 503)
    ∷ (admission_timeout_error, 503)
    ∷ (circuit_open_error, 503)
    ∷ (no_model_available_error, 503)
    ∷ (provider_timeout_error, 504)
    ∷ (provider_unavailable_error, 503)
    ∷ (provider_error, 502)
    ∷ (value_error, 400)
    ∷ []

unfoldable pub first_match : Error → List (Error × ℕ) → Option ℕ
first_match exc [] = none
first_match exc ((exc_type, status) ∷ rest) =
    if is_instance exc exc_type then some status else first_match exc rest

-- `_status_for`
unfoldable pub status_for : Error → Option ℕ
status_for exc = first_match exc status_map

-- An exception: its class, and its attribute `retry_after_s` if it has one, in ticks.
pub record Exception : Type 0 where
  pub kind : Error
  pub retry_after : Option Delay

-- `str(max(1, int(seconds) + 1))` of a delay in ticks, `second` of which make a second.
unfoldable pub retry_seconds : ℕ → Delay → Option ℕ
retry_seconds second infinite = none
retry_seconds second (quotient num den) = some (max 1 (num / (den * second) + 1))

-- What an endpoint answers: a result, an HTTPException with its status and its `retry-after`
-- header, or the exception itself, raised again.
pub data Response {ℓ} (A : Type ℓ) : Type ℓ where
  ok : A → Response A
  http : ℕ → Option ℕ → Response A
  reraised : Error → Response A

-- The loop over `_RETRY_AFTER_ATTR`.
unfoldable pub headers_for : ℕ → Exception → Option ℕ
headers_for second exc =
    if is_instance exc.kind rate_limit_exceeded_error || is_instance exc.kind circuit_open_error
    then elim exc.retry_after [ none ↦ none | some delay ↦ retry_seconds second delay ]
    else none

-- `_as_http`
unfoldable pub as_http {ℓ} : {A : Type ℓ} → ℕ → Exception → Response A
as_http second exc = elim (status_for exc.kind) [
  | none ↦ reraised exc.kind
  | some status ↦ http status (headers_for second exc)
]

abbrev pub plain : Error → Exception
plain kind = record { kind = kind; retry_after = none }

abbrev pub route_error : RouteError → Error
route_error (budget_exceeded cost budget) = budget_exceeded_error
route_error context_too_large = context_too_large_error
route_error no_model_available = no_model_available_error
route_error (unknown_model name) = value_error
route_error (no_model_for_tier tier) = value_error

-- The exception that `handle` raises for a fault.
unfoldable pub exception_of : Fault → Exception
exception_of (rate_limited e) = record {
  kind = rate_limit_exceeded_error;
  retry_after = some e.retry_after;
}
exception_of (routing e) = plain (route_error e)
exception_of (user_budget e) = plain user_budget_exceeded_error
exception_of (shed waited) = plain admission_timeout_error
exception_of (circuit_open e) = record {
  kind = circuit_open_error;
  retry_after = some (quotient e.retry_after_s 1);
}
exception_of (server_fault unavailable) = plain provider_unavailable_error
exception_of (server_fault timeout) = plain provider_timeout_error
exception_of (provider_fault kind) = plain kind

unfoldable pub respond : ℕ → Reply → Option (Response InferenceResult)
respond second (served result) = some (ok result)
respond second (raised f) = some (as_http second (exception_of f))
respond second pending = none

-- `infer`; `none` while the request waits for capacity.
unfoldable pub infer : ℕ → World → Request → Service → Service × Option (Response InferenceResult)
infer second w q s = let (s', reply) = handle w q s in (s', respond second reply)

pub record RouteExplainResponse : Type 0 where
  pub model : String
  pub complexity : Complexity
  -- in ten-thousandths
  pub complexity_score : ℕ
  pub complexity_reasons : List Reason
  pub input_tokens : ℕ
  pub projected_output_tokens : ℕ
  -- in micro-dollars
  pub projected_cost_usd : ℕ
  pub downgraded : Bool
  pub routing_notes : List Note

-- The rounding of a score in 120,000ths to ten-thousandths, and of a cost to micro-dollars.
unfoldable pub explanation : RoutingDecision → RouteExplainResponse
explanation d = record {
  model = d.model.name;
  complexity = d.complexity.tier;
  complexity_score = round_div d.complexity.score 12;
  complexity_reasons = d.complexity.reasons;
  input_tokens = d.input_tokens;
  projected_output_tokens = d.projected_output_tokens;
  projected_cost_usd = round_div d.projected_cost 1000000;
  downgraded = d.downgraded;
  routing_notes = d.notes;
}

unfoldable pub explained : ℕ → Routed → Response RouteExplainResponse
explained second (routed d) = ok (explanation d)
explained second (refused e) = as_http second (plain (route_error e))

-- `route_explain`
unfoldable pub route_explain : ℕ → World → Request → Response RouteExplainResponse
route_explain second w q = explained second (route w.runtime w.settings.routing q.query [])

-- What the body of a stream consists of: the frame of each event, and the end marker.
pub data Frame : Type 0 where
  event_frame : StreamEvent → Frame
  done_frame : Frame

-- The frames that reach a client that leaves at the event of this number, or never. At that event the
-- generator is closed, and its `finally` can yield nothing more: Python raises a RuntimeError there.
unfoldable pub frames : Option ℕ → List StreamEvent → List Frame
frames leaves_at [] = done_frame ∷ []
frames none (e ∷ es) = event_frame e ∷ frames none es
frames (some zero) (e ∷ es) = event_frame e ∷ []
frames (some (suc n)) (e ∷ es) = event_frame e ∷ frames (some n) es

-- The first event is pulled before the answer starts: an exception at it is an HTTP error, and an
-- empty stream one with status 500.
unfoldable pub opened : Option ℕ → List StreamEvent → Response (List Frame)
opened leaves_at [] = http 500 none
opened leaves_at (e ∷ es) = ok (frames leaves_at (e ∷ es))

unfoldable pub respond_stream : ℕ → Option ℕ → StreamReply → Option (Response (List Frame))
respond_stream second leaves_at (replayed es) = some (opened leaves_at es)
respond_stream second leaves_at (streamed d p) = some (opened leaves_at p.events)
respond_stream second leaves_at (refuses f) = some (as_http second (exception_of f))
respond_stream second leaves_at stream_pending = none

-- `infer_stream`, when its body has been read to the end, or up to the event at which the client
-- left.
unfoldable pub infer_stream :
    ℕ → StreamWorld → Request → Service → Service × Option (Response (List Frame))
infer_stream second w q s =
    let (s', reply) = handle_stream w q s in (s', respond_stream second w.leaves_at reply)
