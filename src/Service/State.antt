-- ===== src/Service/State.antt =====
-- app/service.py: the state of the service, what it takes from outside, and its answers. The service is
-- the one that `Settings` makes by default: the in-memory ledger, cache and limiter.
use llm_inference_autoscalin.Base.{ℕ, String, Bool, Option, List, ◌≡◌, refl, ◌⊎◌, inl, inr}
use llm_inference_autoscalin.Errors.{Error}
use llm_inference_autoscalin.Providers.{Completion}
use llm_inference_autoscalin.Tokens.{TextRuntime}
use llm_inference_autoscalin.Config.{Complexity, ModelSpec}
use llm_inference_autoscalin.Router.{RoutingSettings, RouteError, Note}
use llm_inference_autoscalin.Ledger.{Ledger, UserBudgetExceededError}
use llm_inference_autoscalin.RateLimit.{TokenBucketLimiter, RateLimitExceededError}
use llm_inference_autoscalin.Breaker.{CircuitOpenError}
use llm_inference_autoscalin.Breaker.Registry.{BreakerRegistry}
use llm_inference_autoscalin.Cache.{InMemoryCache}
use llm_inference_autoscalin.Cache.Key.{Digest}
use llm_inference_autoscalin.Gate.{CapacityGate}
use llm_inference_autoscalin.Metrics.{Metrics}

pub record ServiceSettings : Type 0 where
  pub routing : RoutingSettings
  pub default_user_daily_budget : ℕ
  -- one token of the rate limiter, in its unit
  pub token : ℕ
  pub admission_timeout : ℕ
  pub cache_ttl : ℕ
  pub fallback_enabled : Bool

-- The attributes of `InferenceService` that a request reads or writes; `none` for no limiter and
-- no cache.
pub record Service : Type 0 where
  pub rate_limiter : Option TokenBucketLimiter
  pub cache : Option InMemoryCache
  pub ledger : Ledger
  pub metrics : Metrics
  pub gate : CapacityGate
  pub breakers : BreakerRegistry

-- `SERVER_FAULTS`
pub data ServerFault : Type 0 where
  unavailable timeout : ServerFault

-- How a call of the provider ends: it returns, raises a server fault, or raises an exception of
-- another class.
pub data Answer : Type 0 where
  completes : Completion → Answer
  faults : ServerFault → Answer
  rejects : Error → Answer

-- How a wait for capacity ends: the condition comes true, or the timeout strikes first.
pub data Wait : Type 0 where
  woken timed_out : Wait

pub Wait-cases : (x : Wait) → (x ≡ woken) ⊎ (x ≡ timed_out)
Wait-cases woken = inl refl
Wait-cases timed_out = inr refl

-- What a request takes from outside, and the settings, which nothing changes. `during_wait` and
-- `during_call` are what all other requests do to the shared state while this one waits for
-- capacity, and in its call of a model with n units of fuel left.
pub record World : Type 0 where
  pub settings : ServiceSettings
  pub runtime : TextRuntime
  pub digest : Digest
  pub generate : ModelSpec → String → ℕ → Answer
  pub wait : Wait
  pub during_wait : Service → Service
  pub during_call : ℕ → Service → Service
  pub entry_id : String
  pub limiter_at : ℕ
  pub lookup_at : ℕ
  pub reserve_at : ℕ
  pub allows_at : ℕ → ℕ
  pub retry_at : ℕ → ℕ
  pub outcome_at : ℕ → ℕ
  pub settle_at : ℕ
  pub store_at : ℕ

pub record InferenceResult : Type 0 where
  pub text : String
  pub model : String
  pub complexity : Complexity
  pub input_tokens : ℕ
  pub output_tokens : ℕ
  -- in micro-dollars
  pub cost_usd : ℕ
  pub downgraded : Bool
  pub routing_notes : List Note
  pub cached : Bool

pub data Fault : Type 0 where
  rate_limited : RateLimitExceededError → Fault
  routing : RouteError → Fault
  user_budget : UserBudgetExceededError → Fault
  -- `AdmissionTimeoutError(waited_s)`
  shed : ℕ → Fault
  circuit_open : CircuitOpenError → Fault
  server_fault : ServerFault → Fault
  provider_fault : Error → Fault

-- How `handle` stands: it has returned, has raised, or still waits for capacity.
pub data Reply : Type 0 where
  served : InferenceResult → Reply
  raised : Fault → Reply
  pending : Reply
