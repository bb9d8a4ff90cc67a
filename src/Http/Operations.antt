-- ===== src/Http/Operations.antt =====
-- app/main.py: the endpoints for operators.
use llm_inference_autoscalin.Base.{
  ℕ, String, ◌≡◌, refl, ◌⊎◌, inl, inr, Bool, true, false, not, ◌&&◌, none, List, map, Bool-cases,
  Dict,
}
use llm_inference_autoscalin.Errors.{Result, returns, throws}
use llm_inference_autoscalin.Config.{ModelSpec, Complexity}
use llm_inference_autoscalin.Autoscaler.{Autoscaler}
use llm_inference_autoscalin.Breaker.{BreakerState}
use llm_inference_autoscalin.Breaker.Registry
use llm_inference_autoscalin.Metrics.{set_queue_depth, cache_hit_rate}
use llm_inference_autoscalin.Metrics.Snapshot.{prometheus}
use llm_inference_autoscalin.Redis.{Redis}
use llm_inference_autoscalin.RedisLedger.{RedisLedger, spent}
use llm_inference_autoscalin.Service.State.{Service}
use llm_inference_autoscalin.Http.{Response, ok, http, reraised, as_http, plain}

pub record Health : Type 0 where
  pub status : String
  pub replicas : ℕ

-- `healthz`
unfoldable pub healthz : Autoscaler → Response Health
healthz a = ok (record { status = "ok"; replicas = a.current })

-- `readyz`, of the outcome of the ledger's `spent` for the user `__readyz__`: any exception is a 503.
unfoldable pub readyz : Autoscaler → Result ℕ → Response Health
readyz a (returns spent) = ok (record { status = "ready"; replicas = a.current })
readyz a (throws e) = http 503 none

pub record ModelRow : Type 0 where
  pub name : String
  pub provider : String
  pub tier : Complexity
  pub input_price_per_1k : ℕ
  pub output_price_per_1k : ℕ
  pub max_context_tokens : ℕ

-- `models`
unfoldable pub models : List ModelSpec → List ModelRow
models catalog =
    map
      (λ m. record {
        name = m.name;
        provider = m.provider;
        tier = m.tier;
        input_price_per_1k = m.input_price_per_1k;
        output_price_per_1k = m.output_price_per_1k;
        max_context_tokens = m.max_context_tokens;
      })
      catalog

-- `usage`, of the outcome of the ledger's `summary`
unfoldable pub usage : ℕ → Result (Dict ℕ) → Response (Dict ℕ)
usage second (returns spend_by_user) = ok spend_by_user
usage second (throws e) = as_http second (plain e)

-- `metrics`, which brings the queue's depth up to date first
unfoldable pub metrics : (String → ℕ → String) → Service → Service × List String
metrics show s =
    let m = set_queue_depth s.gate.waiting s.metrics in
    (record s { metrics = m }, prometheus show m)

pub record Status : Type 0 where
  pub replicas : ℕ
  pub capacity : ℕ
  pub in_flight : ℕ
  pub queue_depth : ℕ
  -- in ten-thousandths
  pub cache_hit_rate : ℕ
  pub circuits : Dict BreakerState
  pub open_circuits : List String
  pub shed : ℕ
  pub rate_limited : ℕ
  pub failovers : ℕ

-- `status`
unfoldable pub status : Autoscaler → Service → Status
status a s = record {
  replicas = a.current;
  capacity = s.gate.capacity;
  in_flight = s.gate.active;
  queue_depth = s.gate.waiting;
  cache_hit_rate = cache_hit_rate s.metrics;
  circuits = Registry.states s.breakers;
  open_circuits = Registry.open_backends s.breakers;
  shed = s.metrics.total_shed;
  rate_limited = s.metrics.total_rate_limited;
  failovers = s.metrics.total_failovers;
}

abbrev pub is_ready : Response Health → Bool
is_ready (ok h) = true
is_ready (http status retry_after) = false
is_ready (reraised e) = false

-- A replica with the distributed ledger leaves the rotation exactly if the ledger fails closed and the
-- server does not answer both commands; and the endpoint never raises an exception again.
pub readyz-ready :
    (R : Redis) (l : RedisLedger) (a : Autoscaler) (now : ℕ) (prunes ranges : Bool) (s : R.State)
    → let answer = readyz a (spent R l "__readyz__" now prunes ranges s).1 in
      (is_ready answer ≡ not (l.fail_closed && not (prunes && ranges)))
      × ((is_ready answer ≡ true) ⊎ (answer ≡ http 503 none))
unfolding readyz spent
readyz-ready R l a now true true s = elim (Bool-cases l.fail_closed) [
  | inl closed ↦ rw closed (refl, inl refl)
  | inr open_ ↦ rw open_ (refl, inl refl)
]
readyz-ready R l a now true false s = elim (Bool-cases l.fail_closed) [
  | inl closed ↦ rw (closed, spent) (refl, inr refl)
  | inr open_ ↦ rw (open_, spent) (refl, inl refl)
]
readyz-ready R l a now false ranges s = elim (Bool-cases l.fail_closed) [
  | inl closed ↦ rw (closed, spent) (refl, inr refl)
  | inr open_ ↦ rw (open_, spent) (refl, inl refl)
]
