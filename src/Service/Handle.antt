-- ===== src/Service/Handle.antt =====
-- app/service.py: `handle`, one request from its rate limit to its answer. Each part of it that runs
-- without a wait is a function of the service.
pub mod Holding
pub mod Billing
pub mod Answers
pub mod Slot
pub mod Restored
use llm_inference_autoscalin.Providers.{Completion}
use llm_inference_autoscalin.Base.{
  ℕ, ◌+◌, String, true, false, Option, none, some, [], ◌∷◌, ◌++◌, leb, if◌then◌else◌, length,
  round_div,
}
use llm_inference_autoscalin.Config.{ModelSpec, cost}
use llm_inference_autoscalin.Router.{
  RoutingSettings, RoutingDecision, Query, RouteError, Note, from_cache, Routed, routed, refused,
  route,
}
use llm_inference_autoscalin.RateLimit.{TokenBucketLimiter, RateLimitExceededError}
use llm_inference_autoscalin.RateLimit
use llm_inference_autoscalin.Cache.{InMemoryCache, CacheEntry}
use llm_inference_autoscalin.Cache
use llm_inference_autoscalin.Cache.Key.{make_cache_key}
use llm_inference_autoscalin.Ledger.{
  Ledger, Reservation, Reserved, held, exceeded, UserBudgetExceededError,
}
use llm_inference_autoscalin.Ledger
use llm_inference_autoscalin.Gate
use llm_inference_autoscalin.Metrics.{
  request_started, request_finished, request_rejected, request_rate_limited, request_shed,
  cache_hit, cache_miss,
}
use llm_inference_autoscalin.Service.State.{
  ServiceSettings, Service, World, InferenceResult, Wait, woken, timed_out, Fault, rate_limited,
  routing, user_budget, shed, Reply, served, raised, pending,
}
use llm_inference_autoscalin.Service.Failover.{
  Generated, generated, failed, out_of_fuel, count, generate,
}

-- The arguments of `handle`.
pub record Request : Type 0 where
  pub query : Query
  pub user_id : String
  pub user_daily_budget : Option ℕ

-- `_check_rate_limit`, which does nothing without a limiter.
unfoldable pub limited :
    Service
    → TokenBucketLimiter × Option RateLimitExceededError
    → Service × Option RateLimitExceededError
limited s (l, none) = (record s { rate_limiter = some l }, none)
limited s (l, some e) = (count request_rate_limited (record s { rate_limiter = some l }), some e)

unfoldable pub check_rate_limit : World → String → Service → Service × Option RateLimitExceededError
check_rate_limit w user_id s = elim s.rate_limiter [
  | none ↦ (s, none)
  | some l ↦ limited s (RateLimit.check l user_id w.settings.token w.limiter_at)
]

-- `_cache_key`, for a service with a cache.
unfoldable pub cache_key : World → RoutingDecision → String → String
cache_key w d prompt = make_cache_key w.digest d.model.name prompt d.projected_output_tokens

unfoldable pub looked_up : Service → InMemoryCache × Option CacheEntry → Service × Option CacheEntry
looked_up s (c, some entry) = (count cache_hit (record s { cache = some c }), some entry)
looked_up s (c, none) = (count cache_miss (record s { cache = some c }), none)

-- `_lookup_cache`
unfoldable pub lookup_cache :
    World → RoutingDecision → String → Service → Service × Option CacheEntry
lookup_cache w d prompt s = elim s.cache [
  | none ↦ (s, none)
  | some c ↦ looked_up s (Cache.get c (cache_key w d prompt) w.lookup_at)
]

-- `_cached_result`
unfoldable pub cached_result : RoutingDecision → CacheEntry → InferenceResult
cached_result d entry = record {
  text = entry.text;
  model = entry.model;
  complexity = d.complexity.tier;
  input_tokens = entry.input_tokens;
  output_tokens = entry.output_tokens;
  cost_usd = 0;
  downgraded = d.downgraded;
  routing_notes = d.notes ++ from_cache ∷ [];
  cached = true;
}

-- `_cache_store`
unfoldable pub cache_store : World → RoutingDecision → String → Completion → Service → Service
cache_store w d prompt c s = elim s.cache [
  | none ↦ s
  | some cache ↦ record s {
    cache = some (
        Cache.set cache (cache_key w d prompt)
          (record {
            text = c.text;
            input_tokens = c.input_tokens;
            output_tokens = c.output_tokens;
            model = d.model.name;
          })
          w.settings.cache_ttl w.store_at);
  }
]

-- `_admit`: the gate lets the request in at once or after a wait; on a timeout the wait is
-- cancelled, the request is counted as shed and its hold is refunded.
pub data Admission : Type 0 where
  admitted turned_away waits : Admission

unfoldable pub wait_for : World → Reservation → Service → Service × Admission
wait_for w r s = elim w.wait [
  | woken ↦
      let (g, passes) = Gate.wake s.gate in
      (record s { gate = g }, if passes then admitted else waits)
  | timed_out ↦ if leb w.settings.admission_timeout 0 then (s, waits) else (
    count request_shed
        (record s { gate = Gate.cancel s.gate; ledger = (Ledger.release s.ledger r).0 }),
    turned_away,
  )
]

unfoldable pub admit : World → Reservation → Service → Service × Admission
admit w r s =
    let (g, passes) = Gate.acquire s.gate in
    if passes
    then (record s { gate = g }, admitted)
    else wait_for w r (w.during_wait (record s { gate = g }))

-- The `try` block of `handle` after the generation, its `except` and its `finally`.
unfoldable pub finish : World → Request → Reservation → Service × Generated → Service × Reply
finish w q r (s, generated d c) =
    let actual_cost = cost d.model c.input_tokens c.output_tokens in
    let settled = record s {
      ledger =
          (Ledger.settle s.ledger r actual_cost
            (record {
              model = d.model.name;
              input_tokens = c.input_tokens;
              output_tokens = c.output_tokens;
            })
            w.settle_at).0;
    } in
    let counted =
      count (request_finished c.input_tokens c.output_tokens actual_cost d.downgraded) settled in
    let stored = cache_store w d q.query.prompt c counted in
    (
      record stored { gate = Gate.release stored.gate },
      served (record {
        text = c.text;
        model = d.model.name;
        complexity = d.complexity.tier;
        input_tokens = c.input_tokens;
        output_tokens = c.output_tokens;
        cost_usd = round_div actual_cost 1000000;
        downgraded = d.downgraded;
        routing_notes = d.notes;
        cached = false;
      }),
    )
finish w q r (s, failed f) =
    let refunded = record s { ledger = (Ledger.release s.ledger r).0 } in
    let counted = count (request_finished 0 0 0 false) refunded in
    (record counted { gate = Gate.release counted.gate }, raised f)
finish w q r (s, out_of_fuel) = (s, pending)

-- Fuel for the loop: a pass for every model of the catalog, and one.
abbrev pub passes_of : World → ℕ
passes_of w = length w.settings.routing.catalog + 1

unfoldable pub after_admit :
    World → Request → RoutingDecision → Reservation → Service × Admission → Service × Reply
unfolding finish
after_admit w q d r (s, admitted) =
    finish w q r (generate w q.query (passes_of w) (count request_started s) [] d)
after_admit w q d r (s, turned_away) = (s, raised (shed w.settings.admission_timeout))
after_admit w q d r (s, waits) = (s, pending)

unfoldable pub after_reserve :
    World → Request → RoutingDecision → Service → Ledger × Reserved → Service × Reply
after_reserve w q d s (l, held r) = after_admit w q d r (admit w r (record s { ledger = l }))
after_reserve w q d s (l, exceeded e) =
    (count request_rejected (record s { ledger = l }), raised (user_budget e))

abbrev pub user_limit : World → Request → ℕ
user_limit w q = elim q.user_daily_budget [
  | none ↦ w.settings.default_user_daily_budget
  | some b ↦ b
]

unfoldable pub after_lookup :
    World → Request → RoutingDecision → Service × Option CacheEntry → Service × Reply
after_lookup w q d (s, some entry) = (s, served (cached_result d entry))
after_lookup w q d (s, none) =
    after_reserve w q d s
      (Ledger.reserve s.ledger q.user_id d.projected_cost (user_limit w q) w.reserve_at w.entry_id)

unfoldable pub after_route : World → Request → Service → Routed → Service × Reply
after_route w q s (routed d) = after_lookup w q d (lookup_cache w d q.query.prompt s)
after_route w q s (refused e) = (count request_rejected s, raised (routing e))

unfoldable pub after_limit :
    World → Request → Service × Option RateLimitExceededError → Service × Reply
after_limit w q (s, some e) = (s, raised (rate_limited e))
after_limit w q (s, none) = after_route w q s (route w.runtime w.settings.routing q.query [])

unfoldable pub handle : World → Request → Service → Service × Reply
handle w q s = after_limit w q (check_rate_limit w q.user_id s)
