-- ===== src/Service/Handle/Restored.antt =====
-- app/service.py and app/gate.py: an answered request has given back the capacity that it took.
use llm_inference_autoscalin.Base.{
  ℕ, String, refl, inl, inr, Option, none, some, [], arith, Option-cases,
}
use llm_inference_autoscalin.Router.{RoutingDecision, Routed, routed, refused}
use llm_inference_autoscalin.RateLimit.{TokenBucketLimiter, RateLimitExceededError}
use llm_inference_autoscalin.RateLimit
use llm_inference_autoscalin.Cache.{InMemoryCache, CacheEntry}
use llm_inference_autoscalin.Cache
use llm_inference_autoscalin.Ledger.{Ledger, Reservation, Reserved, held, exceeded}
use llm_inference_autoscalin.Metrics.{
  request_started, request_rejected, request_rate_limited, cache_hit, cache_miss,
}
use llm_inference_autoscalin.Service.State.{Service, World, Reply}
use llm_inference_autoscalin.Service.Handle.{
  Request, limited, check_rate_limit, looked_up, lookup_cache, cache_key, Admission, admitted,
  turned_away, waits, passes_of, after_admit, after_reserve, after_lookup, after_route, after_limit,
  handle,
}
use llm_inference_autoscalin.Service.Handle.Slot.{
  IsSlot, Keeps, Restored, AfterAdmit, generate-IsSlot, finish-Restored, admit-AfterAdmit,
}

module _ (w : World) (q : Request) (s : Service) (during_wait : Keeps w.during_wait)
    (during_call : (k : ℕ) → Keeps (w.during_call k)) where
  abbrev Back : Service × Reply → Type 0
  Back = Restored s.gate s.metrics.in_flight

  after_admit-Restored :
      (d : RoutingDecision) (r : Reservation) (x : Service × Admission)
      → AfterAdmit s.gate s.metrics.in_flight x
      → Back (after_admit w q d r x)
  unfolding after_admit request_started
  after_admit-Restored d r (x, admitted) h = finish-Restored s.gate s.metrics.in_flight w q r _ _ (
      generate-IsSlot _ _ w q.query (passes_of w) _ [] d during_call
        (record { gate_of = h.gate_of; in_flight_of = omega (arith, h.in_flight_of) }))
  after_admit-Restored d r (x, turned_away) h = h
  after_admit-Restored d r (x, waits) h = tt

  after_reserve-Restored :
      (d : RoutingDecision) (x : Service) (y : Ledger × Reserved)
      → IsSlot s.gate s.metrics.in_flight x
      → Back (after_reserve w q d x y)
  unfolding after_reserve request_rejected
  after_reserve-Restored d x (l, held r) h = after_admit-Restored d r _ (
      admit-AfterAdmit s.gate s.metrics.in_flight w r _ during_wait
        (record { gate_of = h.gate_of; in_flight_of = h.in_flight_of }))
  after_reserve-Restored d x (l, exceeded e) h = record {
    gate_of = h.gate_of;
    in_flight_of = h.in_flight_of;
  }

  after_lookup-Restored :
      (d : RoutingDecision) (x : Service × Option CacheEntry)
      → IsSlot s.gate s.metrics.in_flight x.0
      → Back (after_lookup w q d x)
  unfolding after_lookup
  after_lookup-Restored d (x, some entry) h = h
  after_lookup-Restored d (x, none) h = after_reserve-Restored d x _ h

  lookup_cache-IsSlot :
      (d : RoutingDecision) (prompt : String) (x : Service)
      → IsSlot s.gate s.metrics.in_flight x
      → IsSlot s.gate s.metrics.in_flight (lookup_cache w d prompt x).0
  unfolding lookup_cache looked_up cache_hit cache_miss
  lookup_cache-IsSlot d prompt x h = elim (Option-cases x.cache) [
    | inl e ↦ rw e (record { gate_of = h.gate_of; in_flight_of = h.in_flight_of })
    | inr (c, e) ↦ rw e (found (Cache.get c (cache_key w d prompt) w.lookup_at))
  ]
    where
      found :
          (y : InMemoryCache × Option CacheEntry)
          → IsSlot s.gate s.metrics.in_flight (looked_up x y).0
      found (c, some entry) = record { gate_of = h.gate_of; in_flight_of = h.in_flight_of }
      found (c, none) = record { gate_of = h.gate_of; in_flight_of = h.in_flight_of }

  check_rate_limit-IsSlot :
      (user_id : String) → IsSlot s.gate s.metrics.in_flight (check_rate_limit w user_id s).0
  unfolding check_rate_limit limited request_rate_limited
  check_rate_limit-IsSlot user_id = elim (Option-cases s.rate_limiter) [
    | inl e ↦ rw e (record { gate_of = refl; in_flight_of = refl })
    | inr (l, e) ↦ rw e (found (RateLimit.check l user_id w.settings.token w.limiter_at))
  ]
    where
      found :
          (y : TokenBucketLimiter × Option RateLimitExceededError)
          → IsSlot s.gate s.metrics.in_flight (limited s y).0
      found (l, none) = record { gate_of = refl; in_flight_of = refl }
      found (l, some err) = record { gate_of = refl; in_flight_of = refl }

  after_route-Restored :
      (x : Service) (y : Routed) → IsSlot s.gate s.metrics.in_flight x → Back (after_route w q x y)
  unfolding after_route request_rejected
  after_route-Restored x (routed d) h =
      after_lookup-Restored d _ (lookup_cache-IsSlot d q.query.prompt x h)
  after_route-Restored x (refused e) h = record {
    gate_of = h.gate_of;
    in_flight_of = h.in_flight_of;
  }

  after_limit-Restored :
      (x : Service × Option RateLimitExceededError)
      → IsSlot s.gate s.metrics.in_flight x.0
      → Back (after_limit w q x)
  unfolding after_limit
  after_limit-Restored (x, some e) h = h
  after_limit-Restored (x, none) h = after_route-Restored x _ h

  -- An answered request gives back what it took. If other requests leave the gate and the number
  -- in flight as they are meanwhile, then both are, once the request is answered, what they were
  -- before it, whichever way it ends: served, refused, shed after a wait, or failed.
  pub handle-Restored : Restored s.gate s.metrics.in_flight (handle w q s)
  unfolding handle
  handle-Restored =
      after_limit-Restored (check_rate_limit w q.user_id s) (check_rate_limit-IsSlot q.user_id)
