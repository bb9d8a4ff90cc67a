-- ===== src/Service/Handle/Billing.antt =====
-- app/service.py and app/cost/memory.py: what a request costs its user, on every way out of `handle`.
use llm_inference_autoscalin.Providers.{Completion}
use llm_inference_autoscalin.Base.{
  ℕ, ◌+◌, ◌≤◌, String, ◌≡◌, refl, ◌∙◌, inl, inr, true, Option, none, some, [], arith, leb,
  Bool-cases, Option-cases, round_div,
}
use llm_inference_autoscalin.Config.{cost}
use llm_inference_autoscalin.Router.{RoutingDecision, Routed, routed, refused}
use llm_inference_autoscalin.RateLimit.{TokenBucketLimiter, RateLimitExceededError}
use llm_inference_autoscalin.RateLimit
use llm_inference_autoscalin.Cache.{InMemoryCache, CacheEntry}
use llm_inference_autoscalin.Cache
use llm_inference_autoscalin.Ledger.{Ledger, entries, Reservation, Reserved, held, exceeded}
use llm_inference_autoscalin.Ledger.Entries.{live, find}
use llm_inference_autoscalin.Ledger.Holds.{live-prune, Outcome, reserve-Outcome}
use llm_inference_autoscalin.Ledger.Close.{live-settle, live-release}
use llm_inference_autoscalin.Ledger.Charge.{hold_of, with_hold-HasHold, live-with_hold_later}
use llm_inference_autoscalin.Gate
use llm_inference_autoscalin.Metrics.{request_started}
use llm_inference_autoscalin.Service.State.{
  Service, World, Wait-cases, InferenceResult, Reply, served, raised, pending,
}
use llm_inference_autoscalin.Service.Failover.{Generated, generated, failed, out_of_fuel, count}
use llm_inference_autoscalin.Service.Handle.{
  Request, limited, check_rate_limit, cache_key, looked_up, lookup_cache, cache_store, user_limit,
  Admission, admitted, turned_away, waits, wait_for, admit, finish, passes_of, after_admit,
  after_reserve, after_lookup, after_route, after_limit, cached_result, handle,
}
use llm_inference_autoscalin.Service.Handle.Holding.{
  IsHolding, IsHolding-same, Spares, generate-Held,
}

-- A served request has cost its user what its answer shows, in micro-dollars, and nothing if it
-- was served from the cache.
pub record IsCharged (u : String) (l l' : Ledger) (t : ℕ) (x : InferenceResult) : Type 0 where
  pub actual_cost : ℕ
  pub charged : live l' u t ≡ live l u t + actual_cost
  pub shown : x.cost_usd ≡ round_div actual_cost 1000000
  pub free : x.cached ≡ true → actual_cost ≡ 0

-- What an answer has cost a user: what it shows, if it is served; nothing, if it is an error; and
-- at least nothing, while the request still waits.
abbrev pub Bill : String → Ledger → ℕ → Service × Reply → Type 0
Bill u l t (s, served x) = IsCharged u l s.ledger t x
Bill u l t (s, raised f) = live s.ledger u t ≡ live l u t
Bill u l t (s, pending) = live l u t ≤ live s.ledger u t

module _ (w : World) (q : Request) (l : Ledger) (r : Reservation) where
  pub cache_store-ledger :
      (d : RoutingDecision) (c : Completion) (s : Service)
      → (cache_store w d q.query.prompt c s).ledger ≡ s.ledger
  unfolding cache_store
  cache_store-ledger d c s = ground arith

  finish-Bill :
      (s : Service) (g : Generated)
      → IsHolding l s.ledger w.settle_at r
      → Bill r.user_id l w.settle_at (finish w q r (s, g))
  unfolding finish
  finish-Bill s (generated d c) h =
      let actual = cost d.model c.input_tokens c.output_tokens in
      record {
        actual_cost = actual;
        charged = rw cache_store-ledger (
            omega (
              arith,
              live-settle s.ledger r actual
                  (record {
                    model = d.model.name;
                    input_tokens = c.input_tokens;
                    output_tokens = c.output_tokens;
                  })
                  w.settle_at h.hold,
              h.live_of,
            ));
        shown = refl;
        free = λ k. absurd (cc k);
      }
  finish-Bill s (failed f) h = omega (arith, live-release s.ledger r w.settle_at h.hold, h.live_of)
  finish-Bill s out_of_fuel h = ground (arith, h.live_of)

  -- Getting into the gate keeps the hold, and a timeout refunds it.
  abbrev pub AfterAdmit : Service × Admission → Type 0
  AfterAdmit (s, admitted) = IsHolding l s.ledger w.settle_at r
  AfterAdmit (s, waits) = IsHolding l s.ledger w.settle_at r
  AfterAdmit (s, turned_away) = live s.ledger r.user_id w.settle_at ≡ live l r.user_id w.settle_at

  wait_for-AfterAdmit :
      (s : Service) → IsHolding l s.ledger w.settle_at r → AfterAdmit (wait_for w r s)
  unfolding wait_for
  wait_for-AfterAdmit s h = elim (Wait-cases w.wait) [
    | inl e ↦ rw e (elim (Bool-cases (Gate.wake s.gate).1) [
      | inl passes ↦ rw passes h
      | inr parked ↦ rw parked h
    ])
    | inr e ↦ rw e (elim (Bool-cases (leb w.settings.admission_timeout 0)) [
      | inl never ↦ rw never h
      | inr sheds ↦ rw sheds (omega (arith, live-release s.ledger r w.settle_at h.hold, h.live_of))
    ])
  ]

  pub admit-AfterAdmit :
      Spares r.user_id w.during_wait
      → (s : Service) → IsHolding l s.ledger w.settle_at r
      → AfterAdmit (admit w r s)
  unfolding admit
  admit-AfterAdmit spares s h = elim (Bool-cases (Gate.acquire s.gate).1) [
    | inl passes ↦ rw passes h
    | inr parks ↦
        rw parks (wait_for-AfterAdmit _ (IsHolding-same l s.ledger _ w.settle_at r (spares _) h))
  ]

  after_admit-Bill :
      ((n : ℕ) → Spares r.user_id (w.during_call n))
      → (d : RoutingDecision) (x : Service × Admission) → AfterAdmit x
      → Bill r.user_id l w.settle_at (after_admit w q d r x)
  unfolding after_admit
  after_admit-Bill spares d (s, admitted) h =
      finish-Bill _ _ (generate-Held w q l r spares (passes_of w) (count request_started s) [] d h)
  after_admit-Bill spares d (s, turned_away) h = h
  after_admit-Bill spares d (s, waits) h = ground (arith, h.live_of)

pub lookup_cache-ledger :
    (w : World) (d : RoutingDecision) (prompt : String) (s : Service)
    → (lookup_cache w d prompt s).0.ledger ≡ s.ledger
unfolding lookup_cache looked_up
lookup_cache-ledger w d prompt s = elim (Option-cases s.cache) [
  | inl e ↦ rw e refl
  | inr (c, e) ↦ rw e (looked_up-ledger (Cache.get c (cache_key w d prompt) w.lookup_at))
]
  where
    looked_up-ledger : (x : InMemoryCache × Option CacheEntry) → (looked_up s x).0.ledger ≡ s.ledger
    looked_up-ledger (c, some entry) = refl
    looked_up-ledger (c, none) = refl

pub check_rate_limit-ledger :
    (w : World) (user_id : String) (s : Service)
    → (check_rate_limit w user_id s).0.ledger ≡ s.ledger
unfolding check_rate_limit limited
check_rate_limit-ledger w user_id s = elim (Option-cases s.rate_limiter) [
  | inl e ↦ rw e refl
  | inr (l, e) ↦ rw e (limited-ledger (RateLimit.check l user_id w.settings.token w.limiter_at))
]
  where
    limited-ledger :
        (x : TokenBucketLimiter × Option RateLimitExceededError) → (limited s x).0.ledger ≡ s.ledger
    limited-ledger (l, none) = refl
    limited-ledger (l, some err) = refl

module _ (w : World) (q : Request) (s : Service) (during_wait : Spares q.user_id w.during_wait)
    (during_call : (n : ℕ) → Spares q.user_id (w.during_call n))
    (fresh : find w.entry_id (entries s.ledger q.user_id) ≡ none)
    (later : w.reserve_at ≤ w.settle_at)
    (inside : w.settle_at ≤ w.reserve_at + s.ledger.window) where
  reserve-Bill :
      (d : RoutingDecision) (x : Service) (y : Ledger × Reserved)
      → x.ledger ≡ s.ledger
      → Outcome s.ledger q.user_id d.projected_cost (user_limit w q) w.reserve_at w.entry_id y
      → Bill q.user_id s.ledger w.settle_at (after_reserve w q d x y)
  unfolding after_reserve
  reserve-Bill d x (l, held r) e o = rw o.ledger (
      rw o.hold (
        after_admit-Bill w q s.ledger (hold_of q.user_id d.projected_cost w.reserve_at w.entry_id)
          during_call d _
          (admit-AfterAdmit w q s.ledger
            (hold_of q.user_id d.projected_cost w.reserve_at w.entry_id) during_wait _
            (record {
              entry = record { at = w.reserve_at; amount = d.projected_cost; id = w.entry_id };
              hold =
                  with_hold-HasHold s.ledger q.user_id d.projected_cost w.reserve_at w.entry_id
                    w.settle_at fresh inside;
              live_of =
                  live-with_hold_later s.ledger q.user_id d.projected_cost w.reserve_at w.entry_id
                    w.settle_at later inside;
            }))))
  reserve-Bill d x (l, exceeded err) e o =
      rw o.ledger (live-prune s.ledger q.user_id q.user_id w.reserve_at w.settle_at later)

  lookup-Bill :
      (d : RoutingDecision) (x : Service × Option CacheEntry)
      → x.0.ledger ≡ s.ledger
      → Bill q.user_id s.ledger w.settle_at (after_lookup w q d x)
  unfolding after_lookup
  lookup-Bill d (x, some entry) e = record {
    actual_cost = 0;
    charged = rw e (omega arith);
    shown = unfold cached_result round_div in refl;
    free = λ k. refl;
  }
  lookup-Bill d (x, none) e = reserve-Bill d x _ e (
      rw e (
        reserve-Outcome s.ledger q.user_id d.projected_cost (user_limit w q) w.reserve_at
          w.entry_id))

  route-Bill :
      (x : Service) (y : Routed)
      → x.ledger ≡ s.ledger
      → Bill q.user_id s.ledger w.settle_at (after_route w q x y)
  unfolding after_route
  route-Bill x (routed d) e =
      lookup-Bill d (lookup_cache w d q.query.prompt x)
        (lookup_cache-ledger w d q.query.prompt x ∙ e)
  route-Bill x (refused err) e = rw e refl

  limit-Bill :
      (x : Service × Option RateLimitExceededError)
      → x.0.ledger ≡ s.ledger
      → Bill q.user_id s.ledger w.settle_at (after_limit w q x)
  unfolding after_limit
  limit-Bill (x, some err) e = rw e refl
  limit-Bill (x, none) e = route-Bill x _ e

  -- A request costs its user what its answer says, whichever way it ends. Let no other request touch
  -- this user's entries meanwhile, let the reservation's id be fresh, and let the request settle
  -- after its reservation and within the ledger's window. Then, at the time of the settlement, the user's live spend has gone
  -- up by the actual cost of an answer that is served, which is the one the answer shows rounded to
  -- micro-dollars, and is 0 for one from the cache. It is unchanged if the request ends in any
  -- error, be it refused, shed, or failed in the call of a model; and not lower while it waits.
  pub handle-Bill : Bill q.user_id s.ledger w.settle_at (handle w q s)
  unfolding handle
  handle-Bill = limit-Bill (check_rate_limit w q.user_id s) (check_rate_limit-ledger w q.user_id s)
