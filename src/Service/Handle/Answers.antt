-- ===== src/Service/Handle/Answers.antt =====
-- app/service.py: a request is answered.
use llm_inference_autoscalin.Base.{
  ◌<◌, ◌≡◌, refl, ◌≢◌, inl, inr, true, not, Option, none, some, [], arith, lt→not_leb, Bool-cases,
  length-filter-le,
}
use llm_inference_autoscalin.Config.{ModelSpec}
use llm_inference_autoscalin.Router.{RoutingDecision, Routed, routed, refused, route, member}
use llm_inference_autoscalin.Router.Sound.{OnOffer, route-IsAffordable}
use llm_inference_autoscalin.RateLimit.{RateLimitExceededError}
use llm_inference_autoscalin.Cache.{CacheEntry}
use llm_inference_autoscalin.Ledger.{Ledger, Reservation, Reserved, held, exceeded}
use llm_inference_autoscalin.Gate
use llm_inference_autoscalin.Metrics.{request_started}
use llm_inference_autoscalin.Service.State.{Service, World, Wait, woken, timed_out, pending}
use llm_inference_autoscalin.Service.Failover.{Generated, generated, failed, out_of_fuel, count}
use llm_inference_autoscalin.Service.Failover.Terminates.{left, generate-ends}
use llm_inference_autoscalin.Service.Handle.{
  Request, check_rate_limit, Admission, admitted, turned_away, waits, wait_for, admit, finish,
  passes_of, after_admit, after_reserve, after_lookup, after_route, after_limit, handle,
}

-- The wait for capacity comes to an end: its condition holds when it is woken, or a positive
-- timeout strikes.
abbrev pub Ends : World → Wait → Type 0
Ends w woken = (s : Service) → (Gate.wake (w.during_wait s).gate).1 ≡ true
Ends w timed_out = 0 < w.settings.admission_timeout

module _ (w : World) (q : Request) (ends : Ends w w.wait) where
  wait_for-Ends :
      (r : Reservation) (s : Service) (x : Wait)
      → w.wait ≡ x
      → Ends w x
      → (wait_for w r (w.during_wait s)).1 ≢ waits
  unfolding wait_for
  wait_for-Ends r s woken e h = rw e (rw (h s) (λ k. absurd (cc k)))
  wait_for-Ends r s timed_out e h =
      rw e (rw (lt→not_leb w.settings.admission_timeout 0 h) (λ k. absurd (cc k)))

  admit-ends : (r : Reservation) (s : Service) → (admit w r s).1 ≢ waits
  unfolding admit
  admit-ends r s = elim (Bool-cases (Gate.acquire s.gate).1) [
    | inl passes ↦ rw passes (λ k. absurd (cc k))
    | inr parks ↦ rw parks (wait_for-Ends r _ w.wait refl ends)
  ]

  finish-ends :
      (r : Reservation) (s : Service) (g : Generated)
      → g ≢ out_of_fuel
      → (finish w q r (s, g)).1 ≢ pending
  unfolding finish
  finish-ends r s (generated d c) h e = absurd (cc e)
  finish-ends r s (failed f) h e = absurd (cc e)
  finish-ends r s out_of_fuel h e = absurd (h refl)

  left-passes : left w.settings.routing [] < passes_of w
  left-passes = ground (
    arith,
    length-filter-le (λ (m : ModelSpec). not (member m.name [])) w.settings.routing.catalog,
  )

  after_admit-ends :
      (d : RoutingDecision) (r : Reservation) (x : Service × Admission)
      → OnOffer w.settings.routing [] d.model
      → x.1 ≢ waits
      → (after_admit w q d r x).1 ≢ pending
  unfolding after_admit
  after_admit-ends d r (s, admitted) o h e =
      finish-ends r _ _
        (generate-ends w q.query (passes_of w) (count request_started s) [] d o left-passes) e
  after_admit-ends d r (s, turned_away) o h e = absurd (cc e)
  after_admit-ends d r (s, waits) o h e = absurd (h refl)

  after_reserve-ends :
      (d : RoutingDecision) (s : Service) (x : Ledger × Reserved)
      → OnOffer w.settings.routing [] d.model
      → (after_reserve w q d s x).1 ≢ pending
  unfolding after_reserve
  after_reserve-ends d s (l, held r) o e = after_admit-ends d r _ o (admit-ends r _) e
  after_reserve-ends d s (l, exceeded e) o k = absurd (cc k)

  after_lookup-ends :
      (d : RoutingDecision) (x : Service × Option CacheEntry)
      → OnOffer w.settings.routing [] d.model
      → (after_lookup w q d x).1 ≢ pending
  unfolding after_lookup
  after_lookup-ends d (s, some entry) o e = absurd (cc e)
  after_lookup-ends d (s, none) o e = after_reserve-ends d s _ o e

  after_route-ends :
      (s : Service) (x : Routed)
      → route w.runtime w.settings.routing q.query [] ≡ x
      → (after_route w q s x).1 ≢ pending
  unfolding after_route
  after_route-ends s (routed d) h e =
      after_lookup-ends d _ (route-IsAffordable w.runtime w.settings.routing q.query [] h).0 e
  after_route-ends s (refused f) h e = absurd (cc e)

  after_limit-ends : (x : Service × Option RateLimitExceededError) → (after_limit w q x).1 ≢ pending
  unfolding after_limit
  after_limit-ends (s, some e) k = absurd (cc k)
  after_limit-ends (s, none) k = after_route-ends s _ refl k

  -- Every request is answered, with a result or an error: if its wait for capacity ends, the
  -- failover loop does too, within one pass for each model of the catalog and one.
  pub handle-ends : (s : Service) → (handle w q s).1 ≢ pending
  unfolding handle
  handle-ends s = after_limit-ends (check_rate_limit w q.user_id s)
