-- ===== src/Service/Failover.antt =====
-- app/service.py: generation with failover. The `while True` loop runs on fuel.
pub mod Terminates
pub mod Probe
use llm_inference_autoscalin.Errors.{Error}
use llm_inference_autoscalin.Providers.{Completion}
use llm_inference_autoscalin.Base.{
  ℕ, zero, suc, String, ◌≡◌, refl, inl, inr, Bool, true, false, not, ◌||◌, none, some, List, ◌∷◌,
  if◌then◌else◌, Bool-cases,
}
use llm_inference_autoscalin.Router.{RoutingDecision, Query, Routed, routed, refused, route, pinned}
use llm_inference_autoscalin.Breaker.{
  CircuitBreaker, CircuitOpenError, allows, record_success, record_failure, retry_after,
}
use llm_inference_autoscalin.Breaker.Registry
use llm_inference_autoscalin.Metrics.{Metrics, request_circuit_rejected, request_failover}
use llm_inference_autoscalin.Service.State.{
  Service, World, Answer, completes, faults, rejects, Fault, circuit_open, server_fault,
  provider_fault,
}

pub data Generated : Type 0 where
  generated : RoutingDecision → Completion → Generated
  failed : Fault → Generated
  out_of_fuel : Generated

-- `_next_model`: the model is not pinned, and the failed ones are excluded.
unfoldable pub next_model : World → Query → List String → Routed
next_model w q excluded =
    route w.runtime w.settings.routing (record q { force_model = none }) excluded

abbrev pub count : (Metrics → Metrics) → Service → Service
count f s = record s { metrics = f s.metrics }

-- A call of a method of the breaker of a name, whose object is shared.
unfoldable pub with_breaker : (CircuitBreaker → CircuitBreaker) → String → Service → Service
with_breaker f name s =
    let (r, b) = Registry.get s.breakers name in
    record s { breakers = Registry.mutate r name (f b) }

unfoldable pub breaker_of : Service → String → CircuitBreaker
breaker_of s name = Registry.current s.breakers name

-- How one pass of the loop body ends, before the failover.
pub data Attempt : Type 0 where
  success : Completion → Attempt
  failure : Fault → Attempt
  propagates : Error → Attempt

-- The call of the model, and what its outcome does to the breaker. An exception that is no server
-- fault passes the handler, and the breaker hears nothing.
unfoldable pub call_model : World → ℕ → Service → RoutingDecision → Query → Service × Attempt
call_model w n s d q = elim (w.generate d.model q.prompt d.projected_output_tokens) [
  | completes c ↦ (with_breaker record_success d.model.name (w.during_call n s), success c)
  | faults f ↦ (
    with_breaker (λ b. record_failure b (w.outcome_at n)) d.model.name (w.during_call n s),
    failure (server_fault f),
  )
  | rejects e ↦ (w.during_call n s, propagates e)
]

-- `if breaker.allows(): … else: …`
unfoldable pub attempt : World → ℕ → Service → RoutingDecision → Query → Service × Attempt
attempt w n s d q =
    let asked = with_breaker (λ b. (allows b (w.allows_at n)).0) d.model.name s in
    if (allows (breaker_of s d.model.name) (w.allows_at n)).1 then call_model w n asked d q else (
      count request_circuit_rejected asked,
      failure (
          circuit_open (record {
            name = d.model.name;
            retry_after_s = retry_after (breaker_of asked d.model.name) (w.retry_at n);
          })),
    )

abbrev pub is_pinned : Query → Bool
is_pinned q = elim (pinned q.force_model) [ none ↦ false | some _ ↦ true ]

-- The rest of a pass of the loop: it returns, raises, or goes on with the next model.
unfoldable pub after_attempt :
    World
    → Query
    → List String
    → RoutingDecision
    → (Service → RoutingDecision → Service × Generated)
    → Service × Attempt
    → Service × Generated
after_attempt w q excluded current next (s, success c) = (s, generated current c)
after_attempt w q excluded current next (s, propagates e) = (s, failed (provider_fault e))
after_attempt w q excluded current next (s, failure last_error) =
    if not w.settings.fallback_enabled || is_pinned q
    then (s, failed last_error)
    else elim (next_model w q (current.model.name ∷ excluded)) [
      | refused _ ↦ (s, failed last_error)
      | routed d ↦ next (count request_failover s) d
    ]

-- `_generate_with_failover`
unfoldable pub generate :
    World → Query → ℕ → Service → List String → RoutingDecision → Service × Generated
unfolding after_attempt
generate w q zero s excluded current = (s, out_of_fuel)
generate w q (suc fuel) s excluded current =
    after_attempt w q excluded current
      (λ s' d. generate w q fuel s' (current.model.name ∷ excluded) d) (attempt w fuel s current q)

-- What holds of the answer to a pass, if it holds of each way in which the pass can end.
pub after_attempt-rule :
    (P : Service × Generated → Type 0) (w : World) (q : Query) (excluded : List String)
    (current : RoutingDecision) (next : Service → RoutingDecision → Service × Generated)
    (x : Service × Attempt)
    → ((c : Completion) → P (x.0, generated current c))
    → ((f : Fault) → P (x.0, failed f))
    → ((d : RoutingDecision)
        → next_model w q (current.model.name ∷ excluded) ≡ routed d
        → P (next (count request_failover x.0) d))
    → P (after_attempt w q excluded current next x)
unfolding after_attempt
after_attempt-rule P w q excluded current next (s, success c) done stop go = done c
after_attempt-rule P w q excluded current next (s, propagates e) done stop go =
    stop (provider_fault e)
after_attempt-rule P w q excluded current next (s, failure f) done stop go =
    elim (Bool-cases (not w.settings.fallback_enabled || is_pinned q)) [
      | inl ends ↦ rw ends (stop f)
      | inr goes ↦ rw goes (routed-rule (next_model w q (current.model.name ∷ excluded)) refl)
    ]
  where
    routed-rule :
        (r : Routed)
        → next_model w q (current.model.name ∷ excluded) ≡ r
        → P (elim r [ refused _ ↦ (s, failed f) | routed d ↦ next (count request_failover s) d ])
    routed-rule (refused e) h = stop f
    routed-rule (routed d) h = go d h
