-- ===== src/Service/Failover/Probe.antt =====
-- app/service.py and app/breaker.py: a probe that ends in an exception which is no server fault.
use llm_inference_autoscalin.Errors.{Error}
use llm_inference_autoscalin.Base.{ℕ, suc, ◌+◌, ◌≤◌, String, ◌≡◌, refl, ap, ◌∙◌, List, eq_refl}
use llm_inference_autoscalin.Router.{RoutingDecision, Query}
use llm_inference_autoscalin.Breaker.{CircuitBreaker, open_state, allows}
use llm_inference_autoscalin.Breaker.Life.{count_allowed, count_allowed-half_open, allows-due}
use llm_inference_autoscalin.Breaker.Registry
use llm_inference_autoscalin.Service.State.{Service, World, rejects, provider_fault}
use llm_inference_autoscalin.Service.Failover.{
  failed, with_breaker, breaker_of, call_model, attempt, generate,
}

pub breaker_of-with_breaker :
    (f : CircuitBreaker → CircuitBreaker) (name : String) (s : Service)
    → breaker_of (with_breaker f name s) name ≡ f (breaker_of s name)
unfolding breaker_of with_breaker
breaker_of-with_breaker f name s =
    Registry.current-mutate s.breakers name name (f (Registry.get s.breakers name).1)
    ∙ rw (eq_refl name) (unfold Registry.current in refl)

-- When the one call that an open circuit lets through after its recovery time ends in an exception
-- that is no server fault, and other requests leave the breakers alone during it, the request
-- fails with it, and the circuit then lets none of any later calls through, at whatever times,
-- until an outcome is recorded.
pub generate-lost_probe :
    (w : World) (q : Query) (fuel : ℕ) (s : Service) (excluded : List String) (d : RoutingDecision)
    (ts : List ℕ) {e : Error}
    → (breaker_of s d.model.name).state ≡ open_state
    → (breaker_of s d.model.name).opened_at + (breaker_of s d.model.name).recovery_timeout
      ≤ w.allows_at fuel
    → w.generate d.model q.prompt d.projected_output_tokens ≡ rejects e
    → ((x : Service) → (w.during_call fuel x).breakers ≡ x.breakers)
    → ((generate w q (suc fuel) s excluded d).1 ≡ failed (provider_fault e))
      × (count_allowed (breaker_of (generate w q (suc fuel) s excluded d).0 d.model.name) ts ≡ 0)
unfolding generate attempt call_model breaker_of
generate-lost_probe w q fuel s excluded d ts opened due bad quiet =
    let b = breaker_of s d.model.name in
    let (let_in, half, taken) = allows-due b (w.allows_at fuel) opened due in
    let asked = with_breaker (λ b'. (allows b' (w.allows_at fuel)).0) d.model.name s in
    let same : breaker_of (w.during_call fuel asked) d.model.name
        ≡ (allows b (w.allows_at fuel)).0 =
      ap (λ r. Registry.current r d.model.name) (quiet asked)
      ∙ breaker_of-with_breaker (λ b'. (allows b' (w.allows_at fuel)).0) d.model.name s in
    rw let_in (
      rw (bad, call_model)
        (refl, rw same ((count_allowed-half_open ts (allows b (w.allows_at fuel)).0 half taken).0)))
