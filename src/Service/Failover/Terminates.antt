-- ===== src/Service/Failover/Terminates.antt =====
-- app/service.py: the failover loop ends, and what it serves is on offer and within the budget.
use llm_inference_autoscalin.Base.{
  ℕ, zero, suc, ◌≤◌, ◌<◌, String, ◌≡◌, sym, ◌≢◌, inl, inr, false, not, none, List, [], ◌∷◌, arith,
  eq_refl, length, filter,
}
use llm_inference_autoscalin.Base.{In}
use mathlib.Core.Path.{subst}
use llm_inference_autoscalin.Config.{ModelSpec}
use llm_inference_autoscalin.Router.{
  RoutingSettings, RoutingDecision, Query, routed, member, project,
}
use llm_inference_autoscalin.Router.Sound.{OnOffer, IsAffordable, route-IsAffordable}
use llm_inference_autoscalin.Metrics.{request_failover}
use llm_inference_autoscalin.Service.State.{Service, World}
use llm_inference_autoscalin.Service.Failover.{
  Generated, generated, failed, out_of_fuel, next_model, count, attempt, generate,
  after_attempt-rule,
}

-- How many models of the catalog are not excluded.
abbrev pub left : RoutingSettings → List String → ℕ
left s excluded = length (filter (λ m. not (member m.name excluded)) s.catalog)

left-le :
    (ms : List ModelSpec) (name : String) (excluded : List String)
    → length (filter (λ m. not (member m.name (name ∷ excluded))) ms)
      ≤ length (filter (λ m. not (member m.name excluded)) ms)
left-le [] name excluded = omega arith
left-le (m ∷ ms) name excluded = ground (arith, left-le ms name excluded)

abbrev Fewer : List ModelSpec → ModelSpec → List String → Type 0
Fewer ms m excluded =
    length (filter (λ x. not (member x.name (m.name ∷ excluded))) ms)
    < length (filter (λ x. not (member x.name excluded)) ms)

left-here :
    (x : ModelSpec) (ms : List ModelSpec) (excluded : List String)
    → member x.name excluded ≡ false
    → Fewer (x ∷ ms) x excluded
left-here x ms excluded e = rw (eq_refl x.name) (rw e (omega (arith, left-le ms x.name excluded)))

-- Excluding a model on offer leaves fewer.
left-lt :
    (ms : List ModelSpec) (m : ModelSpec) (excluded : List String)
    → In m ms
    → member m.name excluded ≡ false
    → Fewer ms m excluded
left-lt [] m excluded i e = absurd i
left-lt (x ∷ ms) m excluded (inl p) e =
    subst (λ y. Fewer (x ∷ ms) y excluded) (sym p)
      (left-here x ms excluded (subst (λ y. member y.name excluded ≡ false) p e))
left-lt (x ∷ ms) m excluded (inr i) e = ground (arith, left-lt ms m excluded i e)

-- The query without its pinned model, by which the next model is routed.
abbrev unpinned : Query → Query
unpinned q = record q { force_model = none }

next-OnOffer :
    (w : World) (q : Query) (excluded : List String) {d : RoutingDecision}
    → next_model w q excluded ≡ routed d
    → OnOffer w.settings.routing excluded d.model
      × IsAffordable (project w.runtime w.settings.routing (unpinned q)) d
unfolding next_model
next-OnOffer w q excluded e =
    route-IsAffordable w.runtime w.settings.routing (unpinned q) excluded e

-- The loop ends. From a model on offer, and with more fuel than models that are not excluded, it
-- never runs out, whatever the models answer, the breakers do and other requests change meanwhile.
pub generate-ends :
    (w : World) (q : Query) (fuel : ℕ) (s : Service) (excluded : List String) (d : RoutingDecision)
    → OnOffer w.settings.routing excluded d.model
    → left w.settings.routing excluded < fuel
    → (generate w q fuel s excluded d).1 ≢ out_of_fuel
unfolding generate
generate-ends w q zero s excluded d o lt = absurd (omega arith)
generate-ends w q (suc fuel) s excluded d o lt =
    after_attempt-rule (λ r. r.1 ≢ out_of_fuel) w q excluded d
      (λ s' x. generate w q fuel s' (d.model.name ∷ excluded) x) (attempt w fuel s d q)
      (λ c e. absurd (cc e)) (λ f e. absurd (cc e))
      (λ d' e.
        generate-ends w q fuel (count request_failover (attempt w fuel s d q).0)
          (d.model.name ∷ excluded) d' (next-OnOffer w q (d.model.name ∷ excluded) e).0
          (omega (arith, left-lt w.settings.routing.catalog d.model excluded o.0 o.1)))

-- What is so of the decision that an answer served, if it served one.
abbrev pub Served : (RoutingDecision → Type 0) → Generated → Type 0
Served P (generated d c) = P d
Served P (failed f) = Unit
Served P out_of_fuel = Unit

-- Failover keeps the promise of routing: from a decision that is affordable for the request, the
-- decision that is finally served is affordable for the same projection and budget.
pub generate-IsAffordable :
    (w : World) (q : Query) (fuel : ℕ) (s : Service) (excluded : List String) (d : RoutingDecision)
    → IsAffordable (project w.runtime w.settings.routing q) d
    → Served
        (IsAffordable (project w.runtime w.settings.routing q))
        (generate w q fuel s excluded d).1
unfolding generate
generate-IsAffordable w q zero s excluded d a = tt
generate-IsAffordable w q (suc fuel) s excluded d a =
    after_attempt-rule (λ r. Served (IsAffordable (project w.runtime w.settings.routing q)) r.1) w q
      excluded d (λ s' x. generate w q fuel s' (d.model.name ∷ excluded) x) (attempt w fuel s d q)
      (λ c. a) (λ f. tt)
      (λ d' e.
        generate-IsAffordable w q fuel (count request_failover (attempt w fuel s d q).0)
          (d.model.name ∷ excluded) d'
          (unfold project in (next-OnOffer w q (d.model.name ∷ excluded) e).1))
