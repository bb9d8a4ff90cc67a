-- ===== src/Router/Pinned.antt =====
-- app/router.py: a pinned model, and the prompts that the default catalog turns away.
use llm_inference_autoscalin.Base.{
  ◌+◌, ◌≤◌, ◌<◌, String, ◌≡◌, refl, inl, inr, true, false, Option, none, some, List, [], ◌∷◌, arith,
  le→leb, lt→not_leb, Option-cases, All, lookup,
}
use mathlib.Core.Path.{subst}
use llm_inference_autoscalin.Base.{In}
use llm_inference_autoscalin.Tokens.{TextRuntime}
use llm_inference_autoscalin.Config.{simple, ModelSpec, cost, small, medium, large, default_catalog}
use llm_inference_autoscalin.Complexity.{explicit_tier, or_zero}
use llm_inference_autoscalin.Complexity.Keywords.{contains_text}
use llm_inference_autoscalin.Complexity.Tiers.{reasoning_count, tier-long}
use llm_inference_autoscalin.Router.Sort.{sort_by_price, insert_by_price, nominal}
use llm_inference_autoscalin.Router.Sound.{lookup-by_name}
use llm_inference_autoscalin.Router.{
  RoutingSettings, Query, RoutingDecision, Routed, routed, refused, Projection, context_too_large,
  by_name, fits_context, route_from, route_forced, route_capable, capable_models, route_among,
  pinned, project, available, route,
}

-- What a forced route can be: the model of that name, or an error.
abbrev Pinned : String → Routed → Type 0
Pinned name (routed d) = (d.model.name ≡ name) × (d.downgraded ≡ false)
Pinned name (refused e) = Unit

route_forced-Pinned :
    (ms : List ModelSpec) (p : Projection) (name : String) → Pinned name (route_forced ms p name)
unfolding route_forced
route_forced-Pinned ms p name = elim (Option-cases (lookup name (by_name ms))) [
  | inl missing ↦ rw (missing, route_forced) tt
  | inr (m, found) ↦
      let (_, e) = lookup-by_name (λ m. Unit {0}) name ms (all_unit ms) found in
      rw (found, route_forced) (ground (arith, e))
]
  where
    all_unit : (ms : List ModelSpec) → All (λ m. Unit {0}) ms
    all_unit [] = tt
    all_unit (m ∷ ms) = (tt, all_unit ms)

route_among-Pinned :
    (ms : List ModelSpec) (p : Projection) (force : Option String) {name : String}
    → pinned force ≡ some name
    → Pinned name (route_among ms p force)
unfolding route_among
route_among-Pinned [] p force e = tt
route_among-Pinned (m ∷ ms) p force {name} e =
    rw (e, route_among) (route_forced-Pinned (m ∷ ms) p name)

-- A pinned model is never replaced: a decision for a request that pins a model has a model of
-- that name, and is no downgrade.
pub route-pinned :
    (rt : TextRuntime) (s : RoutingSettings) (q : Query) (exclude : List String) {name : String}
    {d : RoutingDecision}
    → pinned q.force_model ≡ some name
    → route rt s q exclude ≡ routed d
    → (d.model.name ≡ name) × (d.downgraded ≡ false)
unfolding route
route-pinned rt s q exclude {name} e f =
    subst (Pinned name) f
      (route_among-Pinned (available s exclude) (project rt s q) q.force_model e)

capable-default : capable_models default_catalog simple ≡ small ∷ medium ∷ large ∷ []
unfolding capable_models sort_by_price insert_by_price nominal cost
capable-default = refl

available-all :
    (s : RoutingSettings) → s.catalog ≡ default_catalog → available s [] ≡ default_catalog
unfolding available
available-all s e = rw e

among-long :
    (p : Projection) (force : Option String)
    → pinned force ≡ none
    → p.result.tier ≡ simple
    → 16000 < p.input + p.output
    → route_among default_catalog p force ≡ refused context_too_large
unfolding route_among route_capable route_from
among-long p force free tier long =
    rw (free, route_among)
      (rw (tier, capable-default) (rw (lt→not_leb (p.input + p.output) 16000 long, route_from)))

project-simple :
    (rt : TextRuntime) (s : RoutingSettings) (q : Query)
    → explicit_tier rt q.task_type ≡ none
    → contains_text "```" q.prompt ≡ false
    → reasoning_count rt q.prompt ≡ 0
    → or_zero q.max_output_tokens ≡ 0
    → (project rt s q).result.tier ≡ simple
unfolding project
project-simple rt s q heuristic code reasoning out =
    tier-long rt q.prompt q.task_type q.max_output_tokens s.chars_per_token heuristic code reasoning
      out

-- A long plain prompt is turned away although two models of the default catalog could hold it.
-- With no pinned model, explicit task type, code block, reasoning keyword or requested length, more
-- than 16,000 projected tokens are a context error, and up to 200,000 of them `medium` has room for
-- them.
pub route-refuses_long :
    (rt : TextRuntime) (s : RoutingSettings) (q : Query)
    → s.catalog ≡ default_catalog
    → pinned q.force_model ≡ none
    → explicit_tier rt q.task_type ≡ none
    → contains_text "```" q.prompt ≡ false
    → reasoning_count rt q.prompt ≡ 0
    → or_zero q.max_output_tokens ≡ 0
    → 16000 < (project rt s q).input + (project rt s q).output
    → (project rt s q).input + (project rt s q).output ≤ 200000
    → (route rt s q [] ≡ refused context_too_large)
      × In medium s.catalog
      × (fits_context medium (project rt s q).input (project rt s q).output ≡ true)
unfolding route
route-refuses_long rt s q catalog free heuristic code reasoning out long room = (
  rw (available-all s catalog) (
      among-long (project rt s q) q.force_model free
        (project-simple rt s q heuristic code reasoning out) long),
  rw catalog (inr (inl refl)),
  le→leb _ _ room,
)
