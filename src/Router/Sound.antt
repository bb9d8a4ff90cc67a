-- ===== src/Router/Sound.antt =====
-- app/router.py: whatever route is chosen, it is affordable, fits and is on offer.
use llm_inference_autoscalin.Base.{
  ◌+◌, ◌≤◌, String, ◌≡◌, sym, ◌∙◌, inl, inr, true, false, not, Option, some, List, [], ◌∷◌, arith,
  eq_iff, ltb, leb, ◌==◌, if◌then◌else◌, Bool-cases, Option-cases, All, Dict, lookup, insert,
  lookup-insert,
}
use llm_inference_autoscalin.Base.{In}
use mathlib.Core.Path.{subst}
use llm_inference_autoscalin.Base.{some_inj, All-of_In, All-filter, All-map}
use llm_inference_autoscalin.Tokens.{TextRuntime}
use llm_inference_autoscalin.Config.{Complexity, rank, ModelSpec, cost}
use llm_inference_autoscalin.Router.Sort.{sort_by_price, All-sort}
use llm_inference_autoscalin.Router.{
  RoutingSettings, Query, RoutingDecision, Routed, routed, refused, budget_exceeded,
  context_too_large, forced, Projection, decision, fits_context, member, by_name_from, by_name,
  route_forced, is_eligible, downgrade, route_from, route_capable, capable_models,
  all_models_by_price, route_among, pinned, project, available, route,
}

-- What is so of a choice made for a projection.
pub record IsAffordable (p : Projection) (d : RoutingDecision) : Type 0 where
  pub input : d.input_tokens ≡ p.input
  pub output : d.projected_output_tokens ≡ p.output
  pub price : d.projected_cost ≡ cost d.model p.input p.output
  pub within : d.projected_cost ≤ p.budget
  pub context : p.input + p.output ≤ d.model.max_context_tokens

-- A statement about the decision, if there is one.
abbrev pub Holds : (RoutingDecision → Type 0) → Routed → Type 0
Holds P (routed d) = P d
Holds P (refused e) = Unit

pub of_routed :
    (P : RoutingDecision → Type 0) (r : Routed) {d : RoutingDecision}
    → Holds P r
    → r ≡ routed d
    → P d
of_routed P r h e = subst (Holds P) e h

-- Of a choice among these models, `P` being so of each of them.
abbrev Chosen : (ModelSpec → Type 0) → Projection → RoutingDecision → Type 0
Chosen P p d = P d.model × IsAffordable p d

pub downgrade-hit :
    (p : Projection) (first n : ModelSpec) (ms : List ModelSpec)
    → is_eligible p first n ≡ true
    → downgrade p first (n ∷ ms) ≡ some n
unfolding downgrade
downgrade-hit p first n ms e = rw e

pub downgrade-next :
    (p : Projection) (first n : ModelSpec) (ms : List ModelSpec)
    → is_eligible p first n ≡ false
    → downgrade p first (n ∷ ms) ≡ downgrade p first ms
unfolding downgrade
downgrade-next p first n ms e = rw e

module _ (P : ModelSpec → Type 0) where
  lookup-by_name_from :
      (name : String) (ms : List ModelSpec) (d : Dict ModelSpec) {m : ModelSpec}
      → ((k : String) (n : ModelSpec) → lookup k d ≡ some n → P n × (n.name ≡ k))
      → All P ms
      → lookup name (by_name_from d ms) ≡ some m
      → P m × (m.name ≡ name)
  unfolding by_name_from
  lookup-by_name_from name [] d h all e = h name _ e
  lookup-by_name_from name (m ∷ ms) d h all e =
      lookup-by_name_from name ms (insert m.name m d)
        (λ k n f. elim (Bool-cases (m.name == k)) [
          | inl same ↦
              let g = some_inj (rw same at (sym (lookup-insert m.name k m d) ∙ f)) in
              subst (λ x. P x × (x.name ≡ k)) g (all.0, (eq_iff m.name k).0 same)
          | inr other ↦ h k n (rw other at (sym (lookup-insert m.name k m d) ∙ f))
        ])
        all.1 e

  pub lookup-by_name :
      (name : String) (ms : List ModelSpec) {m : ModelSpec}
      → All P ms
      → lookup name (by_name ms) ≡ some m
      → P m × (m.name ≡ name)
  unfolding lookup
  lookup-by_name name ms all e = lookup-by_name_from name ms [] (λ k n f. absurd (cc)) all e

  route_forced-Chosen :
      (ms : List ModelSpec) (p : Projection) (name : String)
      → All P ms
      → Holds (Chosen P p) (route_forced ms p name)
  unfolding route_forced
  route_forced-Chosen ms p name all = elim (Option-cases (lookup name (by_name ms))) [
    | inl missing ↦ rw (missing, route_forced) tt
    | inr (m, found) ↦
        rw (found, route_forced) (chosen_forced m p name (lookup-by_name name ms all found).0)
  ]
    where
      chosen_forced :
          (m : ModelSpec) (p : Projection) (name : String)
          → P m
          → Holds (Chosen P p) (
              if fits_context m p.input p.output
              then if ltb p.budget (cost m p.input p.output)
                then refused (budget_exceeded (cost m p.input p.output) p.budget)
                else routed (decision p m false (forced name ∷ []))
              else refused context_too_large)
      chosen_forced m p name h = ground arith

  pub downgrade-All :
      (p : Projection) (first : ModelSpec) (ms : List ModelSpec) {m : ModelSpec}
      → All P ms
      → downgrade p first ms ≡ some m
      → P m × (is_eligible p first m ≡ true)
  unfolding downgrade
  downgrade-All p first [] all e = absurd (cc)
  downgrade-All p first (n ∷ ms) all e = elim (Bool-cases (is_eligible p first n)) [
    | inl fits ↦
        subst (λ x. P x × (is_eligible p first x ≡ true))
          (some_inj (sym (downgrade-hit p first n ms fits) ∙ e)) (all.0, fits)
    | inr next ↦ downgrade-All p first ms all.1 (sym (downgrade-next p first n ms next) ∙ e)
  ]

  route_from-Chosen :
      (ms : List ModelSpec) (p : Projection) (first : ModelSpec)
      → All P ms
      → P first
      → Holds (Chosen P p) (route_from ms p first)
  unfolding route_from all_models_by_price
  route_from-Chosen ms p first all h = elim (Option-cases (downgrade p first (sort_by_price ms))) [
    | inl nothing ↦ rw (nothing, route_from) (ground arith)
    | inr (m, found) ↦
        let k = downgrade-All p first (sort_by_price ms) (All-sort P ms all) found in
        rw (found, route_from) (ground (arith, k.0, k.1))
  ]

  route_capable-Chosen :
      (ms : List ModelSpec) (p : Projection) (capable : List ModelSpec)
      → All P ms
      → All P capable
      → Holds (Chosen P p) (route_capable ms p capable)
  unfolding route_capable
  route_capable-Chosen ms p [] all h = tt
  route_capable-Chosen ms p (first ∷ rest) all h = route_from-Chosen ms p first all h.0

  capable_models-All :
      (ms : List ModelSpec) (tier : Complexity) → All P ms → All P (capable_models ms tier)
  unfolding capable_models
  capable_models-All ms tier all =
      All-sort P _
        (All-map _ P _ (λ m h. h.0) (All-filter P (λ m. leb (rank tier) (rank m.tier)) ms all))

  route_among-Chosen :
      (ms : List ModelSpec) (p : Projection) (force : Option String)
      → All P ms
      → Holds (Chosen P p) (route_among ms p force)
  unfolding route_among
  route_among-Chosen [] p force all = tt
  route_among-Chosen (m ∷ ms) p force all = elim (Option-cases (pinned force)) [
    | inl free ↦
        rw (free, route_among)
          (route_capable-Chosen (m ∷ ms) p (capable_models (m ∷ ms) p.result.tier) all
            (capable_models-All (m ∷ ms) p.result.tier all))
    | inr (name, given) ↦ rw (given, route_among) (route_forced-Chosen (m ∷ ms) p name all)
  ]

-- A model on offer: in the catalog and not excluded.
abbrev pub OnOffer : RoutingSettings → List String → ModelSpec → Type 0
OnOffer s exclude m = In m s.catalog × (member m.name exclude ≡ false)

available-OnOffer :
    (s : RoutingSettings) (exclude : List String) → All (OnOffer s exclude) (available s exclude)
unfolding available
available-OnOffer s exclude =
    All-map _ (OnOffer s exclude) _ (λ m h. (h.0, ground arith))
      (All-filter (λ m. In m s.catalog) (λ m. not (member m.name exclude)) s.catalog
        (All-of_In (λ m. In m s.catalog) s.catalog (λ m h. h)))

-- Whichever way a request is routed, forced, straight or downgraded, the model is in the catalog
-- and not excluded, the projected tokens fit its context window, and the projected cost is what
-- the model charges for them and is within the request's budget.
pub route-IsAffordable :
    (rt : TextRuntime) (s : RoutingSettings) (q : Query) (exclude : List String)
    {d : RoutingDecision}
    → route rt s q exclude ≡ routed d
    → OnOffer s exclude d.model × IsAffordable (project rt s q) d
unfolding route
route-IsAffordable rt s q exclude e =
    of_routed (Chosen (OnOffer s exclude) (project rt s q)) _
      (route_among-Chosen (OnOffer s exclude) (available s exclude) (project rt s q) q.force_model
        (available-OnOffer s exclude))
      e
