-- ===== src/Router/Primary.antt =====
-- app/router.py: why a request that pins no model gets the answer it gets.
use llm_inference_autoscalin.Base.{
  ℕ, ◌+◌, ◌≤◌, ◌<◌, String, ◌≡◌, refl, sym, ◌∙◌, ◌⊎◌, inl, inr, Bool, true, false, Option, none,
  some, List, [], ◌∷◌, arith, leb, leb→le, Bool-cases, Option-cases, filter, All,
}
use llm_inference_autoscalin.Base.{In, All-of_In, All-filter, All-filter_inv, All-map, some_inj}
use mathlib.Core.Path.{subst}
use llm_inference_autoscalin.Tokens.{TextRuntime}
use llm_inference_autoscalin.Config.{Complexity, rank, ModelSpec, cost}
use llm_inference_autoscalin.Router.Sort.{
  nominal, sort_by_price, All-sort, All-sort_inv, sort-IsSorted, IsSorted,
}
use llm_inference_autoscalin.Router.Sound.{downgrade-All, downgrade-hit, downgrade-next}
use llm_inference_autoscalin.Router.{
  RoutingSettings, Query, Routed, routed, refused, Projection, budget_exceeded, context_too_large,
  no_model_available, unknown_model, no_model_for_tier, fits_context, is_eligible, downgrade,
  route_from, route_capable, capable_models, all_models_by_price, route_among, pinned, project,
  available, route,
}

-- A cheapest model, by the nominal price, of those that the tier asks for.
pub record IsCheapest (ms : List ModelSpec) (tier : Complexity) (f : ModelSpec) : Type 0 where
  pub on_offer : In f ms
  pub capable : rank tier ≤ rank f.tier
  pub least : All (λ m. (rank m.tier < rank tier) ⊎ (nominal f ≤ nominal m)) ms

-- A model that is no cheaper than the limit, too small, or too dear for the budget.
abbrev pub NoUse : Projection → ℕ → ModelSpec → Type 0
NoUse p limit m =
    (limit ≤ nominal m)
    ⊎ (m.max_context_tokens < p.input + p.output)
    ⊎ (p.budget < cost m p.input p.output)

-- The budget forced a switch from `f` to the cheapest of the cheaper models that fit.
pub record IsDowngrade (ms : List ModelSpec) (p : Projection) (m f : ModelSpec) : Type 0 where
  pub primary : IsCheapest ms p.result.tier f
  pub too_dear : p.budget < cost f p.input p.output
  pub cheaper : nominal m < nominal f
  pub on_offer : In m ms
  pub fits : p.input + p.output ≤ m.max_context_tokens
  pub affordable : cost m p.input p.output ≤ p.budget
  pub cheapest : All (NoUse p (nominal m)) ms

-- No model within the budget is cheaper than `f` and fits.
pub record IsExceeded (ms : List ModelSpec) (p : Projection) (c b : ℕ) (f : ModelSpec)
    : Type 0 where
  pub primary : IsCheapest ms p.result.tier f
  pub projected : c ≡ cost f p.input p.output
  pub budget : b ≡ p.budget
  pub too_dear : b < c
  pub none_fits : All (NoUse p (nominal f)) ms

abbrev pub Choice : List ModelSpec → Projection → ModelSpec → Bool → Type 0
Choice ms p m true = (f : ModelSpec) × IsDowngrade ms p m f
Choice ms p m false = IsCheapest ms p.result.tier m

-- What an answer means, by its kind.
abbrev pub Explained : List ModelSpec → Projection → Routed → Type 0
Explained ms p (routed d) = Choice ms p d.model d.downgraded
Explained ms p (refused (budget_exceeded c b)) = (f : ModelSpec) × IsExceeded ms p c b f
Explained ms p (refused context_too_large) =
    (f : ModelSpec) × IsCheapest ms p.result.tier f × (f.max_context_tokens < p.input + p.output)
Explained ms p (refused no_model_available) = ms ≡ []
Explained ms p (refused (unknown_model name)) = ⊥
Explained ms p (refused (no_model_for_tier t)) = All (λ m. rank m.tier < rank t) ms

no_use :
    (p : Projection) (first m : ModelSpec)
    → is_eligible p first m ≡ false
    → NoUse p (nominal first) m
no_use p first m h = ground arith

cheaper :
    (p : Projection) (first m : ModelSpec)
    → is_eligible p first m ≡ true
    → nominal m < nominal first
cheaper p first m h = ground arith

NoUse-mono : (p : Projection) (a b : ℕ) (m : ModelSpec) → a ≤ b → NoUse p b m → NoUse p a m
NoUse-mono p a b m h (inl k) = inl (omega arith)
NoUse-mono p a b m h (inr k) = inr k

below :
    (tier : Complexity) (m : ModelSpec) (price : ℕ)
    → (leb (rank tier) (rank m.tier) ≡ false) ⊎ (price ≤ nominal m)
    → (rank m.tier < rank tier) ⊎ (price ≤ nominal m)
below tier m price (inl h) = inl (ground arith)
below tier m price (inr h) = inr h

too_low :
    (tier : Complexity) (m : ModelSpec)
    → (leb (rank tier) (rank m.tier) ≡ false) ⊎ ⊥
    → rank m.tier < rank tier
too_low tier m (inl h) = ground arith
too_low tier m (inr h) = absurd h

downgrade-none :
    (p : Projection) (first : ModelSpec) (ms : List ModelSpec)
    → downgrade p first ms ≡ none
    → All (NoUse p (nominal first)) ms
unfolding downgrade
downgrade-none p first [] e = tt
downgrade-none p first (m ∷ ms) e = elim (Bool-cases (is_eligible p first m)) [
  | inl fits ↦ absurd (cc (sym (downgrade-hit p first m ms fits) ∙ e))
  | inr fails ↦ (
    no_use p first m fails,
    downgrade-none p first ms (sym (downgrade-next p first m ms fails) ∙ e),
  )
]

-- In a sorted list the first that passes is a cheapest that passes.
downgrade-some :
    (p : Projection) (first : ModelSpec) (ms : List ModelSpec) {m : ModelSpec}
    → IsSorted ms
    → downgrade p first ms ≡ some m
    → (nominal m < nominal first) × All (NoUse p (nominal m)) ms
unfolding downgrade
downgrade-some p first [] s e = absurd (cc)
downgrade-some p first (n ∷ ms) s e = elim (Bool-cases (is_eligible p first n)) [
  | inl fits ↦
      subst (λ m. (nominal m < nominal first) × All (NoUse p (nominal m)) (n ∷ ms))
        (some_inj (sym (downgrade-hit p first n ms fits) ∙ e))
        (cheaper p first n fits, (inl (omega arith), All-map _ _ ms (λ m h. inl h) s.0))
  | inr fails ↦
      let (lt, rest) =
        downgrade-some p first ms s.1 (sym (downgrade-next p first n ms fails) ∙ e) in
      (lt, (NoUse-mono p _ _ n (omega arith) (no_use p first n fails), rest))
]

capable_models-IsCheapest :
    (ms : List ModelSpec) (tier : Complexity) {f : ModelSpec} {rest : List ModelSpec}
    → capable_models ms tier ≡ f ∷ rest
    → IsCheapest ms tier f
unfolding capable_models
capable_models-IsCheapest ms tier {f} {rest} e =
    let picked = λ (m : ModelSpec). leb (rank tier) (rank m.tier) in
    let sorted = subst IsSorted e (sort-IsSorted (filter picked ms)) in
    let dear : All (λ m. nominal f ≤ nominal m) (f ∷ rest) = (omega arith, sorted.0) in
    let Good = λ (m : ModelSpec). In m ms × (picked m ≡ true) in
    let good =
      subst (All Good) e
        (All-sort Good _ (All-filter (λ m. In m ms) picked ms (All-of_In _ ms (λ m h. h)))) in
    let all_dear =
      All-sort_inv (λ m. nominal f ≤ nominal m) _
        (subst (All (λ m. nominal f ≤ nominal m)) (sym e) dear) in
    record {
      on_offer = good.0.0;
      capable = leb→le _ _ good.0.1;
      least =
          All-map _ _ ms (λ m h. below tier m (nominal f) h)
            (All-filter_inv (λ m. nominal f ≤ nominal m) picked ms all_dear);
    }

capable_models-none :
    (ms : List ModelSpec) (tier : Complexity)
    → capable_models ms tier ≡ []
    → All (λ m. rank m.tier < rank tier) ms
unfolding capable_models
capable_models-none ms tier e =
    All-map _ _ ms (λ m h. too_low tier m h)
      (All-filter_inv (λ m. ⊥) (λ m. leb (rank tier) (rank m.tier)) ms
        (All-sort_inv (λ m. ⊥) _ (subst (All (λ m. ⊥)) (sym e) tt)))

route_from-Explained :
    (ms : List ModelSpec) (p : Projection) (first : ModelSpec)
    → IsCheapest ms p.result.tier first
    → Explained ms p (route_from ms p first)
unfolding route_from all_models_by_price
route_from-Explained ms p first c = elim (Bool-cases (fits_context first p.input p.output)) [
  | inr small ↦ rw (small, route_from) (first, c, ground arith)
  | inl fits ↦ elim (Bool-cases (leb (cost first p.input p.output) p.budget)) [
    | inl enough ↦ rw (fits, route_from) (rw (enough, route_from) c)
    | inr dear ↦ elim (Option-cases (downgrade p first (sort_by_price ms))) [
      | inl nothing ↦
          rw (fits, route_from)
            (rw (dear, route_from)
              (rw (nothing, route_from)
                (
                  first,
                  record {
                    primary = c;
                    projected = refl;
                    budget = refl;
                    too_dear = ground arith;
                    none_fits =
                        All-sort_inv _ ms (downgrade-none p first (sort_by_price ms) nothing);
                  },
                )))
      | inr (m, found) ↦
          let (lt, useless) = downgrade-some p first (sort_by_price ms) (sort-IsSorted ms) found in
          let (there, passes) =
            downgrade-All (λ m. In m ms) p first (sort_by_price ms)
              (All-sort (λ m. In m ms) ms (All-of_In _ ms (λ m h. h))) found in
          rw (fits, route_from)
            (rw (dear, route_from)
              (rw (found, route_from)
                (
                  first,
                  record {
                    primary = c;
                    too_dear = ground arith;
                    cheaper = lt;
                    on_offer = there;
                    fits = ground (arith, passes);
                    affordable = ground (arith, passes);
                    cheapest = All-sort_inv _ ms useless;
                  },
                )))
    ]
  ]
]

route_capable-Explained :
    (ms : List ModelSpec) (p : Projection) (capable : List ModelSpec)
    → capable_models ms p.result.tier ≡ capable
    → Explained ms p (route_capable ms p capable)
unfolding route_capable
route_capable-Explained ms p [] e = capable_models-none ms p.result.tier e
route_capable-Explained ms p (first ∷ rest) e =
    route_from-Explained ms p first (capable_models-IsCheapest ms p.result.tier e)

route_among-Explained :
    (ms : List ModelSpec) (p : Projection) (force : Option String)
    → pinned force ≡ none
    → Explained ms p (route_among ms p force)
unfolding route_among
route_among-Explained [] p force free = refl
route_among-Explained (m ∷ ms) p force free =
    rw (free, route_among) (route_capable-Explained (m ∷ ms) p _ refl)

-- Every answer to a request that pins no model is explained by the models that are not excluded.
-- A decision that is not a downgrade is a cheapest model of the tier or above; a downgrade is
-- cheaper than that model, which is over the budget, fits the context and the budget, and is a
-- cheapest model that does; a budget error means that no cheaper model fits both; a context error
-- means that the cheapest capable model is too small; the other two errors, that no model is left
-- and that none reaches the tier. An unknown model is never reported.
pub route-Explained :
    (rt : TextRuntime) (s : RoutingSettings) (q : Query) (exclude : List String)
    → pinned q.force_model ≡ none
    → Explained (available s exclude) (project rt s q) (route rt s q exclude)
unfolding route
route-Explained rt s q exclude free =
    route_among-Explained (available s exclude) (project rt s q) q.force_model free
