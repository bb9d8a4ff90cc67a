-- ===== src/Router.antt =====
-- app/router.py: routing a prompt to a model under a budget. Money is in pico-dollars. The
-- strings of `notes` are kept by kind.
pub mod Sort
pub mod Sound
pub mod Primary
pub mod Pinned
use llm_inference_autoscalin.Base.{
  ℕ, ◌+◌, String, Bool, true, false, not, ◌&&◌, ◌||◌, Option, none, some, List, [], ◌∷◌, ltb, leb,
  ◌==◌, if◌then◌else◌, filter, Dict, lookup, insert,
}
use llm_inference_autoscalin.Tokens.{TextRuntime, count_tokens, estimate_output_tokens}
use llm_inference_autoscalin.Config.{Complexity, rank, ModelSpec, cost}
use llm_inference_autoscalin.Complexity.{ComplexityResult, estimate_complexity}
use llm_inference_autoscalin.Router.Sort.{nominal, sort_by_price}

-- The fields of `Settings` that routing reads.
pub record RoutingSettings : Type 0 where
  pub default_request_budget : ℕ
  pub chars_per_token : ℕ
  pub default_max_output_tokens : ℕ
  pub catalog : List ModelSpec

-- The arguments of `route` that come from the request.
pub record Query : Type 0 where
  pub prompt : String
  pub task_type : Option String
  pub max_output_tokens : Option ℕ
  pub budget : Option ℕ
  pub force_model : Option String

pub data RouteError : Type 0 where
  -- `BudgetExceededError(projected_cost, budget)`
  budget_exceeded : ℕ → ℕ → RouteError
  context_too_large : RouteError
  no_model_available : RouteError
  -- the two ValueErrors
  unknown_model : String → RouteError
  no_model_for_tier : Complexity → RouteError

pub data Note : Type 0 where
  forced : String → Note
  primary : Complexity → String → ℕ → Note
  over_budget : ℕ → ℕ → Note
  downgraded_to : String → ℕ → Note
  from_cache : Note

pub record RoutingDecision : Type 0 where
  pub model : ModelSpec
  pub complexity : ComplexityResult
  pub input_tokens : ℕ
  pub projected_output_tokens : ℕ
  pub projected_cost : ℕ
  pub downgraded : Bool
  pub notes : List Note

pub data Routed : Type 0 where
  routed : RoutingDecision → Routed
  refused : RouteError → Routed

abbrev pub member : String → List String → Bool
member x [] = false
member x (y ∷ ys) = (x == y) || member x ys

-- `input_tokens + output_tokens > model.max_context_tokens`, negated: `_check_context` returns.
abbrev pub fits_context : ModelSpec → ℕ → ℕ → Bool
fits_context m input output = leb (input + output) m.max_context_tokens

unfoldable pub capable_models : List ModelSpec → Complexity → List ModelSpec
capable_models catalog tier = sort_by_price (filter (λ m. leb (rank tier) (rank m.tier)) catalog)

unfoldable pub all_models_by_price : List ModelSpec → List ModelSpec
all_models_by_price catalog = sort_by_price catalog

-- `{m.name: m for m in catalog}`, where the last model of a name stays.
unfoldable pub by_name_from : Dict ModelSpec → List ModelSpec → Dict ModelSpec
by_name_from d [] = d
by_name_from d (m ∷ ms) = by_name_from (insert m.name m d) ms

abbrev pub by_name : List ModelSpec → Dict ModelSpec
by_name = by_name_from []

-- What `route` has computed when it chooses.
pub record Projection : Type 0 where
  pub result : ComplexityResult
  pub input : ℕ
  pub output : ℕ
  pub budget : ℕ

abbrev pub decision : Projection → ModelSpec → Bool → List Note → RoutingDecision
decision p m down notes = record {
  model = m;
  complexity = p.result;
  input_tokens = p.input;
  projected_output_tokens = p.output;
  projected_cost = cost m p.input p.output;
  downgraded = down;
  notes = notes;
}

-- The forced path.
unfoldable pub route_forced : List ModelSpec → Projection → String → Routed
route_forced catalog p name = elim (lookup name (by_name catalog)) [
  | none ↦ refused (unknown_model name)
  | some chosen ↦
      if fits_context chosen p.input p.output
      then if ltb p.budget (cost chosen p.input p.output)
        then refused (budget_exceeded (cost chosen p.input p.output) p.budget)
        else routed (decision p chosen false (forced name ∷ []))
      else refused context_too_large
]

-- The three tests of the loop of step 2 that let a candidate through.
abbrev pub is_eligible : Projection → ModelSpec → ModelSpec → Bool
is_eligible p first candidate =
    ltb (nominal candidate) (nominal first)
    && (fits_context candidate p.input p.output && leb (cost candidate p.input p.output) p.budget)

-- Step 2, the loop over the models by price.
unfoldable pub downgrade : Projection → ModelSpec → List ModelSpec → Option ModelSpec
downgrade p first [] = none
downgrade p first (m ∷ ms) = if is_eligible p first m then some m else downgrade p first ms

-- Steps 1 and 2, with the cheapest capable model at hand.
unfoldable pub route_from : List ModelSpec → Projection → ModelSpec → Routed
route_from catalog p first =
    let primary_cost = cost first p.input p.output in
    let note = primary p.result.tier first.name primary_cost in
    if fits_context first p.input p.output
    then if leb primary_cost p.budget
      then routed (decision p first false (note ∷ []))
      else elim (downgrade p first (all_models_by_price catalog)) [
        | some m ↦ routed (
            decision p m true (
              note
              ∷ over_budget primary_cost p.budget
              ∷ downgraded_to m.name (cost m p.input p.output)
              ∷ []))
        | none ↦ refused (budget_exceeded primary_cost p.budget)
      ]
    else refused context_too_large

unfoldable pub route_capable : List ModelSpec → Projection → List ModelSpec → Routed
route_capable catalog p [] = refused (no_model_for_tier p.result.tier)
route_capable catalog p (first ∷ _) = route_from catalog p first

-- `if force_model:`
abbrev pub pinned : Option String → Option String
pinned none = none
pinned (some name) = if name == "" then none else some name

unfoldable pub route_among : List ModelSpec → Projection → Option String → Routed
route_among [] p force = refused no_model_available
route_among (m ∷ ms) p force = elim (pinned force) [
  | some name ↦ route_forced (m ∷ ms) p name
  | none ↦ route_capable (m ∷ ms) p (capable_models (m ∷ ms) p.result.tier)
]

unfoldable pub project : TextRuntime → RoutingSettings → Query → Projection
project rt s q = record {
  result = estimate_complexity rt q.prompt q.task_type q.max_output_tokens s.chars_per_token;
  input = count_tokens rt q.prompt s.chars_per_token;
  output = estimate_output_tokens q.max_output_tokens s.default_max_output_tokens;
  budget = elim q.budget [ some b ↦ b | none ↦ s.default_request_budget ];
}

-- The models that are not excluded.
unfoldable pub available : RoutingSettings → List String → List ModelSpec
available s exclude = filter (λ m. not (member m.name exclude)) s.catalog

unfoldable pub route : TextRuntime → RoutingSettings → Query → List String → Routed
route rt s q exclude = route_among (available s exclude) (project rt s q) q.force_model
