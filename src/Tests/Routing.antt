-- ===== src/Tests/Routing.antt =====
-- Tests of app/router.py, app/complexity.py and app/tokens.py.
use llm_inference_autoscalin.Base.{
  ℕ, ◌≡◌, refl, true, false, none, some, [], ◌∷◌, arith, lookup, insert, round_div, ceil_div,
}
use llm_inference_autoscalin.Base.{In}
use llm_inference_autoscalin.Tokens.{
  TextRuntime, ceiling, estimate_output_tokens, count_tokens, heuristic_tokens,
}
use llm_inference_autoscalin.Config.{simple, small, medium, default_catalog, cost}
use llm_inference_autoscalin.Complexity.{
  prompt_tokens, simple_hits, scored, estimate_complexity, explicit_tier, override, blend, bucket,
  score_prompt,
}
use llm_inference_autoscalin.Complexity.Tiers.{tier-code_block}
use llm_inference_autoscalin.Router.{
  Query, RoutingDecision, forced, primary, refused, routed, context_too_large, fits_context,
  available, project, route, capable_models, all_models_by_price, by_name_from, route_forced,
  downgrade, route_from, route_capable, route_among,
}
use llm_inference_autoscalin.Router.Sound.{OnOffer, IsAffordable, route-IsAffordable}
use llm_inference_autoscalin.Router.Primary.{Explained, route-Explained}
use llm_inference_autoscalin.Router.Pinned.{route-refuses_long}
use llm_inference_autoscalin.Complexity.Keywords.{
  strip_prefix, contains_from, contains_text, word_last, word_here, search_word, hits, keyword_hits,
}
use llm_inference_autoscalin.Router.Sort.{nominal, insert_by_price, sort_by_price}
use llm_inference_autoscalin.Tests.Inputs.{runtime, routing_settings, plain}

route-Explained_example :
    Explained
      (available routing_settings ("small" ∷ []))
      (project runtime routing_settings plain)
      (route runtime routing_settings plain ("small" ∷ []))
route-Explained_example = route-Explained runtime routing_settings plain ("small" ∷ []) refl

abbrev pub small_decision : RoutingDecision
small_decision = record {
  model = small;
  complexity = record {
    tier = simple;
    score = 0;
    reasons = prompt_tokens 1 1 ∷ simple_hits ("hello" ∷ []) ∷ scored 0 simple ∷ [];
  };
  input_tokens = 1;
  projected_output_tokens = 384;
  projected_cost = 480250000;
  downgraded = false;
  notes = primary simple "small" 480250000 ∷ [];
}

pub plain-routed : route runtime routing_settings plain [] ≡ routed small_decision
unfolding heuristic_tokens count_tokens ceiling estimate_output_tokens cost override blend bucket
    score_prompt explicit_tier estimate_complexity strip_prefix contains_from contains_text
    word_last word_here search_word hits keyword_hits capable_models all_models_by_price
    by_name_from route_forced downgrade route_from route_capable route_among project available route
    nominal insert_by_price sort_by_price round_div ceil_div lookup insert
plain-routed = refl

route-IsAffordable_example :
    OnOffer routing_settings [] small
    × IsAffordable (project runtime routing_settings plain) small_decision
route-IsAffordable_example = route-IsAffordable runtime routing_settings plain [] plain-routed

abbrev pinning : Query
pinning = record plain { force_model = some "medium" }

abbrev medium_decision : RoutingDecision
medium_decision = record {
  model = medium;
  complexity = small_decision.complexity;
  input_tokens = 1;
  projected_output_tokens = 384;
  projected_cost = 5763000000;
  downgraded = false;
  notes = forced "medium" ∷ [];
}

pinning-routed : route runtime routing_settings pinning [] ≡ routed medium_decision
unfolding heuristic_tokens count_tokens ceiling estimate_output_tokens cost override blend bucket
    score_prompt explicit_tier estimate_complexity strip_prefix contains_from contains_text
    word_last word_here search_word hits keyword_hits capable_models all_models_by_price
    by_name_from route_forced downgrade route_from route_capable route_among project available route
    nominal insert_by_price sort_by_price round_div ceil_div lookup insert
pinning-routed = refl

-- A runtime in which every text counts as many tokens.
abbrev counting : ℕ → TextRuntime
counting n = record runtime { encode = λ _. some n }

route-refuses_long_example :
    (route (counting 20000) routing_settings plain [] ≡ refused context_too_large)
    × In medium default_catalog
    × (fits_context medium
          (project (counting 20000) routing_settings plain).input
          (project (counting 20000) routing_settings plain).output
        ≡ true)
unfolding heuristic_tokens count_tokens ceiling estimate_output_tokens cost override blend bucket
    score_prompt explicit_tier estimate_complexity strip_prefix contains_from contains_text
    word_last word_here search_word hits keyword_hits capable_models all_models_by_price
    by_name_from route_forced downgrade route_from route_capable route_among project available route
    nominal insert_by_price sort_by_price round_div ceil_div lookup insert
route-refuses_long_example =
    route-refuses_long (counting 20000) routing_settings plain refl refl refl refl refl refl
      (omega arith) (omega arith)

tier-code_block_example :
    (estimate_complexity runtime "run ``` x = 1 ```" none none 4000).tier ≡ simple
unfolding heuristic_tokens count_tokens ceiling estimate_output_tokens cost override blend bucket
    score_prompt explicit_tier estimate_complexity strip_prefix contains_from contains_text
    word_last word_here search_word hits keyword_hits capable_models all_models_by_price
    by_name_from route_forced downgrade route_from route_capable route_among project available route
    nominal insert_by_price sort_by_price round_div ceil_div lookup insert
tier-code_block_example =
    tier-code_block runtime "run ``` x = 1 ```" none none 4000 refl refl refl refl (omega arith)
