-- ===== src/Metrics/Snapshot.antt =====
-- app/metrics.py: what the counters are shown as.
use Prim.Native.String.{◌++◌ as ◌<>◌}
use llm_inference_autoscalin.Base.{ℕ, String, List, [], ◌∷◌, round_div}
use llm_inference_autoscalin.Metrics.{Metrics, cache_hit_rate}

-- `snapshot`, in its order: the cost in micro-dollars, the rate in ten-thousandths.
unfoldable pub snapshot : Metrics → List (String × ℕ)
snapshot m =
    ("in_flight", m.in_flight)
    ∷ ("queue_depth", m.queue_depth)
    ∷ ("total_requests", m.total_requests)
    ∷ ("total_rejected", m.total_rejected)
    ∷ ("total_downgraded", m.total_downgraded)
    ∷ ("total_input_tokens", m.total_input_tokens)
    ∷ ("total_output_tokens", m.total_output_tokens)
    ∷ ("total_cost_usd", round_div m.total_cost 1000000)
    ∷ ("total_cache_hits", m.total_cache_hits)
    ∷ ("total_cache_misses", m.total_cache_misses)
    ∷ ("cache_hit_rate", cache_hit_rate m)
    ∷ ("total_rate_limited", m.total_rate_limited)
    ∷ ("total_shed", m.total_shed)
    ∷ ("total_circuit_rejected", m.total_circuit_rejected)
    ∷ ("total_failovers", m.total_failovers)
    ∷ []

-- The lines of `prometheus`; `show` writes the value of a key.
unfoldable pub gauges : (String → ℕ → String) → List (String × ℕ) → List String
gauges show [] = []
gauges show ((key, value) ∷ rest) =
    ("# TYPE llm_" <> key <> " gauge") ∷ ("llm_" <> key <> " " <> show key value) ∷ gauges show rest

unfoldable pub prometheus : (String → ℕ → String) → Metrics → List String
prometheus show m = gauges show (snapshot m)
