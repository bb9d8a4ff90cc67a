-- ===== src/Metrics.antt =====
-- app/metrics.py: the counters. The lock makes each method one step. Costs are in pico-dollars.
pub mod Snapshot
use llm_inference_autoscalin.Base.{ℕ, ◌+◌, ◌-◌, ◌*◌, Bool, eqb, if◌then◌else◌, round_div}

pub record Metrics : Type 0 where
  pub in_flight : ℕ
  pub queue_depth : ℕ
  pub total_requests : ℕ
  pub total_rejected : ℕ
  pub total_downgraded : ℕ
  pub total_input_tokens : ℕ
  pub total_output_tokens : ℕ
  pub total_cost : ℕ
  pub total_cache_hits : ℕ
  pub total_cache_misses : ℕ
  pub total_rate_limited : ℕ
  pub total_shed : ℕ
  pub total_circuit_rejected : ℕ
  pub total_failovers : ℕ

unfoldable pub request_started : Metrics → Metrics
request_started m = record m { in_flight = m.in_flight + 1; total_requests = m.total_requests + 1 }

unfoldable pub request_finished : ℕ → ℕ → ℕ → Bool → Metrics → Metrics
request_finished input_tokens output_tokens cost downgraded m = record m {
  in_flight = m.in_flight - 1;
  total_input_tokens = m.total_input_tokens + input_tokens;
  total_output_tokens = m.total_output_tokens + output_tokens;
  total_cost = m.total_cost + cost;
  total_downgraded = if downgraded then m.total_downgraded + 1 else m.total_downgraded;
}

unfoldable pub request_rejected : Metrics → Metrics
request_rejected m = record m { total_rejected = m.total_rejected + 1 }

unfoldable pub set_queue_depth : ℕ → Metrics → Metrics
set_queue_depth depth m = record m { queue_depth = depth }

unfoldable pub cache_hit : Metrics → Metrics
cache_hit m = record m {
  total_cache_hits = m.total_cache_hits + 1;
  total_requests = m.total_requests + 1;
}

unfoldable pub cache_miss : Metrics → Metrics
cache_miss m = record m { total_cache_misses = m.total_cache_misses + 1 }

unfoldable pub request_rate_limited : Metrics → Metrics
request_rate_limited m = record m {
  total_rate_limited = m.total_rate_limited + 1;
  total_rejected = m.total_rejected + 1;
}

unfoldable pub request_shed : Metrics → Metrics
request_shed m = record m { total_shed = m.total_shed + 1; total_rejected = m.total_rejected + 1 }

unfoldable pub request_circuit_rejected : Metrics → Metrics
request_circuit_rejected m = record m { total_circuit_rejected = m.total_circuit_rejected + 1 }

unfoldable pub request_failover : Metrics → Metrics
request_failover m = record m { total_failovers = m.total_failovers + 1 }

-- `round(hits / lookups, 4)`, in ten-thousandths; 0 with no lookups.
unfoldable pub cache_hit_rate : Metrics → ℕ
cache_hit_rate m =
    let lookups = m.total_cache_hits + m.total_cache_misses in
    if eqb lookups 0 then 0 else round_div (m.total_cache_hits * 10000) lookups
