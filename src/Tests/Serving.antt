-- ===== src/Tests/Serving.antt =====
-- Tests of app/service.py.
use llm_inference_autoscalin.Errors.{provider_error}
use llm_inference_autoscalin.Base.{
  ℕ, ◌+◌, ◌≤◌, String, ◌≡◌, refl, ◌≢◌, inl, true, false, none, some, [], ◌∷◌, arith, ◌==◌,
  if◌then◌else◌, lookup,
}
use llm_inference_autoscalin.Config.{ModelSpec}
use llm_inference_autoscalin.Router.{project}
use llm_inference_autoscalin.Router.Sound.{IsAffordable, route-IsAffordable}
use llm_inference_autoscalin.Breaker.{open_state}
use llm_inference_autoscalin.Breaker.Life.{count_allowed}
use llm_inference_autoscalin.Breaker.Registry
use llm_inference_autoscalin.Ledger.{entries}
use llm_inference_autoscalin.Ledger.Entries.{find}
use llm_inference_autoscalin.Metrics.{Metrics}
use llm_inference_autoscalin.Service.State.{
  ServiceSettings, Service, World, Answer, completes, faults, rejects, timeout, timed_out,
  provider_fault,
}
use llm_inference_autoscalin.Service.Failover.{breaker_of, generate, failed, out_of_fuel}
use llm_inference_autoscalin.Service.Failover.Terminates.{
  generate-ends, Served, generate-IsAffordable,
}
use llm_inference_autoscalin.Service.Failover.Probe.{generate-lost_probe}
use llm_inference_autoscalin.Service.Handle.{Request, handle}
use llm_inference_autoscalin.Service.Handle.Billing.{Bill, handle-Bill}
use llm_inference_autoscalin.Service.Handle.Slot.{Restored}
use llm_inference_autoscalin.Service.Handle.Restored.{handle-Restored}
use llm_inference_autoscalin.Tests.Inputs.{runtime, routing_settings, plain}
use llm_inference_autoscalin.Tests.Routing.{small_decision, plain-routed}

abbrev settings : ServiceSettings
settings = record {
  routing = routing_settings;
  default_user_daily_budget = 25000000000000;
  token = 1;
  admission_timeout = 30;
  cache_ttl = 300;
  fallback_enabled = true;
}

abbrev pub no_metrics : Metrics
no_metrics = record {
  in_flight = 0;
  queue_depth = 0;
  total_requests = 0;
  total_rejected = 0;
  total_downgraded = 0;
  total_input_tokens = 0;
  total_output_tokens = 0;
  total_cost = 0;
  total_cache_hits = 0;
  total_cache_misses = 0;
  total_rate_limited = 0;
  total_shed = 0;
  total_circuit_rejected = 0;
  total_failovers = 0;
}

abbrev pub service : Service
service = record {
  rate_limiter = some (record { capacity = 20; refill_rate = 5; buckets = [] });
  cache = some (record { max_entries = 10; items = []; hits = 0; misses = 0 });
  ledger = record { window = 86400; spend = []; records = [] };
  metrics = no_metrics;
  gate = record { capacity = 4; active = 0; waiting = 0 };
  breakers = record { failure_threshold = 5; recovery_timeout = 30; breakers = [] };
}

-- `small` times out, another model answers with 12 tokens.
abbrev answers : ModelSpec → String → ℕ → Answer
answers m prompt max_output_tokens =
    if m.name == "small"
    then faults timeout
    else completes
        (record { text = "hi there"; input_tokens = 2; output_tokens = 12; model = m.name })

abbrev pub world : World
world = record {
  settings = settings;
  runtime = runtime;
  digest = λ p. p.model;
  generate = answers;
  wait = timed_out;
  during_wait = λ s. s;
  during_call = λ _ s. s;
  entry_id = "a";
  limiter_at = 100;
  lookup_at = 101;
  reserve_at = 102;
  allows_at = λ _. 103;
  retry_at = λ _. 103;
  outcome_at = λ _. 104;
  settle_at = 105;
  store_at = 106;
}

abbrev pub request : Request
request = record { query = plain; user_id = "ann"; user_daily_budget = none }

pub ann-fresh : find "a" (entries service.ledger "ann") ≡ none
unfolding find entries lookup
ann-fresh = refl

handle-Bill_example : Bill "ann" service.ledger 105 (handle world request service)
handle-Bill_example =
    handle-Bill world request service (λ x. record { entries_of = refl; window_of = refl })
      (λ n x. record { entries_of = refl; window_of = refl }) ann-fresh (omega arith) (omega arith)

handle-Restored_example : Restored service.gate 0 (handle world request service)
handle-Restored_example =
    handle-Restored world request service (λ x. record { gate_of = refl; in_flight_of = refl })
      (λ k x. record { gate_of = refl; in_flight_of = refl })

generate-ends_example : (generate world plain 4 service [] small_decision).1 ≢ out_of_fuel
generate-ends_example =
    generate-ends world plain 4 service [] small_decision (inl refl, refl) (omega arith)

generate-IsAffordable_example :
    Served
      (IsAffordable (project runtime routing_settings plain))
      (generate world plain 4 service [] small_decision).1
generate-IsAffordable_example =
    generate-IsAffordable world plain 4 service [] small_decision
      (route-IsAffordable runtime routing_settings plain [] plain-routed).1

-- A service whose circuit for `small` is open, and a provider that rejects the request.
abbrev tripped : Service
tripped = record service {
  breakers = record {
    failure_threshold = 5;
    recovery_timeout = 30;
    breakers =
        (
          "small",
          record {
            name = "small";
            failure_threshold = 5;
            recovery_timeout = 30;
            state = open_state;
            consecutive_failures = 5;
            opened_at = 50;
            half_open_probe_taken = false;
          },
        )
        ∷ [];
  };
}

abbrev rejecting : World
rejecting = record world { generate = λ m prompt n. rejects provider_error }

tripped-open : (breaker_of tripped "small").state ≡ open_state
unfolding breaker_of Registry.current Registry.get lookup
tripped-open = refl

tripped-due :
    (breaker_of tripped "small").opened_at + (breaker_of tripped "small").recovery_timeout ≤ 103
unfolding breaker_of Registry.current Registry.get lookup
tripped-due = omega arith

generate-lost_probe_example :
    ((generate rejecting plain 4 tripped [] small_decision).1
      ≡ failed (provider_fault provider_error))
    × (count_allowed
          (breaker_of (generate rejecting plain 4 tripped [] small_decision).0 "small")
          (200 ∷ 3000 ∷ [])
        ≡ 0)
generate-lost_probe_example =
    generate-lost_probe rejecting plain 3 tripped [] small_decision (200 ∷ 3000 ∷ []) tripped-open
      tripped-due refl (λ x. refl)
