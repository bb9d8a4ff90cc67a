-- ===== src/Tests/Guards.antt =====
-- Tests of app/breaker.py, app/ratelimit.py and app/gate.py.
use llm_inference_autoscalin.Base.{
  ℕ, ◌+◌, ◌-◌, ◌*◌, ◌≤◌, ◌<◌, ◌≡◌, refl, true, false, List, [], ◌∷◌, arith, leb, lookup,
}
use llm_inference_autoscalin.Breaker.{
  CircuitBreaker, closed, open_state, half_open, allows, record_success, record_failure,
  new_breaker,
}
use llm_inference_autoscalin.Breaker.Life.{
  ask, succeed, fail, after_all, IsWellFormed, count_allowed, new_breaker-IsWellFormed,
  count_allowed-open, probe-decides,
}
use llm_inference_autoscalin.Breaker.Registry
use llm_inference_autoscalin.Breaker.Registry.{dispatch_all-isolated}
use llm_inference_autoscalin.RateLimit.{TokenBucketLimiter, current}
use llm_inference_autoscalin.RateLimit.Sustained.{Request, last_time, admitted, admitted-le}
use llm_inference_autoscalin.Gate
use llm_inference_autoscalin.Gate.Runs

-- A breaker that opened at tick 50, with a recovery time of 30.
abbrev tripped : CircuitBreaker
tripped = record {
  name = "small";
  failure_threshold = 2;
  recovery_timeout = 30;
  state = open_state;
  consecutive_failures = 2;
  opened_at = 50;
  half_open_probe_taken = false;
}

abbrev probing : CircuitBreaker
probing = record tripped { state = half_open; half_open_probe_taken = true }

new_breaker-IsWellFormed_example :
    IsWellFormed
      (after_all (new_breaker "small" 2 30) (fail 10 ∷ fail 20 ∷ ask 60 ∷ fail 61 ∷ succeed ∷ []))
new_breaker-IsWellFormed_example =
    new_breaker-IsWellFormed "small" 2 30 (fail 10 ∷ fail 20 ∷ ask 60 ∷ fail 61 ∷ succeed ∷ [])
      (omega arith)

count_allowed-open_example : count_allowed tripped (60 ∷ 80 ∷ 81 ∷ []) ≤ 1
count_allowed-open_example = count_allowed-open (60 ∷ 80 ∷ 81 ∷ []) tripped refl

tripped-due : (allows tripped 85).1 ≡ true
unfolding allows
tripped-due = refl

probe-decides_example :
    ((record_success (allows tripped 85).0).state ≡ closed)
    × ((record_success (allows tripped 85).0).consecutive_failures ≡ 0)
    × ((allows (record_success (allows tripped 85).0) 95).1 ≡ true)
    × ((record_failure (allows tripped 85).0 90).state ≡ open_state)
    × ((allows (record_failure (allows tripped 85).0 90) 95).1 ≡ leb (90 + 30) 95)
probe-decides_example = probe-decides tripped 85 90 95 refl tripped-due

dispatch_all-isolated_example :
    Registry.current
      (Registry.dispatch_all
        (Registry.init 2 30)
        (("small", fail 1) ∷ ("large", fail 2) ∷ ("small", fail 3) ∷ []))
      "small"
    ≡ after_all (Registry.current (Registry.init 2 30) "small") (
        Registry.calls_for "small" (("small", fail 1) ∷ ("large", fail 2) ∷ ("small", fail 3) ∷ []))
dispatch_all-isolated_example =
    dispatch_all-isolated (("small", fail 1) ∷ ("large", fail 2) ∷ ("small", fail 3) ∷ [])
      (Registry.init 2 30) "small"

-- A bucket of 20 tokens that refills 5 a tick; ann has 2 at tick 10.
abbrev limiter : TokenBucketLimiter
limiter = record { capacity = 20; refill_rate = 5; buckets = ("ann", (2, 10)) ∷ [] }

abbrev calls : List Request
calls =
    record { user_id = "ann"; cost = 1; at = 10 }
    ∷ record { user_id = "bob"; cost = 20; at = 10 }
    ∷ record { user_id = "ann"; cost = 9; at = 11 }
    ∷ []

admitted-le_example :
    admitted "ann" limiter calls ≤ current limiter "ann" 10 + (last_time 10 calls - 10) * 5
admitted-le_example =
    admitted-le calls limiter "ann" 10 (omega arith, (omega arith, (omega arith, tt)))

ann-short : current limiter "ann" 10 < 12
unfolding current lookup
ann-short = omega arith

-- One caller enters a gate of capacity 1, a second parks, the first leaves, the second wakes.
abbrev empty_gate : Runs.System
empty_gate = record { gate = Gate.init 1; inside = 0; parked = 0 }

abbrev used_gate : ℕ → ℕ → Runs.System
used_gate inside parked = record {
  gate = record { capacity = 1; active = inside; waiting = parked };
  inside = inside;
  parked = parked;
}

gate-Run : Runs.Run empty_gate (used_gate 1 0)
unfolding Gate.init Gate.acquire Gate.release Gate.wake
gate-Run =
    Runs.then_
      (Runs.then_
        (Runs.then_ (Runs.then_ Runs.start (Runs.arrives empty_gate))
          (Runs.arrives (used_gate 1 0)))
        (Runs.leaves (used_gate 1 1) (omega arith)))
      (Runs.wakes (used_gate 0 1) (omega arith))

Run-IsExact_example : Runs.IsExact (used_gate 1 0)
Run-IsExact_example = Runs.Run-IsExact 1 gate-Run

gate-Step : Runs.Step (used_gate 1 0) (used_gate 1 1)
unfolding Gate.acquire
gate-Step = Runs.arrives (used_gate 1 0)
