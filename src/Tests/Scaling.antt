-- ===== src/Tests/Scaling.antt =====
-- Tests of app/autoscaler.py.
use llm_inference_autoscalin.Base.{
  ℕ, ◌+◌, ◌-◌, min, ◌≡◌, refl, some, List, [], ◌∷◌, arith, All, ceil_div,
}
use llm_inference_autoscalin.Gate.{resize}
use llm_inference_autoscalin.Base.{All}
use llm_inference_autoscalin.Autoscaler.{
  ScalingSettings, LoadSample, Autoscaler, needed, raw_desired, decide_for, decide, apply, step,
}
use llm_inference_autoscalin.Autoscaler.Bounds.{Tick, run, InRange, run-InRange}
use llm_inference_autoscalin.Autoscaler.Cooldown.{Forward, Spaced, raises, lowers, ticks-Spaced}
use llm_inference_autoscalin.Service.Scaling.{
  Scaling, capacity_for, current_load, ticked, autoscale_tick, logged, Pass, run_autoscaler,
}
use llm_inference_autoscalin.Service.Scaling.Capacity.{IsSized}
use llm_inference_autoscalin.Service.Scaling.Loop.{IsSteady, IsProvided, run_autoscaler-IsProvided}
use llm_inference_autoscalin.Tests.Serving.{no_metrics}

-- The defaults of `Settings`, in seconds.
abbrev settings : ScalingSettings
settings = record {
  min_replicas = 1;
  max_replicas = 20;
  target_concurrency = 4000;
  scale_down_cooldown = 60;
  scale_up_cooldown = 10;
}

abbrev five : Autoscaler
five = record { settings = settings; current = 5; last_scale_up = 0; last_scale_down = 0 }

abbrev load_of : ℕ → LoadSample
load_of n = record { in_flight = n; queue_depth = 0 }

-- A burst, a lull, and a burst within the cooldown.
abbrev ticks : List Tick
ticks = (load_of 100, 70, 70) ∷ (load_of 0, 80, 81) ∷ (load_of 100, 85, 85) ∷ []

run-InRange_example :
    (a : Autoscaler) × (run five ticks ≡ some a) × InRange a × (a.settings ≡ settings)
run-InRange_example = run-InRange ticks five (record {
  positive = omega arith;
  ordered = omega arith;
  at_least = omega arith;
  at_most = omega arith;
})

ticks-Forward : All Forward ticks
ticks-Forward = (omega arith, (omega arith, (omega arith, tt)))

ticks-Spaced_example : Spaced 10 0 (raises five ticks) × Spaced 60 0 (lowers five ticks)
ticks-Spaced_example = ticks-Spaced ticks five ticks-Forward

-- Five replicas of four requests each, and a full gate with ten callers parked.
abbrev scaling : Scaling
scaling = record {
  autoscaler = five;
  gate = record { capacity = 20; active = 20; waiting = 10 };
  metrics = no_metrics;
}

scaling-IsSized : IsSized scaling
unfolding capacity_for
scaling-IsSized = refl

-- While the loop sleeps, a request leaves and another one comes to wait.
abbrev swap : Scaling → Scaling
swap s = record s {
  gate = record s.gate {
    active = s.gate.active - 1;
    waiting = s.gate.waiting + min s.gate.active 1;
  };
}

abbrev pass_at : ℕ → Pass
pass_at now = record { now = now; later = now; sleeping = swap }

pass_at-IsSteady : (now : ℕ) → IsSteady (pass_at now)
unfolding current_load
pass_at-IsSteady now = record { same = λ s. refl; capacity = λ s. refl; steady = λ s. omega arith }

run_autoscaler-IsProvided_example :
    IsProvided scaling (run_autoscaler (pass_at 70 ∷ pass_at 75 ∷ pass_at 80 ∷ []) scaling)
run_autoscaler-IsProvided_example =
    run_autoscaler-IsProvided (pass_at 70) (pass_at 75 ∷ pass_at 80 ∷ []) scaling
      (pass_at-IsSteady 70) (pass_at-IsSteady 75, (pass_at-IsSteady 80, tt)) scaling-IsSized
      (omega arith) (omega arith) (omega arith) (omega arith)

-- Thirty requests ask for eight replicas of four.
scaling-runs :
    (run_autoscaler (pass_at 70 ∷ pass_at 75 ∷ []) scaling).gate
    ≡ record { capacity = 32; active = 18; waiting = 12 }
unfolding run_autoscaler logged autoscale_tick step decide raw_desired needed ceil_div decide_for
    apply capacity_for resize current_load ticked
scaling-runs = refl
