-- ===== src/Service/Scaling.antt =====
-- app/service.py: the autoscaler's tick, which reads the gate and sizes it, and its loop.
pub mod Capacity
pub mod Loop
use llm_inference_autoscalin.Base.{
  ℕ, ◌*◌, ◌/◌, max, Option, none, some, List, [], ◌∷◌, if◌then◌else◌,
}
use llm_inference_autoscalin.Autoscaler.{
  ScalingSettings, LoadSample, ScaleDecision, changed, Autoscaler,
}
use llm_inference_autoscalin.Autoscaler
use llm_inference_autoscalin.Gate.{CapacityGate}
use llm_inference_autoscalin.Gate
use llm_inference_autoscalin.Metrics.{Metrics, set_queue_depth}

-- `_capacity_for`; the target concurrency is in thousandths, `int` rounds down.
unfoldable pub capacity_for : ScalingSettings → ℕ → ℕ
capacity_for settings replicas = max 1 (replicas * settings.target_concurrency / 1000)

unfoldable pub current_load : CapacityGate → LoadSample
current_load g = record { in_flight = g.active; queue_depth = g.waiting }

-- What `autoscale_tick` reads and writes of the service.
pub record Scaling : Type 0 where
  pub autoscaler : Autoscaler
  pub gate : CapacityGate
  pub metrics : Metrics

-- What a tick does with the autoscaler's answer.
unfoldable pub ticked :
    Scaling → Option (Autoscaler × ScaleDecision) → Option (Scaling × ScaleDecision)
ticked s none = none
ticked s (some (a, d)) = some (
  record {
    autoscaler = a;
    gate =
        if changed d
        then Gate.resize s.gate (capacity_for a.settings d.desired_replicas)
        else s.gate;
    metrics = set_queue_depth s.gate.waiting s.metrics;
  },
  d,
)

-- `autoscale_tick`; `none` is the division by a target of 0.
unfoldable pub autoscale_tick : Scaling → ℕ → ℕ → Option (Scaling × ScaleDecision)
autoscale_tick s now later = ticked s (Autoscaler.step s.autoscaler (current_load s.gate) now later)

-- What a tick of the loop comes to: one that fails is logged, and has set the queue depth all the same.
unfoldable pub logged : Scaling → Option (Scaling × ScaleDecision) → Scaling
logged s none = record s { metrics = set_queue_depth s.gate.waiting s.metrics }
logged s (some (s', d)) = s'

-- A pass of the loop: the two clock readings of its tick, and what requests do while it sleeps.
pub record Pass : Type 0 where
  pub now : ℕ
  pub later : ℕ
  pub sleeping : Scaling → Scaling

-- `run_autoscaler`: its passes until `stop` is set.
unfoldable pub run_autoscaler : List Pass → Scaling → Scaling
run_autoscaler [] s = s
run_autoscaler (p ∷ ps) s =
    run_autoscaler ps (p.sleeping (logged s (autoscale_tick s p.now p.later)))
