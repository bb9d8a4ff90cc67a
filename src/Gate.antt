-- ===== src/Gate.antt =====
-- app/gate.py: the capacity gate. Each part of a method that runs without a wait is one step: the call
-- of `acquire`, a parked caller that finds its condition true, and one that is cancelled.
pub mod Runs
use llm_inference_autoscalin.Base.{ℕ, ◌+◌, ◌-◌, max, Bool, true, false, ltb, if◌then◌else◌}

pub record CapacityGate : Type 0 where
  pub capacity : ℕ
  pub active : ℕ
  pub waiting : ℕ

unfoldable pub init : ℕ → CapacityGate
init capacity = record { capacity = max 1 capacity; active = 0; waiting = 0 }

-- `acquire` up to its return or its wait; `true` is a return.
unfoldable pub acquire : CapacityGate → CapacityGate × Bool
acquire g =
    if ltb g.active g.capacity
    then (record g { active = g.active + 1 }, true)
    else (record g { waiting = g.waiting + 1 }, false)

-- A parked caller whose condition holds takes its place, and its `finally` runs; one whose
-- condition does not hold waits on.
unfoldable pub wake : CapacityGate → CapacityGate × Bool
wake g =
    if ltb g.active g.capacity
    then (record g { active = g.active + 1; waiting = g.waiting - 1 }, true)
    else (g, false)

-- A parked caller that is cancelled: only its `finally` runs.
unfoldable pub cancel : CapacityGate → CapacityGate
cancel g = record g { waiting = g.waiting - 1 }

unfoldable pub release : CapacityGate → CapacityGate
release g = record g { active = g.active - 1 }

unfoldable pub resize : CapacityGate → ℕ → CapacityGate
resize g capacity = record g { capacity = max 1 capacity }
