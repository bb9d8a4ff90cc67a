-- ===== src/Autoscaler.antt =====
-- app/autoscaler.py: the controller. Loads and replica counts are numbers, times are in ticks, and
-- `target_concurrency_per_replica` is in thousandths. `none` is the ZeroDivisionError of a target
-- of 0. The text of a decision's reason is one of five cases.
pub mod Bounds
pub mod Cooldown
use llm_inference_autoscalin.Base.{
  ℕ, ◌+◌, ◌*◌, min, max, Bool, not, Option, none, some, ltb, leb, eqb, if◌then◌else◌, ceil_div,
}

-- The fields of `Settings` that the controller reads.
pub record ScalingSettings : Type 0 where
  pub min_replicas : ℕ
  pub max_replicas : ℕ
  pub target_concurrency : ℕ
  pub scale_up_cooldown : ℕ
  pub scale_down_cooldown : ℕ

pub record LoadSample : Type 0 where
  pub in_flight : ℕ
  pub queue_depth : ℕ

abbrev pub total : LoadSample → ℕ
total load = load.in_flight + load.queue_depth

pub data Reason : Type 0 where
  scale_up up_suppressed scale_down down_suppressed no_change : Reason

pub record ScaleDecision : Type 0 where
  pub current_replicas : ℕ
  pub desired_replicas : ℕ
  pub reason : Reason

abbrev pub changed : ScaleDecision → Bool
changed d = not (eqb d.desired_replicas d.current_replicas)

pub record Autoscaler : Type 0 where
  pub settings : ScalingSettings
  pub current : ℕ
  pub last_scale_up : ℕ
  pub last_scale_down : ℕ

unfoldable pub init : ScalingSettings → Autoscaler
init s = record { settings = s; current = s.min_replicas; last_scale_up = 0; last_scale_down = 0 }

-- `math.ceil(load.total / target) if load.total > 0 else 0`
unfoldable pub needed : ScalingSettings → LoadSample → Option ℕ
needed s load =
    if ltb 0 (total load)
    then if eqb s.target_concurrency 0
      then none
      else some (ceil_div (total load * 1000) s.target_concurrency)
    else some 0

-- `max(min_replicas, min(needed, max_replicas))`
abbrev pub clamp : ScalingSettings → ℕ → ℕ
clamp s n = max s.min_replicas (min n s.max_replicas)

-- `_raw_desired`
unfoldable pub raw_desired : ScalingSettings → LoadSample → Option ℕ
raw_desired s load = elim (needed s load) [ none ↦ none | some n ↦ some (clamp s n) ]

abbrev pub stay : ℕ → Reason → ScaleDecision
stay n why = record { current_replicas = n; desired_replicas = n; reason = why }

abbrev pub move : ℕ → ℕ → Reason → ScaleDecision
move n m why = record { current_replicas = n; desired_replicas = m; reason = why }

-- The body of `decide` once `desired` is known. `now - last >= cooldown` is written as a sum.
unfoldable pub decide_for : Autoscaler → ℕ → ℕ → ScaleDecision
decide_for a now desired =
    if ltb a.current desired
    then if leb (a.last_scale_up + a.settings.scale_up_cooldown) now
      then move a.current desired scale_up
      else stay a.current up_suppressed
    else if ltb desired a.current
    then if leb (a.last_scale_down + a.settings.scale_down_cooldown) now
      then move a.current desired scale_down
      else stay a.current down_suppressed
    else stay a.current no_change

unfoldable pub decide : Autoscaler → LoadSample → ℕ → Option ScaleDecision
decide a load now = elim (raw_desired a.settings load) [
  | none ↦ none
  | some d ↦ some (decide_for a now d)
]

-- `apply`, at its own reading of the clock.
unfoldable pub apply : Autoscaler → ScaleDecision → ℕ → Autoscaler
apply a d now =
    if not (changed d)
    then a
    else if ltb a.current d.desired_replicas
    then record a { last_scale_up = now; current = d.desired_replicas }
    else record a { last_scale_down = now; current = d.desired_replicas }

unfoldable pub step : Autoscaler → LoadSample → ℕ → ℕ → Option (Autoscaler × ScaleDecision)
step a load now later = elim (decide a load now) [
  | none ↦ none
  | some d ↦ some (apply a d later, d)
]
