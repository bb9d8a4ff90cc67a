-- ===== src/Service/Scaling/Capacity.antt =====
-- app/service.py: the gate's capacity is that of the autoscaler's replicas.
use llm_inference_autoscalin.Base.{
  ℕ, ◌≡◌, refl, ◌∙◌, inl, inr, Option, none, some, arith, if◌then◌else◌, Bool-cases, Option-cases,
}
use llm_inference_autoscalin.Autoscaler.{
  LoadSample, ScaleDecision, changed, Autoscaler, apply, step, decide,
}
use llm_inference_autoscalin.Gate.{resize}
use llm_inference_autoscalin.Service.Scaling.{
  capacity_for, ticked, current_load, Scaling, autoscale_tick,
}

-- The gate has the capacity of the replicas that there are.
abbrev pub IsSized : Scaling → Type 0
IsSized s = s.gate.capacity ≡ capacity_for s.autoscaler.settings s.autoscaler.current

-- The count after a decision is applied.
abbrev chosen : ScaleDecision → Autoscaler → ℕ
chosen d a = if changed d then d.desired_replicas else a.current

apply-current :
    (a : Autoscaler) (d : ScaleDecision) (later : ℕ)
    → ((apply a d later).current ≡ chosen d a) × ((apply a d later).settings ≡ a.settings)
unfolding apply
apply-current a d later = ground arith

-- The count that the controller has after its answer.
abbrev Applied : Autoscaler → Option (Autoscaler × ScaleDecision) → Type 0
Applied a none = Unit
Applied a (some (a', d)) = (a'.current ≡ chosen d a) × (a'.settings ≡ a.settings)

step-Applied :
    (a : Autoscaler) (load : LoadSample) (now later : ℕ) → Applied a (step a load now later)
unfolding step
step-Applied a load now later = elim (Option-cases (decide a load now)) [
  | inl fails ↦ rw (fails, step) tt
  | inr (d, decided) ↦ rw (decided, step) (apply-current a d later)
]

-- A tick that succeeds leaves the gate sized.
abbrev pub AfterTick : Option (Scaling × ScaleDecision) → Type 0
AfterTick none = Unit
AfterTick (some (s, d)) = IsSized s

ticked-IsSized :
    (s : Scaling) (x : Option (Autoscaler × ScaleDecision))
    → IsSized s
    → Applied s.autoscaler x
    → AfterTick (ticked s x)
unfolding ticked resize capacity_for
ticked-IsSized s none h k = tt
ticked-IsSized s (some (a, d)) h k = elim (Bool-cases (changed d)) [
  | inl moves ↦
      let there : chosen d s.autoscaler ≡ d.desired_replicas = rw moves refl in
      rw moves (rw (k.0 ∙ there) (omega arith))
  | inr stays ↦
      let there : chosen d s.autoscaler ≡ s.autoscaler.current = rw stays refl in
      rw stays (rw (k.0 ∙ there) (rw k.1 h))
]

-- A tick keeps the gate sized: if its capacity is `max(1, int(replicas * target))` for the replica
-- count before the tick, it is so for the count after it, whatever the load and the clock readings
-- are, or the tick fails.
pub autoscale_tick-IsSized :
    (s : Scaling) (now later : ℕ) → IsSized s → AfterTick (autoscale_tick s now later)
unfolding autoscale_tick
autoscale_tick-IsSized s now later h =
    ticked-IsSized s _ h (step-Applied s.autoscaler (current_load s.gate) now later)
