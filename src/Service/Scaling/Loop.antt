-- ===== src/Service/Scaling/Loop.antt =====
-- app/service.py: what the loop of the autoscaler comes to under a load that stays the same.
use llm_inference_autoscalin.Base.{
  ℕ, ◌+◌, ◌*◌, ◌≤◌, ◌<◌, ◌≡◌, refl, sym, ap, ◌∙◌, ◌⊎◌, inl, inr, Option, none, some, List, [], ◌∷◌,
  arith, All,
}
use llm_inference_autoscalin.Autoscaler.{
  ScalingSettings, LoadSample, total, ScaleDecision, Autoscaler, needed, raw_desired, decide_for,
  apply, step,
}
use llm_inference_autoscalin.Autoscaler.Bounds.{Tick, raw_desired-fits}
use llm_inference_autoscalin.Autoscaler.Cooldown.{after, after-works, after-Committed}
use llm_inference_autoscalin.Gate.{resize}
use llm_inference_autoscalin.Service.Scaling.{
  capacity_for, ticked, current_load, Scaling, autoscale_tick, logged, Pass, run_autoscaler,
}
use llm_inference_autoscalin.Service.Scaling.Capacity.{IsSized, AfterTick, autoscale_tick-IsSized}

-- The requests that run or wait.
abbrev pub demand : Scaling → ℕ
demand s = total (current_load s.gate)

-- What requests do while the loop sleeps leaves the autoscaler and the gate's capacity alone, as they
-- always do, and as many requests come as leave.
pub record IsSteady (p : Pass) : Type 0 where
  pub same : (s : Scaling) → (p.sleeping s).autoscaler ≡ s.autoscaler
  pub capacity : (s : Scaling) → (p.sleeping s).gate.capacity ≡ s.gate.capacity
  pub steady : (s : Scaling) → demand (p.sleeping s) ≡ demand s

-- The state after a tick of the loop, whose controller saw the demand.
record IsTicked (s s' : Scaling) (now later : ℕ) : Type 0 where
  controller : s'.autoscaler ≡ after s.autoscaler (current_load s.gate, now, later)
  same_demand : demand s' ≡ demand s
  sized : IsSized s → IsSized s'

logged-controller :
    (s : Scaling) (x : Option (Autoscaler × ScaleDecision))
    → (logged s (ticked s x)).autoscaler ≡ elim x [ none ↦ s.autoscaler | some r ↦ r.0 ]
unfolding logged ticked
logged-controller s none = refl
logged-controller s (some (a, d)) = refl

logged-demand :
    (s : Scaling) (x : Option (Autoscaler × ScaleDecision))
    → demand (logged s (ticked s x)) ≡ demand s
unfolding logged ticked current_load resize
logged-demand s none = refl
logged-demand s (some (a, d)) = ground arith

logged-IsSized :
    (s : Scaling) (x : Option (Scaling × ScaleDecision))
    → IsSized s
    → AfterTick x
    → IsSized (logged s x)
unfolding logged
logged-IsSized s none h k = h
logged-IsSized s (some r) h k = k

tick-IsTicked :
    (s : Scaling) (now later : ℕ) → IsTicked s (logged s (autoscale_tick s now later)) now later
unfolding autoscale_tick after
tick-IsTicked s now later = record {
  controller = logged-controller s (step s.autoscaler (current_load s.gate) now later);
  same_demand = logged-demand s (step s.autoscaler (current_load s.gate) now later);
  sized =
      λ h. logged-IsSized s (autoscale_tick s now later) h (autoscale_tick-IsSized s now later h);
}

-- The count that the controller asks for depends on the demand alone.
raw_desired-demand :
    (settings : ScalingSettings) (a b : LoadSample)
    → total a ≡ total b
    → raw_desired settings a ≡ raw_desired settings b
unfolding raw_desired needed
raw_desired-demand settings a b e = rw (e, raw_desired, needed)

-- Both cooldowns are over, or there is nothing to change.
abbrev Free : Autoscaler → ℕ → ℕ → Type 0
Free a d now =
    ((a.last_scale_up + a.settings.scale_up_cooldown ≤ now)
      × (a.last_scale_down + a.settings.scale_down_cooldown ≤ now))
    ⊎ (a.current ≡ d)

apply-Free :
    (a : Autoscaler) (d now later : ℕ)
    → Free a d now
    → (apply a (decide_for a now d) later).current ≡ d
unfolding apply decide_for
apply-Free a d now later (inl (up, down)) = ground arith
apply-Free a d now later (inr e) = ground arith

-- The loop in a state where the count is what the load that it saw asks for.
record IsSettled (load : LoadSample) (d : ℕ) (settings : ScalingSettings) (s : Scaling)
    : Type 0 where
  kept : s.autoscaler.settings ≡ settings
  demanded : demand s ≡ total load
  count : s.autoscaler.current ≡ d
  sized : IsSized s

pass-IsSettled :
    (p : Pass) (s : Scaling) (d : ℕ)
    → IsSteady p
    → IsSized s
    → raw_desired s.autoscaler.settings (current_load s.gate) ≡ some d
    → Free s.autoscaler d p.now
    → IsSettled
        (current_load s.gate)
        d
        s.autoscaler.settings
        (p.sleeping (logged s (autoscale_tick s p.now p.later)))
pass-IsSettled p s d quiet h e free =
    let tick = tick-IsTicked s p.now p.later in
    let s' = logged s (autoscale_tick s p.now p.later) in
    let t : Tick = (current_load s.gate, p.now, p.later) in
    let a = quiet.same s' ∙ tick.controller in
    record {
      kept = ap (λ x. x.settings) a ∙ (after-Committed s.autoscaler t).same;
      demanded = quiet.steady s' ∙ tick.same_demand;
      count =
          ap (λ x. x.current) (a ∙ after-works s.autoscaler t d e)
          ∙ apply-Free s.autoscaler d p.now p.later free;
      sized =
          quiet.capacity s'
          ∙ tick.sized h
          ∙ ap (λ x. capacity_for x.settings x.current) (sym (quiet.same s'));
    }

run-IsSettled :
    (ps : List Pass) (load : LoadSample) (d : ℕ) (settings : ScalingSettings) (s : Scaling)
    → All IsSteady ps
    → raw_desired settings load ≡ some d
    → IsSettled load d settings s
    → IsSettled load d settings (run_autoscaler ps s)
unfolding run_autoscaler
run-IsSettled [] load d settings s quiet e h = h
run-IsSettled (p ∷ ps) load d settings s (q, quiet) e h =
    let asks : raw_desired s.autoscaler.settings (current_load s.gate) ≡ some d =
      rw h.kept (raw_desired-demand settings (current_load s.gate) load h.demanded ∙ e) in
    let next = pass-IsSettled p s d q h.sized asks (inr h.count) in
    run-IsSettled ps load d settings _ quiet e (record {
      kept = next.kept ∙ h.kept;
      demanded = next.demanded ∙ h.demanded;
      count = next.count;
      sized = next.sized;
    })

-- Room for a demand in the gate of so many replicas.
capacity_for-room :
    (settings : ScalingSettings) (n d : ℕ)
    → n * 1000 ≤ d * settings.target_concurrency
    → n ≤ capacity_for settings d
unfolding capacity_for
capacity_for-room settings n d h = omega arith

-- What the loop comes to: the count that its first load asks for, a gate of that capacity, and room
-- in it for every request, unless the count is the most that is allowed.
pub record IsProvided (s s' : Scaling) : Type 0 where
  pub desired : raw_desired s.autoscaler.settings (current_load s.gate) ≡ some s'.autoscaler.current
  pub sized : IsSized s'
  pub demanded : demand s' ≡ demand s
  pub room :
      (demand s' ≤ s'.gate.capacity) ⊎ (s'.autoscaler.current ≡ s.autoscaler.settings.max_replicas)

provided :
    (s s' : Scaling) (d : ℕ)
    → raw_desired s.autoscaler.settings (current_load s.gate) ≡ some d
    → (demand s * 1000 ≤ d * s.autoscaler.settings.target_concurrency)
      ⊎ (d ≡ s.autoscaler.settings.max_replicas)
    → IsSettled (current_load s.gate) d s.autoscaler.settings s'
    → IsProvided s s'
unfolding current_load
provided s s' d e fits h = record {
  desired = e ∙ ap some (sym h.count);
  sized = h.sized;
  demanded = h.demanded;
  room = elim fits [
    | inl covers ↦ inl (
        rw (h.sized, h.kept, h.count, h.demanded)
          (capacity_for-room s.autoscaler.settings (demand s) d covers))
    | inr top ↦ inr (h.count ∙ top)
  ];
}

-- The loop settles. Let the requests in the gate and before it stay as many while the loop runs, and
-- leave the autoscaler and the capacity alone; let the gate have the capacity of the replicas, the
-- target be positive, and `min <= max`. From the first tick after both cooldowns on, however often
-- and however fast the loop ticks, the replica count is the one that the load asks for, and the gate
-- has its capacity: room for all the requests, if the count is not the maximum.
pub run_autoscaler-IsProvided :
    (p : Pass) (ps : List Pass) (s : Scaling)
    → IsSteady p
    → All IsSteady ps
    → IsSized s
    → 0 < s.autoscaler.settings.target_concurrency
    → s.autoscaler.settings.min_replicas ≤ s.autoscaler.settings.max_replicas
    → s.autoscaler.last_scale_up + s.autoscaler.settings.scale_up_cooldown ≤ p.now
    → s.autoscaler.last_scale_down + s.autoscaler.settings.scale_down_cooldown ≤ p.now
    → IsProvided s (run_autoscaler (p ∷ ps) s)
unfolding run_autoscaler
run_autoscaler-IsProvided p ps s quiet all_quiet h positive ordered up down =
    let (d, e, _, _, fits, _) =
      raw_desired-fits s.autoscaler.settings (current_load s.gate) positive ordered in
    provided s _ d e fits (
      run-IsSettled ps (current_load s.gate) d s.autoscaler.settings _ all_quiet e
        (pass-IsSettled p s d quiet h e (inl (up, down))))
