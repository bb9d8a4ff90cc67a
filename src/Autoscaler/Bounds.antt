-- ===== src/Autoscaler/Bounds.antt =====
-- app/autoscaler.py: the count that a load asks for, and the bounds of any run.
use llm_inference_autoscalin.Base.{
  ℕ, ◌-◌, ◌*◌, ◌≤◌, ◌<◌, ◌≡◌, refl, ◌∙◌, ◌⊎◌, inl, inr, Option, none, some, List, [], ◌∷◌, arith,
  ltb, leb, leb→le, Bool-cases, ceil_div,
}
use llm_inference_autoscalin.Base.{ceil_div-covers, ceil_div-least}
use native.Mathlib.Nat.{mul-le-mul_right}
use llm_inference_autoscalin.Autoscaler.{
  ScalingSettings, LoadSample, total, ScaleDecision, Autoscaler, needed, clamp, raw_desired,
  decide_for, decide, apply, step,
}

-- With a positive target `needed` is the least count of replicas whose joint target, in
-- thousandths, covers the load.
needed-least :
    (s : ScalingSettings) (load : LoadSample)
    → 0 < s.target_concurrency
    → (n : ℕ) × (needed s load ≡ some n)
      × (total load * 1000 ≤ n * s.target_concurrency)
      × ((m : ℕ) → total load * 1000 ≤ m * s.target_concurrency → n ≤ m)
unfolding needed
needed-least s load p = elim (Bool-cases (ltb 0 (total load))) [
  | inl busy ↦ (
    ceil_div (total load * 1000) s.target_concurrency,
    ground arith,
    ceil_div-covers (total load * 1000) s.target_concurrency p,
    λ m. ceil_div-least (total load * 1000) s.target_concurrency m p,
  )
  | inr idle ↦ (0, ground arith, ground arith, λ m h. omega arith)
]

clamp-covers :
    (s : ScalingSettings) (n load : ℕ)
    → s.min_replicas ≤ s.max_replicas
    → load ≤ n * s.target_concurrency
    → (load ≤ clamp s n * s.target_concurrency) ⊎ (clamp s n ≡ s.max_replicas)
clamp-covers s n load q h = elim (Bool-cases (leb n s.max_replicas)) [
  | inl fits ↦
      let k : n ≤ clamp s n = omega (arith, leb→le n s.max_replicas fits) in
      inl (omega (arith, mul-le-mul_right s.target_concurrency k))
  | inr above ↦ inr (ground arith)
]

tight :
    (s : ScalingSettings) (n load : ℕ)
    → ((m : ℕ) → load ≤ m * s.target_concurrency → n ≤ m)
    → (clamp s n ≡ s.min_replicas) ⊎ ((clamp s n - 1) * s.target_concurrency < load)
tight s n load least = elim (Bool-cases (leb load ((clamp s n - 1) * s.target_concurrency))) [
  | inl covers ↦ inl (omega (arith, least (clamp s n - 1) (leb→le _ _ covers)))
  | inr short ↦ inr (ground arith)
]

-- With a positive target and `min <= max`, the desired count lies in the range, covers the load
-- or is the ceiling, and is the floor or one that with a replica fewer would not cover the load.
pub raw_desired-fits :
    (s : ScalingSettings) (load : LoadSample)
    → 0 < s.target_concurrency
    → s.min_replicas ≤ s.max_replicas
    → (d : ℕ) × (raw_desired s load ≡ some d)
      × (s.min_replicas ≤ d)
      × (d ≤ s.max_replicas)
      × ((total load * 1000 ≤ d * s.target_concurrency) ⊎ (d ≡ s.max_replicas))
      × ((d ≡ s.min_replicas) ⊎ ((d - 1) * s.target_concurrency < total load * 1000))
unfolding raw_desired
raw_desired-fits s load p q =
    let (n, e, covers, least) = needed-least s load p in
    (
      clamp s n,
      rw (e, raw_desired),
      omega arith,
      omega arith,
      clamp-covers s n (total load * 1000) q covers,
      tight s n (total load * 1000) least,
    )

-- A run of the controller: each tick has a load and the clock readings of `decide` and `apply`.
abbrev pub Tick : Type 0
Tick = LoadSample × ℕ × ℕ

unfoldable pub run : Autoscaler → List Tick → Option Autoscaler
run a [] = some a
run a (t ∷ ts) = elim (step a t.0 t.1 t.2) [ none ↦ none | some r ↦ run r.0 ts ]

pub record InRange (a : Autoscaler) : Type 0 where
  pub positive : 0 < a.settings.target_concurrency
  pub ordered : a.settings.min_replicas ≤ a.settings.max_replicas
  pub at_least : a.settings.min_replicas ≤ a.current
  pub at_most : a.current ≤ a.settings.max_replicas

apply-InRange :
    (a : Autoscaler) (d now later : ℕ)
    → InRange a
    → a.settings.min_replicas ≤ d
    → d ≤ a.settings.max_replicas
    → InRange (apply a (decide_for a now d) later)
unfolding apply decide_for
apply-InRange a d now later r lo hi = ground arith

apply-settings :
    (a : Autoscaler) (d : ScaleDecision) (now : ℕ) → (apply a d now).settings ≡ a.settings
unfolding apply
apply-settings a d now = ground arith

step-InRange :
    (a : Autoscaler) (load : LoadSample) (now later : ℕ)
    → InRange a
    → (r : Autoscaler × ScaleDecision) × (step a load now later ≡ some r)
      × InRange r.0
      × (r.0.settings ≡ a.settings)
unfolding step decide
step-InRange a load now later r =
    let (d, e, lo, hi, _, _) = raw_desired-fits a.settings load r.positive r.ordered in
    (
      (apply a (decide_for a now d) later, decide_for a now d),
      rw (e, decide, step),
      apply-InRange a d now later r lo hi,
      apply-settings a (decide_for a now d) later,
    )

-- From a positive target, `min <= max` and a replica count in that range, no run of the controller
-- fails, whatever the loads and the clock readings; the replica count is in the range after it,
-- and the settings are the same.
pub run-InRange :
    (ts : List Tick) (a : Autoscaler)
    → InRange a
    → (a' : Autoscaler) × (run a ts ≡ some a') × InRange a' × (a'.settings ≡ a.settings)
unfolding run
run-InRange [] a r = (a, refl, r, refl)
run-InRange (t ∷ ts) a r =
    let (next, e, kept, same) = step-InRange a t.0 t.1 t.2 r in
    let (end, f, held, still) = run-InRange ts next.0 kept in
    (end, rw (e, run) f, held, still ∙ same)
