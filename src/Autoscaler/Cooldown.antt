-- ===== src/Autoscaler/Cooldown.antt =====
-- app/autoscaler.py: the cooldowns over a run of the controller.
use llm_inference_autoscalin.Base.{
  ℕ, ◌+◌, ◌≤◌, ◌<◌, ◌≡◌, refl, inl, inr, none, some, List, [], ◌∷◌, arith, ltb, if◌then◌else◌,
  ltb→lt, Bool-cases, Option-cases, All,
}
use llm_inference_autoscalin.Autoscaler.{Autoscaler, raw_desired, decide_for, decide, apply, step}
use llm_inference_autoscalin.Autoscaler.Bounds.{Tick}

-- The state after a tick; a tick that raises leaves it alone, as the loop's handler does.
unfoldable pub after : Autoscaler → Tick → Autoscaler
after a t = elim (step a t.0 t.1 t.2) [ none ↦ a | some r ↦ r.0 ]

-- The commit times of the ticks that raised, and of those that lowered, the replica count.
unfoldable pub raises : Autoscaler → List Tick → List ℕ
raises a [] = []
raises a (t ∷ ts) =
    if ltb a.current (after a t).current then t.2 ∷ raises (after a t) ts else raises (after a t) ts

unfoldable pub lowers : Autoscaler → List Tick → List ℕ
lowers a [] = []
lowers a (t ∷ ts) =
    if ltb (after a t).current a.current then t.2 ∷ lowers (after a t) ts else lowers (after a t) ts

-- Each time is at least `gap` after the one before it, the first after `last`.
abbrev pub Spaced : ℕ → ℕ → List ℕ → Type 0
Spaced gap last [] = Unit
Spaced gap last (t ∷ ts) = (last + gap ≤ t) × Spaced gap t ts

-- Within a tick the clock does not go back.
abbrev pub Forward : Tick → Type 0
Forward t = t.1 ≤ t.2

pub record Committed (a a' : Autoscaler) (now later : ℕ) : Type 0 where
  pub same : a'.settings ≡ a.settings
  up :
      a.current < a'.current
      → (a.last_scale_up + a.settings.scale_up_cooldown ≤ now) × (a'.last_scale_up ≡ later)
  no_up : a'.current ≤ a.current → a'.last_scale_up ≡ a.last_scale_up
  down :
      a'.current < a.current
      → (a.last_scale_down + a.settings.scale_down_cooldown ≤ now) × (a'.last_scale_down ≡ later)
  no_down : a.current ≤ a'.current → a'.last_scale_down ≡ a.last_scale_down

apply-Committed :
    (a : Autoscaler) (d now later : ℕ) → Committed a (apply a (decide_for a now d) later) now later
unfolding apply decide_for
apply-Committed a d now later = record {
  same = ground arith;
  up = λ h. ground arith;
  no_up = λ h. ground arith;
  down = λ h. ground arith;
  no_down = λ h. ground arith;
}

after-fails : (a : Autoscaler) (t : Tick) → raw_desired a.settings t.0 ≡ none → after a t ≡ a
unfolding after step decide
after-fails a t e = rw (e, decide, step, after)

pub after-works :
    (a : Autoscaler) (t : Tick) (d : ℕ)
    → raw_desired a.settings t.0 ≡ some d
    → after a t ≡ apply a (decide_for a t.1 d) t.2
unfolding after step decide
after-works a t d e = rw (e, decide, step, after)

pub after-Committed : (a : Autoscaler) (t : Tick) → Committed a (after a t) t.1 t.2
after-Committed a t = elim (Option-cases (raw_desired a.settings t.0)) [
  | inl fails ↦ rw (after-fails a t fails) (record {
    same = refl;
    up = λ h. absurd (omega arith);
    no_up = λ _. refl;
    down = λ h. absurd (omega arith);
    no_down = λ _. refl;
  })
  | inr (d, e) ↦ rw (after-works a t d e) (apply-Committed a d t.1 t.2)
]

raises-Spaced :
    (ts : List Tick) (a : Autoscaler)
    → All Forward ts
    → Spaced a.settings.scale_up_cooldown a.last_scale_up (raises a ts)
unfolding raises after
raises-Spaced [] a h = tt
raises-Spaced (t ∷ ts) a h =
    let c = after-Committed a t in
    let ih = raises-Spaced ts (after a t) h.1 in
    elim (Bool-cases (ltb a.current (after a t).current)) [
      | inl more ↦
          let u = c.up (ltb→lt _ _ more) in
          rw more (omega (arith, u.0, h.0), rw (c.same, u.1) at ih)
      | inr rest ↦ let u = c.no_up (ground arith) in rw rest (rw (c.same, u) at ih)
    ]

lowers-Spaced :
    (ts : List Tick) (a : Autoscaler)
    → All Forward ts
    → Spaced a.settings.scale_down_cooldown a.last_scale_down (lowers a ts)
unfolding lowers after
lowers-Spaced [] a h = tt
lowers-Spaced (t ∷ ts) a h =
    let c = after-Committed a t in
    let ih = lowers-Spaced ts (after a t) h.1 in
    elim (Bool-cases (ltb (after a t).current a.current)) [
      | inl less ↦
          let u = c.down (ltb→lt _ _ less) in
          rw less (omega (arith, u.0, h.0), rw (c.same, u.1) at ih)
      | inr rest ↦ let u = c.no_down (ground arith) in rw rest (rw (c.same, u) at ih)
    ]

-- The cooldowns hold. Over any run in which `apply` reads the clock no earlier than `decide`, and
-- whatever the loads are, some of which may make a tick fail: the replica count is never raised twice
-- within `scale_up_cooldown`, nor within it of the last raise before the run, and never lowered twice
-- within `scale_down_cooldown`, nor within it of the last lowering before.
pub ticks-Spaced :
    (ts : List Tick) (a : Autoscaler)
    → All Forward ts
    → Spaced a.settings.scale_up_cooldown a.last_scale_up (raises a ts)
      × Spaced a.settings.scale_down_cooldown a.last_scale_down (lowers a ts)
ticks-Spaced ts a h = (raises-Spaced ts a h, lowers-Spaced ts a h)
