-- ===== src/Breaker/Life.antt =====
-- app/breaker.py: what a breaker does over any sequence of calls.
use llm_inference_autoscalin.Base.{
  ℕ, ◌+◌, ◌≤◌, ◌<◌, String, ◌≡◌, refl, ap, ◌∙◌, ◌⊎◌, inl, inr, Bool, true, false, List, [], ◌∷◌,
  map, arith, leb, if◌then◌else◌, Bool-cases, length,
}
use llm_inference_autoscalin.Breaker.{
  BreakerState, closed, open_state, half_open, CircuitBreaker, is_open, allows, retry_after,
  record_success, record_failure, new_breaker,
}

abbrev pub is_closed : BreakerState → Bool
is_closed closed = true
is_closed _ = false

abbrev pub is_half_open : BreakerState → Bool
is_half_open half_open = true
is_half_open _ = false

-- A closed breaker is below its threshold, and the probe is taken exactly when half open.
pub record IsWellFormed (b : CircuitBreaker) : Type 0 where
  pub below : (is_closed b.state ≡ false) ⊎ (b.consecutive_failures < b.failure_threshold)
  pub probe : b.half_open_probe_taken ≡ is_half_open b.state

-- A call of the breaker, with the clock reading it makes.
pub data Call : Type 0 where
  ask : ℕ → Call
  succeed : Call
  fail : ℕ → Call

unfoldable pub after : CircuitBreaker → Call → CircuitBreaker
after b (ask now) = (allows b now).0
after b succeed = record_success b
after b (fail now) = record_failure b now

unfoldable pub after_all : CircuitBreaker → List Call → CircuitBreaker
after_all b [] = b
after_all b (c ∷ cs) = after_all (after b c) cs

allows-threshold :
    (b : CircuitBreaker) (now : ℕ) → (allows b now).0.failure_threshold ≡ b.failure_threshold
unfolding allows
allows-threshold b now = ground arith

allows-IsWellFormed :
    (b : CircuitBreaker) (now : ℕ) → IsWellFormed b → IsWellFormed (allows b now).0
unfolding allows
allows-IsWellFormed b now w = ground arith

success-IsWellFormed :
    (b : CircuitBreaker)
    → 0 < b.failure_threshold
    → IsWellFormed b
    → IsWellFormed (record_success b)
unfolding record_success
success-IsWellFormed b p w = ground arith

failure-IsWellFormed :
    (b : CircuitBreaker) (now : ℕ) → IsWellFormed b → IsWellFormed (record_failure b now)
unfolding record_failure
failure-IsWellFormed b now w = ground arith

after-threshold :
    (b : CircuitBreaker) (c : Call) → (after b c).failure_threshold ≡ b.failure_threshold
unfolding after allows record_success record_failure
after-threshold b (ask now) = ground arith
after-threshold b succeed = ground arith
after-threshold b (fail now) = ground arith

after-IsWellFormed :
    (b : CircuitBreaker) (c : Call)
    → 0 < b.failure_threshold
    → IsWellFormed b
    → IsWellFormed (after b c)
unfolding after
after-IsWellFormed b (ask now) p w = allows-IsWellFormed b now w
after-IsWellFormed b succeed p w = success-IsWellFormed b p w
after-IsWellFormed b (fail now) p w = failure-IsWellFormed b now w

after_all-IsWellFormed :
    (cs : List Call) (b : CircuitBreaker)
    → 0 < b.failure_threshold
    → IsWellFormed b
    → IsWellFormed (after_all b cs)
unfolding after_all
after_all-IsWellFormed [] b p w = w
after_all-IsWellFormed (c ∷ cs) b p w =
    after_all-IsWellFormed cs (after b c) (omega (arith, after-threshold b c))
      (after-IsWellFormed b c p w)

-- Whatever calls a new breaker with a positive threshold receives, it is well formed after
-- them: closed only below its threshold, and the probe mark is set exactly when it is half
-- open. So the branch of `allows` that hands out a probe in the half-open state is never taken.
pub new_breaker-IsWellFormed :
    (name : String) (threshold recovery : ℕ) (cs : List Call)
    → 0 < threshold
    → IsWellFormed (after_all (new_breaker name threshold recovery) cs)
unfolding new_breaker
new_breaker-IsWellFormed name threshold recovery cs p =
    after_all-IsWellFormed cs (new_breaker name threshold recovery) p
      (record { below = inr p; probe = refl })

-- How many of the calls made at these times are let through.
pub count_allowed : CircuitBreaker → List ℕ → ℕ
count_allowed b [] = 0
count_allowed b (t ∷ ts) =
    let (b', allowed) = allows b t in (if allowed then 1 else 0) + count_allowed b' ts

allows-half_open :
    (b : CircuitBreaker) (t : ℕ)
    → b.state ≡ half_open
    → b.half_open_probe_taken ≡ true
    → allows b t ≡ (b, false)
unfolding allows
allows-half_open b t h p = ground arith

-- A breaker whose probe is out lets nothing through and does not change, at any time, until an
-- outcome is recorded: there is no timeout on the probe.
pub count_allowed-half_open :
    (ts : List ℕ) (b : CircuitBreaker)
    → b.state ≡ half_open
    → b.half_open_probe_taken ≡ true
    → (count_allowed b ts ≡ 0) × (after_all b (map ask ts) ≡ b)
unfolding count_allowed after_all after
count_allowed-half_open [] b h p = (refl, refl)
count_allowed-half_open (t ∷ ts) b h p =
    let e = allows-half_open b t h p in
    let ih = count_allowed-half_open ts b h p in
    (rw e (omega (arith, ih.0)), ap (λ r. after_all r.0 (map ask ts)) e ∙ ih.1)

allows-open :
    (b : CircuitBreaker) (t : ℕ)
    → b.state ≡ open_state
    → (allows b t ≡ (b, false))
      ⊎ (((allows b t).1 ≡ true)
          × ((allows b t).0.state ≡ half_open)
          × ((allows b t).0.half_open_probe_taken ≡ true))
unfolding allows
allows-open b t h = ground arith

-- From the moment a breaker opens until an outcome is recorded, at most one call is let through,
-- however many ask and whenever they do.
pub count_allowed-open :
    (ts : List ℕ) (b : CircuitBreaker) → b.state ≡ open_state → count_allowed b ts ≤ 1
unfolding count_allowed
count_allowed-open [] b h = omega arith
count_allowed-open (t ∷ ts) b h = elim (allows-open b t h) [
  | inl denied ↦ rw denied (omega (arith, count_allowed-open ts b h))
  | inr (yes_, s, p) ↦ rw yes_ (omega (arith, (count_allowed-half_open ts (allows b t).0 s p).0))
]

-- An open breaker lets a call through exactly from `retry_after` after the reading on: the
-- client is told the first moment at which the breaker admits a probe.
pub retry_after-exact :
    (b : CircuitBreaker) (now t : ℕ)
    → b.state ≡ open_state
    → now ≤ t
    → (allows b t).1 ≡ leb (now + retry_after b now) t
unfolding allows retry_after
retry_after-exact b now t h p = ground arith

-- The breaker after failures at these times.
pub fail_all : CircuitBreaker → List ℕ → CircuitBreaker
fail_all b ts = after_all b (map fail ts)

failure-open :
    (b : CircuitBreaker) (t : ℕ)
    → b.state ≡ open_state
    → b.failure_threshold ≤ b.consecutive_failures
    → ((record_failure b t).state ≡ open_state)
      × ((record_failure b t).failure_threshold ≤ (record_failure b t).consecutive_failures)
unfolding record_failure
failure-open b t h p = ground arith

fail_all-open :
    (ts : List ℕ) (b : CircuitBreaker)
    → b.state ≡ open_state
    → b.failure_threshold ≤ b.consecutive_failures
    → is_open (fail_all b ts).state ≡ true
unfolding fail_all after_all after
fail_all-open [] b h p = rw h
fail_all-open (t ∷ ts) b h p =
    let k = failure-open b t h p in fail_all-open ts (record_failure b t) k.0 k.1

failure-closed :
    (b : CircuitBreaker) (t : ℕ)
    → b.state ≡ closed
    → ((record_failure b t).failure_threshold ≡ b.failure_threshold)
      × ((record_failure b t).consecutive_failures ≡ b.consecutive_failures + 1)
      × ((record_failure b t).state
          ≡ (if leb b.failure_threshold (b.consecutive_failures + 1) then open_state else closed))
unfolding record_failure
failure-closed b t h = ground arith

-- A closed breaker below its threshold is open after a run of failures exactly when the count
-- of consecutive failures, those before the run included, has reached the threshold.
pub fail_all-opens :
    (ts : List ℕ) (b : CircuitBreaker)
    → b.state ≡ closed
    → b.consecutive_failures < b.failure_threshold
    → is_open (fail_all b ts).state ≡ leb b.failure_threshold (b.consecutive_failures + length ts)
unfolding fail_all after_all after
fail_all-opens [] b h p = rw (h, is_open) (ground arith)
fail_all-opens (t ∷ ts) b h p =
    let b' = record_failure b t in
    let k = failure-closed b t h in
    elim (Bool-cases (leb b.failure_threshold (b.consecutive_failures + 1))) [
      | inl trips ↦ fail_all-open ts b' (rw (k.2, trips)) (ground arith) ∙ ground arith
      | inr stays ↦ fail_all-opens ts b' (rw (k.2, stays)) (ground arith) ∙ ground arith
    ]

-- The probe decides. Of an open breaker that lets a call through: after the call's success it is
-- closed with no failure counted, and lets any further call through; after its failure it is
-- open again, and denies every call until a whole recovery time after the failure.
pub probe-decides :
    (b : CircuitBreaker) (t later ask_at : ℕ)
    → b.state ≡ open_state
    → (allows b t).1 ≡ true
    → ((record_success (allows b t).0).state ≡ closed)
      × ((record_success (allows b t).0).consecutive_failures ≡ 0)
      × ((allows (record_success (allows b t).0) ask_at).1 ≡ true)
      × ((record_failure (allows b t).0 later).state ≡ open_state)
      × ((allows (record_failure (allows b t).0 later) ask_at).1
          ≡ leb (later + b.recovery_timeout) ask_at)
unfolding allows record_success record_failure
probe-decides b t later ask_at h p = ground arith

-- An open breaker whose recovery time is over hands out its probe.
pub allows-due :
    (b : CircuitBreaker) (t : ℕ)
    → b.state ≡ open_state
    → b.opened_at + b.recovery_timeout ≤ t
    → ((allows b t).1 ≡ true)
      × ((allows b t).0.state ≡ half_open)
      × ((allows b t).0.half_open_probe_taken ≡ true)
unfolding allows
allows-due b t h due = ground arith
