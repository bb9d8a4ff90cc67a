-- ===== src/RateLimit/Retry.antt =====
-- app/ratelimit.py: what a refused call costs, and how good the `Retry-After` that it sends is.
use llm_inference_autoscalin.Base.{
  ℕ, ◌+◌, ◌-◌, ◌*◌, ◌≤◌, ◌<◌, min, String, ◌≡◌, ap, ◌∙◌, ◌↔◌, inl, inr, none, some, arith, lt→ltb,
  Option-cases, lookup,
}
use native.Mathlib.Nat.{add-mul}
use llm_inference_autoscalin.RateLimit.{
  TokenBucketLimiter, quotient, delay_for, current, check, refill, current-check_self,
  current-fresh, current-found,
}

-- The user's bucket was last refilled at `now` or before: the clock has not gone back.
abbrev pub IsSettled : TokenBucketLimiter → String → ℕ → Type 0
IsSettled l u now = (b : ℕ × ℕ) → lookup u l.buckets ≡ some b → b.1 ≤ now

refill-again :
    (cap rate tokens last now t : ℕ)
    → last ≤ now
    → now ≤ t
    → refill cap rate (refill cap rate (tokens, last) now, now) t ≡ refill cap rate (tokens, last) t
refill-again cap rate tokens last now t h k =
    omega (arith, add-mul (now - last) (t - now) rate, ap (λ (n : ℕ). n * rate) (split now))
  where
    split : (m : ℕ) → (now - last) + (t - now) ≡ t - last
    split m = omega arith

-- A refused call is free: if the caller's bucket was last refilled no later than the call, the
-- caller's level, read at any later time, is what it would have been without the call.
pub current-check_refused :
    (l : TokenBucketLimiter) (u : String) (cost now t : ℕ)
    → IsSettled l u now
    → current l u now < cost
    → now ≤ t
    → current (check l u cost now).0 u t ≡ current l u t
current-check_refused l u cost now t s short k = elim (Option-cases (lookup u l.buckets)) [
  | inl fresh ↦
      current-check_self l u cost now t
      ∙ rw (lt→ltb (current l u now) cost short)
          (omega (arith, current-fresh l u now fresh, current-fresh l u t fresh))
  | inr (b, found) ↦
      current-check_self l u cost now t
      ∙ rw (lt→ltb (current l u now) cost short) (
          rw (current-found l u b now found, current-found l u b t found)
            (refill-again l.capacity l.refill_rate b.0 b.1 now t (s b found) k))
]

check-passes :
    (l : TokenBucketLimiter) (u : String) (cost now : ℕ)
    → ((check l u cost now).1 ≡ none) ↔ (cost ≤ current l u now)
unfolding check
check-passes l u cost now = ground arith

pub refused :
    (l : TokenBucketLimiter) (u : String) (cost now : ℕ)
    → current l u now < cost
    → 0 < l.refill_rate
    → (check l u cost now).1
      ≡ some (record { user_id = u; retry_after = quotient (cost - current l u now) l.refill_rate })
unfolding check delay_for
refused l u cost now short p = ground arith

level_again :
    (l : TokenBucketLimiter) (u : String) (cost now wait : ℕ)
    → current l u now < cost
    → current (check l u cost now).0 u (now + wait)
      ≡ min l.capacity (current l u now + wait * l.refill_rate)
level_again l u cost now wait short =
    current-check_self l u cost now (now + wait)
    ∙ rw (lt→ltb (current l u now) cost short)
        (ap (λ (n : ℕ). min l.capacity (current l u now + n * l.refill_rate)) (omega arith))

-- The same call passes once the bucket has refilled by what was missing.
pub check-again :
    (l : TokenBucketLimiter) (u : String) (cost now wait : ℕ)
    → current l u now < cost
    → cost ≤ l.capacity
    → ((check (check l u cost now).0 u cost (now + wait)).1 ≡ none)
      ↔ (cost - current l u now ≤ wait * l.refill_rate)
check-again l u cost now wait short fits = (
  λ e. omega (
    arith,
    level_again l u cost now wait short,
    (check-passes (check l u cost now).0 u cost (now + wait)).0 e,
  ),
  λ h.
      (check-passes (check l u cost now).0 u cost (now + wait)).1
        (omega (arith, level_again l u cost now wait short)),
)

-- The answer to a call that finds too few tokens is exact. If the cost is within the capacity and the rate is
-- positive, the call carries a quotient `num / den`, and the same call made `wait` ticks later
-- passes exactly when `wait` is at least that quotient.
pub check-retry_after :
    (l : TokenBucketLimiter) (u : String) (cost now wait : ℕ)
    → current l u now < cost
    → cost ≤ l.capacity
    → 0 < l.refill_rate
    → (num : ℕ) × (den : ℕ) × ((check l u cost now).1
        ≡ some (record { user_id = u; retry_after = quotient num den }))
      × (0 < den)
      × (((check (check l u cost now).0 u cost (now + wait)).1 ≡ none) ↔ (num ≤ wait * den))
check-retry_after l u cost now wait short fits p = (
  cost - current l u now,
  l.refill_rate,
  refused l u cost now short p,
  p,
  check-again l u cost now wait short fits,
)
