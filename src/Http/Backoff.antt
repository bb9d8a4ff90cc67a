-- ===== src/Http/Backoff.antt =====
-- app/main.py with app/ratelimit.py and app/breaker.py: the `retry-after` header that reaches the
-- client.
use llm_inference_autoscalin.Base.{
  ℕ, ◌+◌, ◌-◌, ◌*◌, ◌/◌, ◌≤◌, ◌<◌, String, ◌≡◌, ap, ◌∙◌, true, false, none, some, arith, le→leb,
}
use native.Mathlib.Nat.{lt-mul-div-succ, mul-pos}
use llm_inference_autoscalin.RateLimit.{
  RateLimitExceededError, TokenBucketLimiter, quotient, current, check,
}
use llm_inference_autoscalin.RateLimit.Retry.{refused, check-again}
use llm_inference_autoscalin.Breaker
use llm_inference_autoscalin.Breaker.{
  CircuitBreaker, CircuitOpenError, open_state, allows, retry_after,
}
use llm_inference_autoscalin.Breaker.Life.{retry_after-exact}
use llm_inference_autoscalin.Service.State.{InferenceResult, rate_limited, circuit_open}
use llm_inference_autoscalin.Http.{
  http, retry_seconds, headers_for, as_http, exception_of, status_for, first_match,
}

regroup : (q second den : ℕ) → q * second * den ≡ den * second * q
regroup q second den = grind arith

-- The whole seconds of the header cover the delay.
seconds-cover :
    (second num den : ℕ)
    → 0 < second
    → 0 < den
    → (secs : ℕ) × (retry_seconds second (quotient num den) ≡ some secs)
      × (num ≤ secs * second * den)
unfolding retry_seconds
seconds-cover second num den p d = (
  num / (den * second) + 1,
  ap some (omega arith),
  omega (arith, lt-mul-div-succ num (mul-pos d p), regroup (num / (den * second) + 1) second den),
)

-- The client that waits as long as it is told is served. A call that finds too few tokens becomes a
-- 429 whose `retry-after` header has whole seconds, and the same call made that many seconds later
-- passes, if the cost is within the capacity, the rate is positive and a second has ticks.
pub as_http-retry_later :
    (second : ℕ) (l : TokenBucketLimiter) (u : String) (cost now : ℕ)
    → 0 < second
    → current l u now < cost
    → cost ≤ l.capacity
    → 0 < l.refill_rate
    → (e : RateLimitExceededError) × (secs : ℕ) × ((check l u cost now).1 ≡ some e)
      × (as_http {A = InferenceResult} second (exception_of (rate_limited e))
          ≡ http 429 (some secs))
      × ((check (check l u cost now).0 u cost (now + secs * second)).1 ≡ none)
unfolding as_http exception_of headers_for status_for first_match
as_http-retry_later second l u cost now p short fits q =
    let missing = cost - current l u now in
    let (secs, told, covers) = seconds-cover second missing l.refill_rate p q in
    (
      record { user_id = u; retry_after = quotient missing l.refill_rate },
      secs,
      refused l u cost now short q,
      ap (http 429) told,
      (check-again l u cost now (secs * second) short fits).1 covers,
    )

check-denied :
    (b : CircuitBreaker) (now later : ℕ)
    → b.state ≡ open_state
    → (allows b now).1 ≡ false
    → Breaker.check b now later
      ≡ (b, some (record { name = b.name; retry_after_s = retry_after b later }))
unfolding Breaker.check allows
check-denied b now later h denied = ground arith

-- The same of an open breaker: the call that it refuses becomes a 503 whose `retry-after` header has
-- whole seconds, and a call made that many seconds after the error's reading of the clock gets the
-- probe.
pub as_http-probe_later :
    (second : ℕ) (b : CircuitBreaker) (now later : ℕ)
    → 0 < second
    → b.state ≡ open_state
    → (allows b now).1 ≡ false
    → (e : CircuitOpenError) × (secs : ℕ) × (Breaker.check b now later ≡ (b, some e))
      × (as_http {A = InferenceResult} second (exception_of (circuit_open e))
          ≡ http 503 (some secs))
      × ((allows b (later + secs * second)).1 ≡ true)
unfolding as_http exception_of headers_for status_for first_match
as_http-probe_later second b now later p h denied =
    let (secs, told, covers) = seconds-cover second (retry_after b later) 1 p (omega arith) in
    let again = retry_after-exact b later (later + secs * second) h (omega arith) in
    (
      record { name = b.name; retry_after_s = retry_after b later },
      secs,
      check-denied b now later h denied,
      ap (http 503) told,
      again ∙ le→leb (later + retry_after b later) (later + secs * second) (omega arith),
    )
