-- ===== src/RateLimit.antt =====
-- app/ratelimit.py: the in-process token bucket. Times are in ticks, tokens in a unit fine enough
-- for the settings to be whole, and the refill rate in such units per tick: exact where the
-- source computes with floats. A clock reading is an argument.
pub mod Sustained
pub mod Retry
use llm_inference_autoscalin.Base.{
  ℕ, ◌+◌, ◌-◌, ◌*◌, min, String, ◌≡◌, refl, ◌≢◌, inl, inr, Option, none, some, arith, ltb,
  if◌then◌else◌, Bool-cases, Dict, lookup, insert, erase, lookup_or, lookup-insert_self,
  lookup-insert_ne,
}

-- A time to wait: `num / den` ticks, or `float("inf")`.
pub data Delay : Type 0 where
  quotient : ℕ → ℕ → Delay
  infinite : Delay

-- `RateLimitExceededError(user_id, retry_after_s)`
pub record RateLimitExceededError : Type 0 where
  pub user_id : String
  pub retry_after : Delay

-- A bucket is the tokens left and the time of the last refill.
pub record TokenBucketLimiter : Type 0 where
  pub capacity : ℕ
  pub refill_rate : ℕ
  pub buckets : Dict (ℕ × ℕ)

-- `max(0.0, now - last)` is the subtraction on ℕ.
abbrev pub refill : ℕ → ℕ → ℕ × ℕ → ℕ → ℕ
refill cap rate (tokens, last) now = min cap (tokens + (now - last) * rate)

-- `_current`
unfoldable pub current : TokenBucketLimiter → String → ℕ → ℕ
current l user_id now =
    refill l.capacity l.refill_rate (lookup_or user_id (l.capacity, now) l.buckets) now

unfoldable pub delay_for : ℕ → ℕ → Delay
delay_for deficit rate = if ltb 0 rate then quotient deficit rate else infinite

-- `check`; `none` is a normal return.
unfoldable pub check :
    TokenBucketLimiter → String → ℕ → ℕ → TokenBucketLimiter × Option RateLimitExceededError
unfolding delay_for
check l user_id cost now =
    let available = current l user_id now in
    if ltb available cost
    then (
      record l { buckets = insert user_id (available, now) l.buckets },
      some (record { user_id = user_id; retry_after = delay_for (cost - available) l.refill_rate }),
    )
    else (record l { buckets = insert user_id (available - cost, now) l.buckets }, none)

unfoldable pub tokens_remaining : TokenBucketLimiter → String → ℕ → ℕ
tokens_remaining l user_id now = current l user_id now

unfoldable pub reset : TokenBucketLimiter → String → TokenBucketLimiter
reset l user_id = record l { buckets = erase user_id l.buckets }

-- What a call leaves in the user's own bucket, on either branch.
abbrev pub spend : ℕ → ℕ → ℕ
spend available cost = if ltb available cost then available else available - cost

pub check-buckets :
    (l : TokenBucketLimiter) (user_id : String) (cost now : ℕ)
    → (check l user_id cost now).0
      ≡ record l { buckets = insert user_id (spend (current l user_id now) cost, now) l.buckets }
unfolding check
check-buckets l user_id cost now = elim (Bool-cases (ltb (current l user_id now) cost)) [
  | inl short ↦ rw short
  | inr enough ↦ rw enough
]

current-insert_self :
    (l : TokenBucketLimiter) (user_id : String) (b : ℕ × ℕ) (t : ℕ)
    → current (record l { buckets = insert user_id b l.buckets }) user_id t
      ≡ refill l.capacity l.refill_rate b t
unfolding current
current-insert_self l user_id b t = ground (arith, lookup-insert_self user_id b l.buckets)

current-insert_ne :
    (l : TokenBucketLimiter) (user_id other : String) (b : ℕ × ℕ) (t : ℕ)
    → user_id ≢ other
    → current (record l { buckets = insert user_id b l.buckets }) other t ≡ current l other t
unfolding current
current-insert_ne l user_id other b t h =
    ground (arith, lookup-insert_ne user_id other b l.buckets h)

-- After a call the caller's level, read at any time, is that of what it left.
pub current-check_self :
    (l : TokenBucketLimiter) (user_id : String) (cost now t : ℕ)
    → current (check l user_id cost now).0 user_id t
      ≡ refill l.capacity l.refill_rate (spend (current l user_id now) cost, now) t
current-check_self l user_id cost now t =
    rw check-buckets (current-insert_self l user_id (spend (current l user_id now) cost, now) t)

-- A call leaves the level of every other user alone, at any time.
pub current-check_ne :
    (l : TokenBucketLimiter) (user_id other : String) (cost now t : ℕ)
    → user_id ≢ other
    → current (check l user_id cost now).0 other t ≡ current l other t
current-check_ne l user_id other cost now t h =
    rw check-buckets
      (current-insert_ne l user_id other (spend (current l user_id now) cost, now) t h)

pub check-capacity :
    (l : TokenBucketLimiter) (user_id : String) (cost now : ℕ)
    → ((check l user_id cost now).0.capacity ≡ l.capacity)
      × ((check l user_id cost now).0.refill_rate ≡ l.refill_rate)
check-capacity l user_id cost now = rw check-buckets (refl, refl)

-- A user with no bucket has a full one.
pub current-fresh :
    (l : TokenBucketLimiter) (user_id : String) (now : ℕ)
    → lookup user_id l.buckets ≡ none
    → current l user_id now ≡ l.capacity
unfolding current
current-fresh l user_id now h = ground (arith)

pub current-found :
    (l : TokenBucketLimiter) (user_id : String) (b : ℕ × ℕ) (now : ℕ)
    → lookup user_id l.buckets ≡ some b
    → current l user_id now ≡ refill l.capacity l.refill_rate b now
unfolding current
current-found l user_id b now h = ground (arith)
