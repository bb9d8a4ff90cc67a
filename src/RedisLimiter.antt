-- ===== src/RedisLimiter.antt =====
-- app/ratelimit.py: the token bucket that all replicas share. The server's commands are the parameter
-- `R`. Units are those of the in-process bucket, and decimal: a power of ten of ticks makes a second,
-- and one of units a token. So the 14 digits that the script's `tostring` keeps of a number are those
-- of the number in its unit.
use Prim.Native.String.{◌++◌ as ◌<>◌}
use package.text.Mathlib.TextLemmas.{append_cancel_left}
use llm_inference_autoscalin.Base.{
  ℕ, ◌+◌, ◌-◌, ◌*◌, ◌/◌, min, max, String, ◌≡◌, refl, sym, ap, ◌∙◌, ◌≢◌, ◌⊎◌, inl, inr, Bool, true,
  false, Option, none, some, arith, leb, ◌==◌, if◌then◌else◌, Bool-cases, lookup, insert,
  lookup-insert_self, lookup-insert_ne, eq_iff, leb→le, le→not_ltb, lt→ltb, lua_number,
  lua_number-exact, ◌<◌, ◌≤◌,
}
use llm_inference_autoscalin.RateLimit.{
  TokenBucketLimiter, RateLimitExceededError, delay_for, refill, current,
}
use llm_inference_autoscalin.RateLimit
use llm_inference_autoscalin.Redis.{Redis, IsLawful}
use llm_inference_autoscalin.RedisLedger.Calls.{
  Sha, Wire, eval, Ran, answered, lost, untouched, eval-Ran,
}

-- The object: its parameters and the hash of the script that it has loaded.
pub record RedisRateLimiter : Type 0 where
  pub capacity : ℕ
  pub refill_rate : ℕ
  pub namespace : String
  pub sha : Sha

-- `_key`
unfoldable pub key : RedisRateLimiter → String → String
key l user_id = l.namespace <> ":" <> user_id

-- The seconds that an idle bucket is kept; `second` ticks make a second, and `least` is the rate
-- 0.001 in the unit of the tokens for a second.
unfoldable pub ttl : RedisRateLimiter → ℕ → ℕ → ℕ
ttl l second least = max 60 (l.capacity * 2 / max (l.refill_rate * second) least)

abbrev pub or_else : Option ℕ → ℕ → ℕ
or_else none n = n
or_else (some m) n = m

-- The bucket's level in the script, of the fields `tokens` and `ts` that it has read.
abbrev pub level : ℕ → ℕ → Option ℕ × Option ℕ → ℕ → ℕ
level capacity rate (tokens, ts) now =
    min capacity (or_else tokens capacity + (now - or_else ts now) * rate)

module _ (R : Redis) where
  -- `_CONSUME_LUA`, with the allowed flag and the remaining tokens that it returns.
  unfoldable pub consume_script : String → ℕ → ℕ → ℕ → ℕ → ℕ → R.State → R.State × (Bool × ℕ)
  consume_script k now capacity rate cost ttl s =
      let tokens = level capacity rate (R.hmget s k) now in
      if leb cost tokens
      then (
        R.expire (R.hset s k (lua_number (tokens - cost)) (lua_number now)) k ttl,
        (true, lua_number (tokens - cost)),
      )
      else (
        R.expire (R.hset s k (lua_number tokens) (lua_number now)) k ttl,
        (false, lua_number tokens),
      )

  -- What `check` makes of the answer; `none` is a normal return.
  unfoldable pub verdict :
      RedisRateLimiter → String → ℕ → Option (Bool × ℕ) → Option RateLimitExceededError
  verdict l user_id cost none = none
  verdict l user_id cost (some (true, remaining)) = none
  verdict l user_id cost (some (false, remaining)) =
      some (record { user_id = user_id; retry_after = delay_for (cost - remaining) l.refill_rate })

  -- `check`, which lets the call pass where the server fails.
  unfoldable pub check :
      RedisRateLimiter
      → String
      → ℕ
      → ℕ
      → ℕ
      → Wire
      → R.State
      → R.State × RedisRateLimiter × Option RateLimitExceededError
  unfolding verdict
  check l user_id cost now ttl wire s =
      let (s', sha, answer) =
        eval wire l.sha (consume_script (key l user_id) now l.capacity l.refill_rate cost ttl) s in
      (s', record l { sha = sha }, verdict l user_id cost answer)

abbrev pub fields : Option (ℕ × ℕ) → Option ℕ × Option ℕ
fields none = (none, none)
fields (some (tokens, ts)) = (some tokens, some ts)

-- The server's buckets are those of an in-process limiter with the same parameters.
pub record Agrees (R : Redis) (l : RedisRateLimiter) (m : TokenBucketLimiter) (s : R.State)
    : Type 0 where
  pub capacity : m.capacity ≡ l.capacity
  pub refill_rate : m.refill_rate ≡ l.refill_rate
  pub buckets : (u : String) → R.hmget s (key l u) ≡ fields (lookup u m.buckets)

key-ne : (l : RedisRateLimiter) (u v : String) → u ≢ v → key l u ≢ key l v
unfolding key
key-ne l u v ne e =
    ne (append_cancel_left ":" u v (append_cancel_left l.namespace (":" <> u) (":" <> v) e))

level-current :
    (m : TokenBucketLimiter) (u : String) (now : ℕ)
    → level m.capacity m.refill_rate (fields (lookup u m.buckets)) now ≡ current m u now
unfolding current
level-current m u now = by_bucket (lookup u m.buckets)
  where
    by_bucket :
        (o : Option (ℕ × ℕ))
        → level m.capacity m.refill_rate (fields o) now
          ≡ refill m.capacity m.refill_rate (elim o [ none ↦ (m.capacity, now) | some w ↦ w ]) now
    by_bucket none = refl
    by_bucket (some b) = refl

lost_verdict :
    (R : Redis) (l : RedisRateLimiter) (u : String) (cost : ℕ) → verdict R l u cost none ≡ none
unfolding verdict
lost_verdict R l u cost = refl

-- The in-process limiter with another bucket for the user.
abbrev set_bucket : TokenBucketLimiter → String → ℕ → ℕ → TokenBucketLimiter
set_bucket m u tokens ts = record m { buckets = insert u (tokens, ts) m.buckets }

-- What the user's bucket holds.
abbrev pub level_in : String → TokenBucketLimiter → ℕ
level_in u m = elim (lookup u m.buckets) [ none ↦ m.capacity | some b ↦ b.0 ]

-- The in-process limiter with another time in the user's bucket.
abbrev pub stamped : String → ℕ → TokenBucketLimiter → TokenBucketLimiter
stamped u ts m = record m { buckets = insert u (level_in u m, ts) m.buckets }

level_in-set_bucket :
    (u : String) (tokens now : ℕ) (m : TokenBucketLimiter)
    → level_in u (set_bucket m u tokens now) ≡ tokens
level_in-set_bucket u tokens now m =
    ap (λ o. elim o [ none ↦ m.capacity | some b ↦ b.0 ])
      (lookup-insert_self u (tokens, now) m.buckets)

level-le : (capacity rate now : ℕ) (x : Option ℕ × Option ℕ) → level capacity rate x now ≤ capacity
level-le capacity rate now (tokens, ts) = omega arith

module _ (R : Redis) (lawful : IsLawful R) (l : RedisRateLimiter) (u : String) where
  set-Agrees :
      (m : TokenBucketLimiter) (s : R.State) (tokens now ts expiry : ℕ)
      → Agrees R l m s
      → Agrees R l
          (stamped u ts (set_bucket m u tokens now))
          (R.expire (R.hset s (key l u) tokens ts) (key l u) expiry)
  set-Agrees m s tokens now ts expiry a =
      let set = set_bucket m u tokens now in
      record {
        capacity = a.capacity;
        refill_rate = a.refill_rate;
        buckets = λ v.
            lawful.hmget-expire (R.hset s (key l u) tokens ts) (key l u) (key l v) expiry
            ∙ elim (Bool-cases (u == v)) [
              | inl same ↦ rw (← (eq_iff u v).0 same) (
                  lawful.hmget-hset s (key l u) tokens ts
                  ∙ sym (
                      ap fields (lookup-insert_self u (level_in u set, ts) set.buckets)
                      ∙ ap (λ n. (some n, some ts)) (level_in-set_bucket u tokens now m)))
              | inr other ↦
                  let ne : u ≢ v = λ e. ground (arith, eq_iff u v) in
                  lawful.hmget-hset_ne s (key l u) (key l v) tokens ts (key-ne l u v ne)
                  ∙ a.buckets v
                  ∙ sym (
                      ap fields (
                        lookup-insert_ne u v (level_in u set, ts) set.buckets ne
                        ∙ lookup-insert_ne u v (tokens, now) m.buckets ne))
            ];
      }

  -- What the script leaves and answers, next to the in-process limiter's `check`.
  script-Agrees :
      (m : TokenBucketLimiter) (s : R.State) (cost now expiry : ℕ)
      → l.capacity < 100000000000000
      → Agrees R l m s
      → let x = consume_script R (key l u) now l.capacity l.refill_rate cost expiry s in
        let y = RateLimit.check m u cost now in
        Agrees R l (stamped u (lua_number now) y.0) x.0 × (verdict R l u cost (some x.1) ≡ y.1)
  unfolding consume_script verdict RateLimit.check
  script-Agrees m s cost now expiry small a =
      by_level (level l.capacity l.refill_rate (R.hmget s (key l u)) now)
        (omega (arith, level-le l.capacity l.refill_rate now (R.hmget s (key l u))))
        (rw (a.buckets u, ← a.capacity, ← a.refill_rate) (level-current m u now))
    where
      by_level :
          (t : ℕ)
          → t < 100000000000000
          → t ≡ current m u now
          → let x : R.State × (Bool × ℕ) =
              if leb cost t
              then (
                R.expire
                    (R.hset s (key l u) (lua_number (t - cost)) (lua_number now))
                    (key l u)
                    expiry,
                (true, lua_number (t - cost)),
              )
              else (
                R.expire (R.hset s (key l u) (lua_number t) (lua_number now)) (key l u) expiry,
                (false, lua_number t),
              ) in
            let y = RateLimit.check m u cost now in
            Agrees R l (stamped u (lua_number now) y.0) x.0 × (verdict R l u cost (some x.1) ≡ y.1)
      by_level t h e = elim (Bool-cases (leb cost t)) [
        | inl enough ↦
            rw
              (
                enough,
                RateLimit.check,
                ← e,
                le→not_ltb t cost (leb→le cost t enough),
                lua_number-exact (t - cost) (omega arith),
              )
              (set-Agrees m s (t - cost) now (lua_number now) expiry a, refl)
        | inr short ↦
            rw (short, RateLimit.check, ← e, lt→ltb t cost (ground arith), lua_number-exact t h)
              (
                set-Agrees m s t now (lua_number now) expiry a,
                ap (λ rate. some (record { user_id = u; retry_after = delay_for (cost - t) rate }))
                    (sym a.refill_rate),
              )
      ]

  -- The shared limiter refines the in-process one, and fails open. From a server whose buckets are
  -- those of an in-process limiter with the same parameters, whatever becomes of a call by a replica,
  -- if the capacity has at most 14 digits: it ends as the in-process call does and leaves the buckets
  -- that that leaves, but with the time in the user's bucket rounded to 14 digits; or it gets no answer
  -- and passes, and the buckets are as they were, or those that an answered call leaves. This is of
  -- one call: that an idle bucket expires between calls is left out.
  pub check-Agrees :
      (m : TokenBucketLimiter) (s : R.State) (cost now expiry : ℕ) (w : Wire)
      → l.capacity < 100000000000000
      → Agrees R l m s
      → let x = check R l u cost now expiry w s in
        let y = RateLimit.check m u cost now in
        let left = stamped u (lua_number now) y.0 in
        ((x.2 ≡ y.1) × Agrees R l left x.0)
        ⊎ ((x.2 ≡ none) × (Agrees R l m x.0 ⊎ Agrees R l left x.0))
  unfolding check
  check-Agrees m s cost now expiry w small a =
      by_run (eval-Ran _ s w l.sha) (script-Agrees m s cost now expiry small a)
    where
      by_run :
          {script : R.State → R.State × (Bool × ℕ)} {t : R.State} {answer : Option (Bool × ℕ)}
          → Ran script s t answer
          → let y = RateLimit.check m u cost now in
            let left = stamped u (lua_number now) y.0 in
            Agrees R l left (script s).0 × (verdict R l u cost (some (script s).1) ≡ y.1)
            → ((verdict R l u cost answer ≡ y.1) × Agrees R l left t)
              ⊎ ((verdict R l u cost answer ≡ none) × (Agrees R l m t ⊎ Agrees R l left t))
      by_run answered (leaves, ends) = inl (ends, leaves)
      by_run lost (leaves, ends) = inr (lost_verdict R l u cost, inr leaves)
      by_run untouched (leaves, ends) = inr (lost_verdict R l u cost, inl a)
