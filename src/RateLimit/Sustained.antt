-- ===== src/RateLimit/Sustained.antt =====
-- app/ratelimit.py: the bound on what one user is granted over time.
use llm_inference_autoscalin.Base.{
  ℕ, ◌+◌, ◌-◌, ◌*◌, ◌≤◌, String, ◌≡◌, ap, ◌≢◌, inl, inr, Bool, true, false, not, ◌&&◌, none, some,
  List, [], ◌∷◌, arith, eq_iff, eq_refl, ltb, ◌==◌, if◌then◌else◌, ne→neb, Bool-cases, Option-cases,
  lookup,
}
use native.Mathlib.Nat.{add-mul}
use llm_inference_autoscalin.RateLimit.{
  TokenBucketLimiter, current, check, refill, current-check_self, current-check_ne, current-fresh,
  current-found, check-capacity,
}

-- A call of `check`: the user, the cost and the clock reading.
pub record Request : Type 0 where
  pub user_id : String
  pub cost : ℕ
  pub at : ℕ

-- The calls come at times that never go back, the first at `t` or later.
abbrev pub InOrder : ℕ → List Request → Type 0
InOrder t [] = Unit
InOrder t (r ∷ rs) = (t ≤ r.at) × InOrder r.at rs

abbrev pub last_time : ℕ → List Request → ℕ
last_time t [] = t
last_time t (r ∷ rs) = last_time r.at rs

abbrev pub granted : Bool → Request → String → ℕ
granted passed r user_id = if passed && (r.user_id == user_id) then r.cost else 0

abbrev pub passes : TokenBucketLimiter → Request → Bool
passes l r = elim (check l r.user_id r.cost r.at).1 [ none ↦ true | some _ ↦ false ]

-- The sum of the costs that the user was granted over the calls.
unfoldable pub admitted : String → TokenBucketLimiter → List Request → ℕ
admitted u l [] = 0
admitted u l (r ∷ rs) = granted (passes l r) r u + admitted u (check l r.user_id r.cost r.at).0 rs

mul_mono : (a b c : ℕ) → a ≤ b → a * c ≤ b * c
mul_mono a b c h = grind arith

refill-grows :
    (cap rate : ℕ) (b : ℕ × ℕ) (t t' : ℕ)
    → t ≤ t'
    → refill cap rate b t' ≤ refill cap rate b t + (t' - t) * rate
refill-grows cap rate (tokens, last) t t' h =
    let k = mul_mono (t' - last) ((t - last) + (t' - t)) rate (omega arith) in
    omega (arith, k, add-mul (t - last) (t' - t) rate)

current-grows :
    (l : TokenBucketLimiter) (u : String) (t t' : ℕ)
    → t ≤ t'
    → current l u t' ≤ current l u t + (t' - t) * l.refill_rate
current-grows l u t t' h = elim (Option-cases (lookup u l.buckets)) [
  | inl fresh ↦ omega (arith, current-fresh l u t fresh, current-fresh l u t' fresh)
  | inr (b, found) ↦ omega (
    arith,
    current-found l u b t found,
    current-found l u b t' found,
    refill-grows l.capacity l.refill_rate b t t' h,
  )
]

passes_lem :
    (l : TokenBucketLimiter) (r : Request)
    → passes l r ≡ not (ltb (current l r.user_id r.at) r.cost)
unfolding check
passes_lem l r = ground arith

-- The caller's own level pays for what the call grants.
check-pays_self :
    (l : TokenBucketLimiter) (r : Request)
    → granted (passes l r) r r.user_id + current (check l r.user_id r.cost r.at).0 r.user_id r.at
      ≤ current l r.user_id r.at
check-pays_self l r =
    rw (passes_lem l r)
      (rw (eq_refl r.user_id) (rw (current-check_self l r.user_id r.cost r.at r.at) (ground arith)))

check-pays_ne :
    (l : TokenBucketLimiter) (r : Request) (u : String)
    → r.user_id ≢ u
    → granted (passes l r) r u + current (check l r.user_id r.cost r.at).0 u r.at ≤ current l u r.at
check-pays_ne l r u h =
    rw (ne→neb r.user_id u h)
      (rw (current-check_ne l r.user_id u r.cost r.at r.at h) (ground arith))

-- One call: what it grants and what it leaves come out of the level before it.
check-pays :
    (l : TokenBucketLimiter) (r : Request) (u : String)
    → granted (passes l r) r u + current (check l r.user_id r.cost r.at).0 u r.at ≤ current l u r.at
check-pays l r u = elim (Bool-cases (r.user_id == u)) [
  | inl same ↦ let e = (eq_iff r.user_id u).0 same in rw (← e) (check-pays_self l r)
  | inr other ↦ check-pays_ne l r u (λ e. ground (arith, eq_iff r.user_id u))
]

last_time-le : (t : ℕ) (rs : List Request) → InOrder t rs → t ≤ last_time t rs
last_time-le t [] h = omega arith
last_time-le t (r ∷ rs) h = omega (arith, last_time-le r.at rs h.1)

split_time : (a b c : ℕ) → a ≤ b → b ≤ c → (b - a) + (c - b) ≡ c - a
split_time a b c h k = omega arith

-- Over any calls in order of time, of this user and of others, the user is granted at most the
-- tokens that the user's bucket held at the start and what the refill rate adds by the last call.
pub admitted-le :
    (rs : List Request) (l : TokenBucketLimiter) (u : String) (t : ℕ)
    → InOrder t rs
    → admitted u l rs ≤ current l u t + (last_time t rs - t) * l.refill_rate
unfolding admitted
admitted-le [] l u t h = omega arith
admitted-le (r ∷ rs) l u t h =
    let l' = (check l r.user_id r.cost r.at).0 in
    let end = last_time r.at rs in
    omega (
      arith,
      rw (check-capacity l r.user_id r.cost r.at).1 at (admitted-le rs l' u r.at h.1),
      check-pays l r u,
      current-grows l u t r.at h.0,
      add-mul (r.at - t) (end - r.at) l.refill_rate,
      ap (λ (n : ℕ). n * l.refill_rate) (split_time t r.at end h.0 (last_time-le r.at rs h.1)),
    )
