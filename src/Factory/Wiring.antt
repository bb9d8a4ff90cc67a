-- ===== src/Factory/Wiring.antt =====
-- app/factory.py and app/service.py: which backends a service is built with.
use llm_inference_autoscalin.Base.{◌≡◌, ◌⊎◌, Bool, true, false, ◌&&◌, Option, none, some}
use llm_inference_autoscalin.Errors.{Error, other_error, Result, returns, throws, value_error}
use llm_inference_autoscalin.Config.Settings.{Settings}
use llm_inference_autoscalin.Factory.{
  Packages, AnyLedger, memory_ledger, redis_ledger, AnyLimiter, token_bucket, redis_limiter, Built,
}

abbrev pub is_redis_ledger : AnyLedger → Bool
is_redis_ledger (memory_ledger l) = false
is_redis_ledger (redis_ledger l) = true

-- Whether there is a limiter, and whether all replicas share it.
abbrev pub is_enabled : Option AnyLimiter → Bool
is_enabled none = false
is_enabled (some l) = true

abbrev pub is_shared : Option AnyLimiter → Bool
is_shared none = false
is_shared (some (token_bucket l)) = false
is_shared (some (redis_limiter l)) = true

-- An exception of a name that is not known, or of a package that is not installed.
abbrev pub IsBuildError : Packages → Error → Type 0
IsBuildError packages e =
    (e ≡ value_error) ⊎ ((e ≡ other_error) × ((packages.httpx && packages.redis) ≡ false))

-- The limits of a service are of one scope, or it is not built.
abbrev pub IsCoherent : Packages → Settings → Result Built → Type 0
IsCoherent packages s (throws e) = IsBuildError packages e
IsCoherent packages s (returns b) =
    (is_enabled b.rate_limiter ≡ s.rate_limit_enabled)
    × (is_shared b.rate_limiter ≡ (s.rate_limit_enabled && is_redis_ledger b.ledger))

-- What is built has a property, or its exception is one of these.
abbrev Yields {ℓ} : {A : Type ℓ} → Packages → (A → Type 0) → Result A → Type 0
Yields packages P (returns a) = P a
Yields packages P (throws e) = IsBuildError packages e

abbrev Any {ℓ} : {A : Type ℓ} → A → Type 0
Any a = Unit
