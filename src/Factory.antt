-- ===== src/Factory.antt =====
-- app/factory.py and the constructor of InferenceService in app/service.py: how the settings become a
-- service. Where a client connects to, and with which timeouts, is left out. A RuntimeError or an
-- ImportError of a package that is not installed is `other_error`.
pub mod Wiring
use llm_inference_autoscalin.Base.{
  ℕ, ◌*◌, ◌/◌, String, Bool, true, false, Option, none, some, [], not, ◌==◌, if◌then◌else◌,
}
use llm_inference_autoscalin.Errors.{Result, returns, throws, value_error, other_error, ◌>>=◌}
use llm_inference_autoscalin.Config.Settings.{Environment, Settings}
use llm_inference_autoscalin.Providers.Mock.{MockProvider}
use llm_inference_autoscalin.Providers.Vllm.{VllmProvider}
use llm_inference_autoscalin.Ledger.{Ledger}
use llm_inference_autoscalin.RedisLedger.{RedisLedger}
use llm_inference_autoscalin.Cache
use llm_inference_autoscalin.Cache.{InMemoryCache}
use llm_inference_autoscalin.RedisCache.{RedisCache}
use llm_inference_autoscalin.RateLimit.{TokenBucketLimiter}
use llm_inference_autoscalin.RedisLimiter.{RedisRateLimiter}
use llm_inference_autoscalin.Autoscaler
use llm_inference_autoscalin.Autoscaler.{Autoscaler, ScalingSettings}
use llm_inference_autoscalin.Gate
use llm_inference_autoscalin.Gate.{CapacityGate}
use llm_inference_autoscalin.Breaker.Registry
use llm_inference_autoscalin.Breaker.Registry.{BreakerRegistry}
use llm_inference_autoscalin.Service.Scaling.{capacity_for}

pub data Provider : Type 0 where
  mock : MockProvider → Provider
  vllm : VllmProvider → Provider

pub data AnyLedger : Type 0 where
  memory_ledger : Ledger → AnyLedger
  redis_ledger : RedisLedger → AnyLedger

pub data AnyCache : Type 0 where
  memory_cache : InMemoryCache → AnyCache
  redis_cache : RedisCache → AnyCache

pub data AnyLimiter : Type 0 where
  token_bucket : TokenBucketLimiter → AnyLimiter
  redis_limiter : RedisRateLimiter → AnyLimiter

-- The attributes that the constructor of InferenceService sets, but for the metrics, which start at
-- zero.
pub record Built : Type 0 where
  pub provider : Provider
  pub ledger : AnyLedger
  pub cache : Option AnyCache
  pub rate_limiter : Option AnyLimiter
  pub autoscaler : Autoscaler
  pub gate : CapacityGate
  pub breakers : BreakerRegistry

-- Which of the optional packages are installed.
pub record Packages : Type 0 where
  pub httpx : Bool
  pub redis : Bool

-- What is built with a package that has to be installed.
abbrev pub requiring {ℓ} : {A : Type ℓ} → Bool → A → Result A
requiring true a = returns a
requiring false a = throws other_error

-- `second` ticks make a second.
module _ (env : Environment) (packages : Packages) (second : ℕ) where
  -- `(raw or default).strip().lower()`
  unfoldable pub backend : String → String → String
  backend raw default = env.lower (env.strip (if raw == "" then default else raw))

  unfoldable pub build_provider : Settings → Result Provider
  build_provider s =
      let name = backend s.provider_backend "mock" in
      if name == "mock"
      then returns (
          mock (record {
            chars_per_token = s.chars_per_token;
            fail_after_chunks = none;
            raise_error = none;
            chunk_chars = 12;
          }))
      else if name == "vllm"
      then requiring packages.httpx (
          vllm (record {
            api_key = s.vllm_api_key;
            model_map = s.vllm_model_map;
            max_retries = s.vllm_max_retries;
            backoff_base = second / 2;
            chars_per_token = s.chars_per_token;
          }))
      else throws value_error

  abbrev pub day : ℕ
  day = 24 * 3600 * second

  -- `Ledger()`, and a RedisLedger with its defaults.
  abbrev pub new_ledger : AnyLedger
  new_ledger = memory_ledger (record { window = day; spend = []; records = [] })

  abbrev pub new_redis_ledger : Settings → AnyLedger
  new_redis_ledger s = redis_ledger (record {
    window = day;
    namespace = "llm";
    fail_closed = s.redis_fail_closed;
    max_records = 1000;
    reserve_sha = none;
    settle_sha = none;
    release_sha = none;
    local_records = [];
  })

  unfoldable pub build_ledger : Settings → Result AnyLedger
  build_ledger s =
      let name = backend s.ledger_backend "memory" in
      if name == "memory"
      then returns new_ledger
      else if name == "redis"
      then requiring packages.redis (new_redis_ledger s)
      else throws value_error

  unfoldable pub build_cache : Settings → Result (Option AnyCache)
  build_cache s =
      let name = backend s.cache_backend "memory" in
      if name == "none"
      then returns none
      else if name == "memory"
      then returns (some (memory_cache (Cache.init s.cache_max_entries)))
      else if name == "redis"
      then requiring packages.redis
          (some (redis_cache (record { namespace = "llm:cache"; hits = 0; misses = 0 })))
      else throws value_error

  abbrev pub bucket : Settings → TokenBucketLimiter
  bucket s = record {
    capacity = s.rate_limit_burst;
    refill_rate = s.rate_limit_per_second / second;
    buckets = [];
  }

  unfoldable pub build_rate_limiter : Settings → Result (Option AnyLimiter)
  build_rate_limiter s =
      if not s.rate_limit_enabled
      then returns none
      else if backend s.ledger_backend "" == "redis"
      then requiring packages.redis (
          some (
            redis_limiter (record {
              capacity = s.rate_limit_burst;
              refill_rate = s.rate_limit_per_second / second;
              namespace = "llm:rl";
              sha = none;
            })))
      else returns (some (token_bucket (bucket s)))

  abbrev pub scaling : Settings → ScalingSettings
  scaling s = record {
    min_replicas = s.min_replicas;
    max_replicas = s.max_replicas;
    target_concurrency = s.target_concurrency;
    scale_up_cooldown = s.scale_up_cooldown;
    scale_down_cooldown = s.scale_down_cooldown;
  }

  -- `if cache is None and self.settings.cache_backend != "none"`
  unfoldable pub cache_or_default : Settings → Option AnyCache → Option AnyCache
  cache_or_default s (some c) = some c
  cache_or_default s none =
      if s.cache_backend == "none"
      then none
      else some (memory_cache (Cache.init s.cache_max_entries))

  -- `if rate_limiter is None and self.settings.rate_limit_enabled`
  unfoldable pub limiter_or_default : Settings → Option AnyLimiter → Option AnyLimiter
  limiter_or_default s (some l) = some l
  limiter_or_default s none = if s.rate_limit_enabled then some (token_bucket (bucket s)) else none

  -- `InferenceService.__init__`
  unfoldable pub new_service :
      Settings → Provider → AnyLedger → Option AnyCache → Option AnyLimiter → Built
  new_service s provider ledger cache limiter =
      let autoscaler = Autoscaler.init (scaling s) in
      record {
        provider = provider;
        ledger = ledger;
        cache = cache_or_default s cache;
        rate_limiter = limiter_or_default s limiter;
        autoscaler = autoscaler;
        gate = Gate.init (capacity_for (scaling s) autoscaler.current);
        breakers = Registry.init s.breaker_failure_threshold s.breaker_recovery_timeout;
      }

  unfoldable pub build_service : Settings → Result Built
  build_service s = build_provider s >>= λ provider. build_ledger s >>= λ ledger.
      build_cache s >>= λ cache.
      build_rate_limiter s >>= λ limiter. returns (new_service s provider ledger cache limiter)
