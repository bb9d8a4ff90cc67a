-- ===== src/Config/Settings.antt =====
-- app/config.py: the settings, their defaults, and how the environment overrides them. Money is in
-- pico-dollars; `second` ticks make a second; `token` is one token of the rate limiter in its unit.
pub mod Reading
use llm_inference_autoscalin.Base.{
  ℕ, ◌*◌, String, Bool, true, ◌||◌, Option, none, some, List, [], ◌∷◌, ◌==◌, if◌then◌else◌, Dict,
  insert,
}
use llm_inference_autoscalin.Errors.{Result, returns, throws, value_error, ◌>>=◌}
use llm_inference_autoscalin.Config.{ModelSpec, default_catalog}

-- The fields of `Settings` but for `reject_when_over_budget`, which nothing reads.
pub record Settings : Type 0 where
  pub default_request_budget : ℕ
  pub default_user_daily_budget : ℕ
  pub min_replicas : ℕ
  pub max_replicas : ℕ
  pub target_concurrency : ℕ
  pub scale_down_cooldown : ℕ
  pub scale_up_cooldown : ℕ
  pub provider_backend : String
  pub vllm_base_url : String
  pub vllm_api_key : Option String
  pub vllm_model_map : Dict String
  pub vllm_read_timeout : ℕ
  pub vllm_connect_timeout : ℕ
  pub vllm_max_retries : ℕ
  pub ledger_backend : String
  pub redis_url : String
  pub redis_fail_closed : Bool
  pub cache_backend : String
  pub cache_ttl : ℕ
  pub cache_max_entries : ℕ
  pub admission_timeout : ℕ
  pub rate_limit_enabled : Bool
  pub rate_limit_burst : ℕ
  pub rate_limit_per_second : ℕ
  pub breaker_failure_threshold : ℕ
  pub breaker_recovery_timeout : ℕ
  pub fallback_enabled : Bool
  pub default_max_output_tokens : ℕ
  -- in thousandths of a character
  pub chars_per_token : ℕ
  pub catalog : List ModelSpec

-- The environment, and what the code takes from Python's text: `float` and `int`, which raise
-- ValueError at `none`, the former of a value in so many parts; `strip` and `lower`; `split(",")`;
-- and `partition("=")`, which is `none` where there is no such character.
pub record Environment : Type 0 where
  pub getenv : String → Option String
  pub float_of : ℕ → String → Option ℕ
  pub int_of : String → Option ℕ
  pub strip : String → String
  pub lower : String → String
  pub split : String → List String
  pub partition : String → Option (String × String)

abbrev pub money : ℕ
money = 1000000000000

-- The defaults of the dataclass.
unfoldable pub defaults : ℕ → ℕ → Settings
defaults second token = record {
  default_request_budget = 500000000000;
  default_user_daily_budget = 25000000000000;
  min_replicas = 1;
  max_replicas = 20;
  target_concurrency = 4000;
  scale_down_cooldown = 60 * second;
  scale_up_cooldown = 10 * second;
  provider_backend = "mock";
  vllm_base_url = "http://localhost:8000";
  vllm_api_key = none;
  vllm_model_map = [];
  vllm_read_timeout = 120 * second;
  vllm_connect_timeout = 5 * second;
  vllm_max_retries = 3;
  ledger_backend = "memory";
  redis_url = "redis://localhost:6379/0";
  redis_fail_closed = true;
  cache_backend = "memory";
  cache_ttl = 300 * second;
  cache_max_entries = 1024;
  admission_timeout = 30 * second;
  rate_limit_enabled = true;
  rate_limit_burst = 20 * token;
  rate_limit_per_second = 5 * token;
  breaker_failure_threshold = 5;
  breaker_recovery_timeout = 30 * second;
  fallback_enabled = true;
  default_max_output_tokens = 512;
  chars_per_token = 4000;
  catalog = default_catalog;
}

abbrev or_raise : Option ℕ → Result ℕ
or_raise none = throws value_error
or_raise (some n) = returns n

abbrev pub is_yes : String → Bool
is_yes s = s == "1" || s == "true" || s == "yes" || s == "on"

module _ (env : Environment) where
  -- `_f`, of a default in the same parts
  unfoldable pub float_var : ℕ → String → ℕ → Result ℕ
  float_var parts key default = elim (env.getenv key) [
    | none ↦ returns default
    | some raw ↦ or_raise (env.float_of parts raw)
  ]

  -- `_i`
  unfoldable pub int_var : String → ℕ → Result ℕ
  int_var key default = elim (env.getenv key) [
    | none ↦ returns default
    | some raw ↦ or_raise (env.int_of raw)
  ]

  -- `_b`
  unfoldable pub bool_var : String → Bool → Bool
  bool_var key default = elim (env.getenv key) [
    | none ↦ default
    | some raw ↦ is_yes (env.lower (env.strip raw))
  ]

  -- `os.getenv(key, default)`
  unfoldable pub text_var : String → String → String
  text_var key default = elim (env.getenv key) [ none ↦ default | some raw ↦ raw ]

  abbrev pub add_pair : Option (String × String) → Dict String → Dict String
  add_pair none out = out
  add_pair (some (key, value)) out =
      if env.strip key == "" || env.strip value == ""
      then out
      else insert (env.strip key) (env.strip value) out

  unfoldable pub add_pairs : List String → Dict String → Dict String
  add_pairs [] out = out
  add_pairs (pair ∷ pairs) out =
      add_pairs pairs
        (if env.strip pair == "" then out else add_pair (env.partition (env.strip pair)) out)

  -- `_parse_model_map`
  unfoldable pub parse_model_map : String → Dict String
  parse_model_map raw = add_pairs (env.split raw) []

  -- `Settings.from_env`: the first variable that is no number raises.
  unfoldable pub from_env : ℕ → ℕ → Result Settings
  from_env second token =
      float_var money "LLM_REQUEST_BUDGET_USD" 500000000000 >>= λ default_request_budget.
      float_var money "LLM_USER_DAILY_BUDGET_USD" 25000000000000 >>= λ default_user_daily_budget.
      int_var "LLM_MIN_REPLICAS" 1 >>= λ min_replicas.
      int_var "LLM_MAX_REPLICAS" 20 >>= λ max_replicas.
      float_var 1000 "LLM_TARGET_CONCURRENCY" 4000 >>= λ target_concurrency.
      float_var second "LLM_SCALE_DOWN_COOLDOWN_S" (60 * second) >>= λ scale_down_cooldown.
      float_var second "LLM_SCALE_UP_COOLDOWN_S" (10 * second) >>= λ scale_up_cooldown.
      float_var second "LLM_VLLM_READ_TIMEOUT_S" (120 * second) >>= λ vllm_read_timeout.
      float_var second "LLM_VLLM_CONNECT_TIMEOUT_S" (5 * second) >>= λ vllm_connect_timeout.
      int_var "LLM_VLLM_MAX_RETRIES" 3 >>= λ vllm_max_retries.
      float_var second "LLM_CACHE_TTL_S" (300 * second) >>= λ cache_ttl.
      int_var "LLM_CACHE_MAX_ENTRIES" 1024 >>= λ cache_max_entries.
      float_var second "LLM_ADMISSION_TIMEOUT_S" (30 * second) >>= λ admission_timeout.
      float_var token "LLM_RATE_LIMIT_BURST" (20 * token) >>= λ rate_limit_burst.
      float_var token "LLM_RATE_LIMIT_PER_SECOND" (5 * token) >>= λ rate_limit_per_second.
      int_var "LLM_BREAKER_THRESHOLD" 5 >>= λ breaker_failure_threshold.
      float_var second "LLM_BREAKER_RECOVERY_S" (30 * second) >>= λ breaker_recovery_timeout.
      returns (record {
        default_request_budget = default_request_budget;
        default_user_daily_budget = default_user_daily_budget;
        min_replicas = min_replicas;
        max_replicas = max_replicas;
        target_concurrency = target_concurrency;
        scale_down_cooldown = scale_down_cooldown;
        scale_up_cooldown = scale_up_cooldown;
        provider_backend = text_var "LLM_PROVIDER" "mock";
        vllm_base_url = text_var "LLM_VLLM_BASE_URL" "http://localhost:8000";
        vllm_api_key = env.getenv "LLM_VLLM_API_KEY";
        vllm_model_map = parse_model_map (text_var "LLM_VLLM_MODEL_MAP" "");
        vllm_read_timeout = vllm_read_timeout;
        vllm_connect_timeout = vllm_connect_timeout;
        vllm_max_retries = vllm_max_retries;
        ledger_backend = text_var "LLM_LEDGER" "memory";
        redis_url = text_var "LLM_REDIS_URL" "redis://localhost:6379/0";
        redis_fail_closed = bool_var "LLM_REDIS_FAIL_CLOSED" true;
        cache_backend = text_var "LLM_CACHE" "memory";
        cache_ttl = cache_ttl;
        cache_max_entries = cache_max_entries;
        admission_timeout = admission_timeout;
        rate_limit_enabled = bool_var "LLM_RATE_LIMIT_ENABLED" true;
        rate_limit_burst = rate_limit_burst;
        rate_limit_per_second = rate_limit_per_second;
        breaker_failure_threshold = breaker_failure_threshold;
        breaker_recovery_timeout = breaker_recovery_timeout;
        fallback_enabled = bool_var "LLM_FALLBACK_ENABLED" true;
        default_max_output_tokens = 512;
        chars_per_token = 4000;
        catalog = default_catalog;
      })
