-- ===== src/Cache/Key.antt =====
-- app/cache.py: the cache key. JSON encoding and SHA-256 are a parameter, the digest of a payload.
use llm_inference_autoscalin.Base.{ℕ, String}

-- The dictionary that is encoded.
pub record Payload : Type 0 where
  pub v : String
  pub model : String
  pub prompt : String
  pub max_output_tokens : ℕ

-- `f"{namespace}:{sha256(json.dumps(payload))}"`, as one function of the payload.
abbrev pub Digest : Type 0
Digest = Payload → String

abbrev pub cache_key_version : String
cache_key_version = "v1"

unfoldable pub make_cache_key : Digest → String → String → ℕ → String
make_cache_key digest model prompt max_output_tokens = digest (record {
  v = cache_key_version;
  model = model;
  prompt = prompt;
  max_output_tokens = max_output_tokens;
})
