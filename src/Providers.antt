-- ===== src/Providers.antt =====
-- app/providers/base.py: what a provider returns.
pub mod Vllm
pub mod Mock
use llm_inference_autoscalin.Base.{ℕ, String, Bool, true, Option, none, some, ◌||◌}

-- `Usage`
pub record TokenUsage : Type 0 where
  pub input_tokens : ℕ
  pub output_tokens : ℕ

pub record Completion : Type 0 where
  pub text : String
  pub input_tokens : ℕ
  pub output_tokens : ℕ
  pub model : String

pub record StreamChunk : Type 0 where
  pub text : String
  pub finish_reason : Option String
  pub usage : Option TokenUsage

abbrev pub is_some {ℓ} : {A : Type ℓ} → Option A → Bool
is_some none = Bool.false
is_some (some a) = true

unfoldable pub is_final : StreamChunk → Bool
is_final c = is_some c.finish_reason || is_some c.usage
