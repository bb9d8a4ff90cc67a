-- ===== src/Config.antt =====
-- app/config.py: the tiers, the model catalog and its prices. A price is in nano-dollars for 1,000
-- tokens, so that a cost is a whole number of pico-dollars: exact where the source uses floats.
pub mod Settings
use llm_inference_autoscalin.Base.{ℕ, ◌+◌, ◌*◌, String, List, [], ◌∷◌}

pub data Complexity : Type 0 where
  simple moderate complex : Complexity

-- The value of the IntEnum, by which tiers are compared.
abbrev pub rank : Complexity → ℕ
rank simple = 1
rank moderate = 2
rank complex = 3

pub record ModelSpec : Type 0 where
  pub name : String
  pub provider : String
  pub tier : Complexity
  pub input_price_per_1k : ℕ
  pub output_price_per_1k : ℕ
  pub max_context_tokens : ℕ
  pub speed : ℕ

unfoldable pub cost : ModelSpec → ℕ → ℕ → ℕ
cost m input_tokens output_tokens =
    input_tokens * m.input_price_per_1k + output_tokens * m.output_price_per_1k

abbrev pub small : ModelSpec
small = record {
  name = "small";
  provider = "mock";
  tier = simple;
  input_price_per_1k = 250000;
  output_price_per_1k = 1250000;
  max_context_tokens = 16000;
  speed = 3;
}

abbrev pub medium : ModelSpec
medium = record {
  name = "medium";
  provider = "mock";
  tier = moderate;
  input_price_per_1k = 3000000;
  output_price_per_1k = 15000000;
  max_context_tokens = 200000;
  speed = 2;
}

abbrev pub large : ModelSpec
large = record {
  name = "large";
  provider = "mock";
  tier = complex;
  input_price_per_1k = 15000000;
  output_price_per_1k = 75000000;
  max_context_tokens = 200000;
  speed = 1;
}

abbrev pub default_catalog : List ModelSpec
default_catalog = small ∷ medium ∷ large ∷ []
