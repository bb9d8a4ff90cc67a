-- ===== src/Tests/Inputs.antt =====
-- Inputs that the tests share: a runtime of ASCII text, the default settings and some requests.
use llm_inference_autoscalin.Base.{◌&&◌, none, leb}
use llm_inference_autoscalin.Tokens.{TextRuntime}
use llm_inference_autoscalin.Config.{default_catalog}
use llm_inference_autoscalin.Router.{RoutingSettings, Query}

abbrev pub runtime : TextRuntime
runtime = record {
  encode = λ _. none;
  lower = λ text. text;
  strip = λ text. text;
  is_word = λ c. leb 97 c && leb c 122;
}

-- The defaults of `Settings`: 0.5 dollars a request, 4 characters a token, 512 output tokens.
abbrev pub routing_settings : RoutingSettings
routing_settings = record {
  default_request_budget = 500000000000;
  chars_per_token = 4000;
  default_max_output_tokens = 512;
  catalog = default_catalog;
}

abbrev pub plain : Query
plain = record {
  prompt = "hello";
  task_type = none;
  max_output_tokens = none;
  budget = none;
  force_model = none;
}
