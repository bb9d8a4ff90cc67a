-- ===== src/Tests/Remote.antt =====
-- Tests of app/providers/vllm.py and app/providers/mock.py.
use llm_inference_autoscalin.Base.{
  ℕ, zero, suc, String, ◌≡◌, refl, none, some, [], ◌∷◌, arith, ◌==◌, if◌then◌else◌, eqb,
}
use llm_inference_autoscalin.Json.{Json, text, array, object, item, no_items, field, no_fields}
use llm_inference_autoscalin.Config.{small}
use llm_inference_autoscalin.Providers.Vllm.{Codec, VllmProvider, timed_out, unreachable}
use llm_inference_autoscalin.Providers.Vllm.Generate
use llm_inference_autoscalin.Providers.Vllm.Generate.{Reply, fails, responds}
use llm_inference_autoscalin.Providers.Vllm.Loop.{IsDecided}
use llm_inference_autoscalin.Providers.Vllm.Retries
use llm_inference_autoscalin.Providers.Vllm.Retries.{generate-IsDecided}
use llm_inference_autoscalin.Providers.Vllm.Stream
use llm_inference_autoscalin.Providers.Vllm.Stream.{StreamReply, refuses, opens, unread, read_lines}
use llm_inference_autoscalin.Providers.Vllm.Stream.Frames.{
  empty, comment, other_field, malformed, kept, noise, ends, NoisyReply, refused, opened_with,
  generate_stream-noise,
}
use llm_inference_autoscalin.Providers.Vllm.Stream.Once
use llm_inference_autoscalin.Providers.Vllm.Stream.Once.{generate_stream-IsDecided}
use llm_inference_autoscalin.Providers.Mock.{MockProvider}
use llm_inference_autoscalin.Tests.Inputs.{runtime}

-- A frame with a piece of text, and a body with a whole one.
abbrev one_choice : String → Json
one_choice s =
    object
      (field "choices" (array (item (object (field "text" (text s) no_fields)) no_items)) no_fields)

abbrev codec : Codec
codec = record {
  loads = λ s.
      if s == "A"
      then some (one_choice "hi ")
      else if s == "B"
      then some (one_choice "there")
      else none;
  int_of = λ s. none;
  runtime = runtime;
}

abbrev provider : VllmProvider
provider = record {
  api_key = some "key";
  model_map = ("small", "org/model") ∷ [];
  max_retries = 3;
  backoff_base = 5;
  chars_per_token = 4000;
}

-- The first post times out, and the second is answered.
abbrev replies : ℕ → Reply
replies n = if eqb n 0 then fails timed_out else responds 200 "A"

generate-IsDecided_example :
    IsDecided provider
      (Generate.posts codec provider small "hello" 10)
      Retries.is_retryable
      (Retries.verdict codec provider small "hello" 10)
      replies
      0
      (Generate.generate codec provider small "hello" 10 replies)
generate-IsDecided_example =
    generate-IsDecided codec provider small "hello" 10 replies (omega arith)

-- The first connection is refused, and the second breaks off after a frame.
abbrev stream_replies : ℕ → StreamReply
stream_replies n =
    if eqb n 0 then refuses unreachable else opens 200 ("data:A" ∷ ": ping" ∷ []) (some timed_out)

generate_stream-IsDecided_example :
    IsDecided provider
      (Stream.posts codec provider small "hello" 10)
      (Once.is_retryable codec provider small "hello" 10)
      (Once.verdict codec provider small "hello" 10)
      stream_replies
      0
      (Stream.generate_stream codec provider small "hello" 10 stream_replies)
generate_stream-IsDecided_example =
    generate_stream-IsDecided codec provider small "hello" 10 stream_replies (omega arith)

-- The first connection is refused; noise stands around the two frames of the next replies.
abbrev clean : ℕ → StreamReply
clean zero = refuses unreachable
clean (suc n) = opens 200 ("data:A" ∷ "data:B" ∷ "data:[DONE]" ∷ []) none

abbrev noisy : ℕ → StreamReply
noisy zero = refuses unreachable
noisy (suc n) =
    opens 200 ("data:A" ∷ ": ping" ∷ "data:{oops" ∷ "" ∷ "id:3" ∷ "data:B" ∷ "data:[DONE]" ∷ [])
      none

clean-NoisyReply : (n : ℕ) → NoisyReply codec (clean n) (noisy n)
clean-NoisyReply zero = refused unreachable
clean-NoisyReply (suc n) = opened_with 200 none (
    kept "data:A" (
      noise ": ping" (comment ": ping" refl) (
        noise "data:{oops" (malformed "data:{oops" refl refl) (
          noise "" empty
            (noise "id:3" (other_field "id:3" refl) (kept "data:B" (kept "data:[DONE]" ends)))))))

generate_stream-noise_example :
    Stream.generate_stream codec provider small "hello" 10 noisy
    ≡ Stream.generate_stream codec provider small "hello" 10 clean
generate_stream-noise_example =
    generate_stream-noise codec provider small "hello" 10 clean noisy clean-NoisyReply

abbrev mock : MockProvider
mock = record {
  chars_per_token = 4000;
  fail_after_chunks = none;
  raise_error = none;
  chunk_chars = 12;
}
