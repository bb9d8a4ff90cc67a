-- ===== src/Tests/Web.antt =====
-- Tests of app/main.py.
use llm_inference_autoscalin.Base.{ℕ, ◌+◌, ◌*◌, ◌<◌, ◌≡◌, refl, none, some, [], ◌∷◌, arith, lookup}
use llm_inference_autoscalin.RateLimit.{TokenBucketLimiter, RateLimitExceededError, current, check}
use llm_inference_autoscalin.RateLimit
use llm_inference_autoscalin.Service.State.{InferenceResult, rate_limited}
use llm_inference_autoscalin.Service.Handle.{limited, check_rate_limit}
use llm_inference_autoscalin.Service.Stream.{StreamWorld, breaks}
use llm_inference_autoscalin.Http.{http, as_http, exception_of, route_explain, infer, infer_stream}
use llm_inference_autoscalin.Http.Backoff.{as_http-retry_later}
use llm_inference_autoscalin.Http.Requests.{Answered, infer-Answered, Refuses, infer-Refuses}
use llm_inference_autoscalin.Http.Bodies.{IsProper, infer_stream-IsProper}
use llm_inference_autoscalin.Service.Handle.{Request}
use llm_inference_autoscalin.Tests.Inputs.{plain}
use llm_inference_autoscalin.Tests.Serving.{world, request, service, ann-fresh}

-- A bucket of 20 tokens that refills 5 a tick; ann has 2 at tick 10, and 1000 ticks are a second.
abbrev limiter : TokenBucketLimiter
limiter = record { capacity = 20; refill_rate = 5; buckets = ("ann", (2, 10)) ∷ [] }

ann-short : current limiter "ann" 10 < 12
unfolding current lookup
ann-short = omega arith

as_http-retry_later_example :
    (e : RateLimitExceededError) × (secs : ℕ) × ((check limiter "ann" 12 10).1 ≡ some e)
    × (as_http {A = InferenceResult} 1000 (exception_of (rate_limited e)) ≡ http 429 (some secs))
    × ((check (check limiter "ann" 12 10).0 "ann" 12 (10 + secs * 1000)).1 ≡ none)
as_http-retry_later_example =
    as_http-retry_later 1000 limiter "ann" 12 10 (omega arith) ann-short (omega arith) (omega arith)

infer-Answered_example : Answered "ann" service.ledger 105 (infer 1000 world request service)
infer-Answered_example =
    infer-Answered 1000 world request service (λ x. record { entries_of = refl; window_of = refl })
      (λ n x. record { entries_of = refl; window_of = refl }) ann-fresh (omega arith) (omega arith)
      (omega arith)

-- A request that pins a model that is not in the catalog.
abbrev unknown : Request
unknown = record request { query = record plain { force_model = some "huge" } }

unknown-passes : (check_rate_limit world "ann" service).1 ≡ none
unfolding check_rate_limit limited RateLimit.check current lookup
unknown-passes = refl

infer-Refuses_example :
    Refuses service (route_explain 1000 world unknown) (infer 1000 world unknown service)
infer-Refuses_example = infer-Refuses 1000 world unknown service unknown-passes

abbrev streaming : StreamWorld
streaming = record {
  world = world;
  generate_stream =
      λ m prompt n. (record { text = "hi"; finish_reason = none; usage = none } ∷ [], breaks);
  leaves_at = none;
  during_stream = λ s. s;
}

infer_stream-IsProper_example :
    IsProper streaming.leaves_at (infer_stream 1000 streaming request service).1
infer_stream-IsProper_example = infer_stream-IsProper 1000 streaming request service
