-- ===== src/Tests/Streaming.antt =====
-- Tests of the streaming part of app/service.py.
use llm_inference_autoscalin.Providers.{StreamChunk}
use llm_inference_autoscalin.Base.{
  ℕ, ◌≡◌, refl, ◌⊎◌, false, Option, none, some, List, [], ◌∷◌, arith,
}
use llm_inference_autoscalin.Service.Stream.{StreamWorld, finishes, breaks, stream, handle_stream}
use llm_inference_autoscalin.Service.Stream.Delivery.{delivered, sent, stream-delivered}
use llm_inference_autoscalin.Service.Stream.Billing.{StreamBill, handle_stream-StreamBill}
use llm_inference_autoscalin.Tests.Routing.{small_decision}
use llm_inference_autoscalin.Tests.Serving.{world, request, service, ann-fresh}

abbrev chunks : List StreamChunk
chunks =
    record { text = "hi "; finish_reason = none; usage = none }
    ∷ record { text = ""; finish_reason = none; usage = none }
    ∷ record { text = "there"; finish_reason = none; usage = none }
    ∷ []

-- The provider breaks off after three chunks, or the client leaves at the first text.
abbrev pub streaming : Option ℕ → StreamWorld
streaming leaves_at = record {
  world = world;
  generate_stream = λ m prompt n. (chunks, breaks);
  leaves_at = leaves_at;
  during_stream = λ s. s;
}

handle_stream-StreamBill_example :
    StreamBill world "ann" service.ledger 105 (handle_stream (streaming (some 1)) request service)
handle_stream-StreamBill_example =
    handle_stream-StreamBill (streaming (some 1)) request service
      (λ x. record { entries_of = refl; window_of = refl })
      (λ x. record { entries_of = refl; window_of = refl }) ann-fresh (omega arith) (omega arith)

stream-delivered_example :
    let p = stream world small_decision (chunks, finishes) none in
    (p.pieces ≡ delivered p.events)
    × ((p.completed ≡ false) ⊎ ((finishes ≡ finishes) × (p.pieces ≡ sent chunks)))
stream-delivered_example = stream-delivered world small_decision chunks finishes none
