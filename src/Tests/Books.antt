-- ===== src/Tests/Books.antt =====
-- Tests of the books that app/service.py keeps.
use llm_inference_autoscalin.Base.{◌≡◌, refl, some}
use llm_inference_autoscalin.Ledger.{summary}
use llm_inference_autoscalin.Service.State.{Service, World}
use llm_inference_autoscalin.Service.Handle.{handle}
use llm_inference_autoscalin.Service.Stream.{handle_stream}
use llm_inference_autoscalin.Service.Books.{IsBalanced}
use llm_inference_autoscalin.Service.Books.Traffic.{
  quiet, buffered, streams, spend_total, Traffic-Agrees,
}
use llm_inference_autoscalin.Tests.Serving.{world, service, request}
use llm_inference_autoscalin.Tests.Streaming.{streaming}

-- A request is served while another one calls its model; then a stream is left at its third event.
abbrev busy : World
busy = record world { during_call = λ n s. (handle world request s).0 }

abbrev served_all : Service → Service
served_all s = (handle_stream (streaming (some 2)) request (handle busy request s).0).0

service-IsBalanced : IsBalanced service
service-IsBalanced = record { cost = refl; input = refl; output = refl }

Traffic-Agrees_example :
    IsBalanced (served_all service)
    × (spend_total (summary (served_all service).ledger) ≡ (served_all service).metrics.total_cost)
Traffic-Agrees_example =
    Traffic-Agrees
      (buffered busy request quiet (λ n. buffered world request quiet (λ k. quiet) quiet)
        (streams (streaming (some 2)) request quiet quiet quiet))
      service service-IsBalanced
