-- ===== src/Service/Stream.antt =====
-- app/service.py: `handle_stream` and its detached clean-up. A stream is read up to its end, to an
-- exception of the provider, or to the event at which the client leaves; whichever it is, the
-- finalizer then runs once, as a step of its own.
pub mod Delivery
pub mod Billing
use llm_inference_autoscalin.Providers.{Completion, TokenUsage, StreamChunk}
use llm_inference_autoscalin.Base.{
  ℕ, zero, suc, ◌+◌, ◌<◌, String, Bool, true, false, Option, none, some, List, [], ◌∷◌, ◌++◌, ◌==◌,
  if◌then◌else◌, round_div,
}
use Prim.Native.String.{◌++◌ as ◌<>◌}
use llm_inference_autoscalin.Config.{Complexity, ModelSpec, cost}
use llm_inference_autoscalin.Tokens.{count_tokens}
use llm_inference_autoscalin.Router.{
  RoutingDecision, Note, from_cache, Routed, routed, refused, route,
}
use llm_inference_autoscalin.RateLimit.{RateLimitExceededError}
use llm_inference_autoscalin.Cache.{CacheEntry}
use llm_inference_autoscalin.Ledger.{Ledger, Reservation, Reserved, held, exceeded}
use llm_inference_autoscalin.Ledger
use llm_inference_autoscalin.Gate
use llm_inference_autoscalin.Metrics.{request_started, request_finished, request_rejected}
use llm_inference_autoscalin.Service.State.{
  Service, World, Fault, rate_limited, routing, user_budget, shed,
}
use llm_inference_autoscalin.Service.Failover.{count}
use llm_inference_autoscalin.Service.Handle.{
  Request, check_rate_limit, lookup_cache, cache_store, Admission, admitted, turned_away, waits,
  admit, user_limit,
}

-- How the provider's stream ends: it is exhausted, or it raises.
pub data StreamEnd : Type 0 where
  finishes breaks : StreamEnd

-- `start` and `end_` have the model's name first and `cached` last but for the notes and the cost;
-- costs are in micro-dollars.
pub data StreamEvent : Type 0 where
  start : String → Complexity → Bool → Bool → List Note → ℕ → StreamEvent
  delta : String → StreamEvent
  end_ : String → TokenUsage → ℕ → Bool → Bool → StreamEvent
  error_ : StreamEvent

-- What a stream takes from outside besides what any request takes. The client leaves at the event
-- of this number, from 0, if the generator is still suspended there, or never.
pub record StreamWorld : Type 0 where
  pub world : World
  pub generate_stream : ModelSpec → String → ℕ → List StreamChunk × StreamEnd
  pub leaves_at : Option ℕ
  pub during_stream : Service → Service

-- The events that were handed to the client, and the generator's variables when it is closed.
pub record Progress : Type 0 where
  pub events : List StreamEvent
  pub usage : Option TokenUsage
  pub pieces : List String
  pub completed : Bool

unfoldable pub join : List String → String
join [] = ""
join (s ∷ ss) = s <> join ss

-- `usage or Usage(decision.input_tokens, count_tokens("".join(pieces), …))`
unfoldable pub final_usage : World → RoutingDecision → Option TokenUsage → List String → TokenUsage
final_usage w d (some u) pieces = u
final_usage w d none pieces = record {
  input_tokens = d.input_tokens;
  output_tokens = count_tokens w.runtime (join pieces) w.settings.routing.chars_per_token;
}

abbrev pub newer : Option TokenUsage → Option TokenUsage → Option TokenUsage
newer none usage = usage
newer (some u) usage = some u

abbrev pub deliver : StreamEvent → Progress → Progress
deliver e p = record p { events = e ∷ p.events }

abbrev pub usage_cost : RoutingDecision → TokenUsage → ℕ
usage_cost d u = cost d.model u.input_tokens u.output_tokens

-- The loop over the provider's chunks, and what follows it.
unfoldable pub read_chunks :
    World
    → RoutingDecision
    → List StreamChunk
    → StreamEnd
    → Option ℕ
    → Option TokenUsage
    → List String
    → Progress
read_chunks w d [] finishes leaves usage pieces =
    let u = final_usage w d usage pieces in
    record {
      events = end_ d.model.name u (round_div (usage_cost d u) 1000000) d.downgraded false ∷ [];
      usage = usage;
      pieces = pieces;
      completed = true;
    }
read_chunks w d [] breaks leaves usage pieces = record {
  events = error_ ∷ [];
  usage = usage;
  pieces = pieces;
  completed = false;
}
read_chunks w d (c ∷ cs) e none usage pieces = elim (c.text == "") [
  | true ↦ read_chunks w d cs e none (newer c.usage usage) pieces
  | false ↦
      deliver (delta c.text)
        (read_chunks w d cs e none (newer c.usage usage) (pieces ++ c.text ∷ []))
]
read_chunks w d (c ∷ cs) e (some zero) usage pieces = elim (c.text == "") [
  | true ↦ read_chunks w d cs e (some zero) (newer c.usage usage) pieces
  | false ↦ record {
    events = delta c.text ∷ [];
    usage = newer c.usage usage;
    pieces = pieces ++ c.text ∷ [];
    completed = false;
  }
]
read_chunks w d (c ∷ cs) e (some (suc n)) usage pieces = elim (c.text == "") [
  | true ↦ read_chunks w d cs e (some (suc n)) (newer c.usage usage) pieces
  | false ↦
      deliver (delta c.text)
        (read_chunks w d cs e (some n) (newer c.usage usage) (pieces ++ c.text ∷ []))
]

abbrev pub started : RoutingDecision → StreamEvent
started d =
    start d.model.name d.complexity.tier d.downgraded false d.notes
      (round_div d.projected_cost 1000000)

-- The generator from its `try` on, up to its `finally`.
unfoldable pub stream : World → RoutingDecision → List StreamChunk × StreamEnd → Option ℕ → Progress
stream w d (cs, e) none = deliver (started d) (read_chunks w d cs e none none [])
stream w d (cs, e) (some zero) = record {
  events = started d ∷ [];
  usage = none;
  pieces = [];
  completed = false;
}
stream w d (cs, e) (some (suc n)) = deliver (started d) (read_chunks w d cs e (some n) none [])

-- `finalize` and the task of `_finalize_later`
unfoldable pub finalize :
    World → Request → RoutingDecision → Reservation → Progress → Service → Service
finalize w q d r p s =
    let u = final_usage w d p.usage p.pieces in
    let settled = record s {
      ledger =
          (Ledger.settle s.ledger r (usage_cost d u)
            (record {
              model = d.model.name;
              input_tokens = u.input_tokens;
              output_tokens = u.output_tokens;
            })
            w.settle_at).0;
    } in
    let stored =
      if p.completed
      then cache_store w d q.query.prompt
          (record {
            text = join p.pieces;
            input_tokens = u.input_tokens;
            output_tokens = u.output_tokens;
            model = d.model.name;
          })
          settled
      else settled in
    let counted =
      count (request_finished u.input_tokens u.output_tokens (usage_cost d u) d.downgraded)
        stored in
    record counted { gate = Gate.release counted.gate }

-- `_replay_cached`
unfoldable pub replay : RoutingDecision → CacheEntry → List StreamEvent
replay d entry =
    start entry.model d.complexity.tier d.downgraded true (d.notes ++ from_cache ∷ []) 0
      ∷ (if entry.text == "" then [] else delta entry.text ∷ [])
    ++ end_ entry.model
        (record { input_tokens = entry.input_tokens; output_tokens = entry.output_tokens }) 0
        d.downgraded true
      ∷ []

-- How `handle_stream` stands: it has replayed an entry, has streamed and is finalized, has raised
-- before its first event, or still waits for capacity.
pub data StreamReply : Type 0 where
  replayed : List StreamEvent → StreamReply
  streamed : RoutingDecision → Progress → StreamReply
  refuses : Fault → StreamReply
  stream_pending : StreamReply

unfoldable pub stream_admitted :
    StreamWorld
    → Request
    → RoutingDecision
    → Reservation
    → Service × Admission
    → Service × StreamReply
stream_admitted w q d r (s, admitted) =
    let p =
      stream w.world d (w.generate_stream d.model q.query.prompt d.projected_output_tokens)
        w.leaves_at in
    (finalize w.world q d r p (w.during_stream (count request_started s)), streamed d p)
stream_admitted w q d r (s, turned_away) = (s, refuses (shed w.world.settings.admission_timeout))
stream_admitted w q d r (s, waits) = (s, stream_pending)

unfoldable pub stream_reserved :
    StreamWorld → Request → RoutingDecision → Service → Ledger × Reserved → Service × StreamReply
stream_reserved w q d s (l, held r) =
    stream_admitted w q d r (admit w.world r (record s { ledger = l }))
stream_reserved w q d s (l, exceeded e) =
    (count request_rejected (record s { ledger = l }), refuses (user_budget e))

unfoldable pub stream_looked_up :
    StreamWorld → Request → RoutingDecision → Service × Option CacheEntry → Service × StreamReply
stream_looked_up w q d (s, some entry) = (s, replayed (replay d entry))
stream_looked_up w q d (s, none) = stream_reserved w q d s (
    Ledger.reserve s.ledger q.user_id d.projected_cost (user_limit w.world q) w.world.reserve_at
      w.world.entry_id)

unfoldable pub stream_routed : StreamWorld → Request → Service → Routed → Service × StreamReply
stream_routed w q s (routed d) = stream_looked_up w q d (lookup_cache w.world d q.query.prompt s)
stream_routed w q s (refused e) = (count request_rejected s, refuses (routing e))

unfoldable pub stream_limited :
    StreamWorld → Request → Service × Option RateLimitExceededError → Service × StreamReply
stream_limited w q (s, some e) = (s, refuses (rate_limited e))
stream_limited w q (s, none) =
    stream_routed w q s (route w.world.runtime w.world.settings.routing q.query [])

unfoldable pub handle_stream : StreamWorld → Request → Service → Service × StreamReply
handle_stream w q s = stream_limited w q (check_rate_limit w.world q.user_id s)
