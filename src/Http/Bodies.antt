-- ===== src/Http/Bodies.antt =====
-- app/main.py with app/service.py: what the body of a stream looks like.
use llm_inference_autoscalin.Base.{
  ℕ, zero, suc, String, ◌≡◌, refl, ap, ◌≢◌, inl, inr, Option, none, some, List, [], ◌∷◌, ◌++◌,
  arith, true, ◌==◌, Bool-cases, some_inj,
}
use llm_inference_autoscalin.Errors.{
  Error, budget_exceeded_error, user_budget_exceeded_error, rate_limit_exceeded_error,
  context_too_large_error, ledger_unavailable_error, admission_timeout_error, circuit_open_error,
  no_model_available_error, provider_timeout_error, provider_unavailable_error, provider_error,
  json_decode_error, value_error, other_error,
}
use llm_inference_autoscalin.Providers.{TokenUsage, StreamChunk}
use llm_inference_autoscalin.Router.{RoutingDecision, from_cache, Routed, routed, refused}
use llm_inference_autoscalin.RateLimit.{RateLimitExceededError}
use llm_inference_autoscalin.Cache.{CacheEntry}
use llm_inference_autoscalin.Ledger.{Ledger, Reservation, Reserved, held, exceeded}
use llm_inference_autoscalin.Service.State.{Service, World}
use llm_inference_autoscalin.Service.Handle.{
  Request, check_rate_limit, lookup_cache, Admission, admitted, turned_away, waits, admit,
}
use llm_inference_autoscalin.Service.Stream.{
  StreamEnd, finishes, breaks, StreamEvent, start, delta, end_, error_, StreamWorld, StreamReply,
  replayed, streamed, refuses, stream_pending, read_chunks, stream, newer, replay, stream_admitted,
  stream_reserved, stream_looked_up, stream_routed, stream_limited, handle_stream,
}
use llm_inference_autoscalin.Http.{
  status_for, first_match, headers_for, as_http, exception_of, Exception, Response, ok, http,
  reraised, Frame, event_frame, done_frame, frames, opened, respond_stream, infer_stream,
}

-- The frames after the first, of a client that leaves at the frame of this number, or never: texts,
-- then an `end` or an `error` event and the end marker; or up to the frame at which it leaves.
abbrev pub IsRest : Option ℕ → List Frame → Type 0
IsRest leaves [] = ⊥
IsRest leaves (done_frame ∷ fs) = ⊥
IsRest leaves (event_frame (start m c d h n p) ∷ fs) = ⊥
IsRest (some zero) (event_frame (delta text) ∷ fs) = fs ≡ []
IsRest (some zero) (event_frame (end_ m u p d h) ∷ fs) = fs ≡ []
IsRest (some zero) (event_frame error_ ∷ fs) = fs ≡ []
IsRest none (event_frame (delta text) ∷ fs) = IsRest none fs
IsRest none (event_frame (end_ m u p d h) ∷ fs) = fs ≡ done_frame ∷ []
IsRest none (event_frame error_ ∷ fs) = fs ≡ done_frame ∷ []
IsRest (some (suc n)) (event_frame (delta text) ∷ fs) = IsRest (some n) fs
IsRest (some (suc n)) (event_frame (end_ m u p d h) ∷ fs) = fs ≡ done_frame ∷ []
IsRest (some (suc n)) (event_frame error_ ∷ fs) = fs ≡ done_frame ∷ []

-- The frames of a body.
abbrev pub IsBody : Option ℕ → List Frame → Type 0
IsBody none (event_frame (start m c d h n p) ∷ fs) = IsRest none fs
IsBody (some zero) (event_frame (start m c d h n p) ∷ fs) = fs ≡ []
IsBody (some (suc k)) (event_frame (start m c d h n p) ∷ fs) = IsRest (some k) fs
IsBody leaves _ = ⊥

-- Events whose frames are those of a body.
abbrev pub IsStory : Option ℕ → List StreamEvent → Type 0
IsStory leaves [] = ⊥
IsStory leaves (e ∷ es) = IsBody leaves (frames leaves (e ∷ es))

read_chunks-IsRest :
    (w : World) (d : RoutingDecision) (cs : List StreamChunk) (e : StreamEnd) (leaves : Option ℕ)
    (usage : Option TokenUsage) (pieces : List String)
    → IsRest leaves (frames leaves (read_chunks w d cs e leaves usage pieces).events)
unfolding read_chunks frames
read_chunks-IsRest w d [] finishes none usage pieces = refl
read_chunks-IsRest w d [] finishes (some zero) usage pieces = refl
read_chunks-IsRest w d [] finishes (some (suc n)) usage pieces = refl
read_chunks-IsRest w d [] breaks none usage pieces = refl
read_chunks-IsRest w d [] breaks (some zero) usage pieces = refl
read_chunks-IsRest w d [] breaks (some (suc n)) usage pieces = refl
read_chunks-IsRest w d (c ∷ cs) e none usage pieces = elim (Bool-cases (c.text == "")) [
  | inl empty ↦
      rw (empty, read_chunks) (read_chunks-IsRest w d cs e none (newer c.usage usage) pieces)
  | inr text ↦
      rw (text, read_chunks)
        (read_chunks-IsRest w d cs e none (newer c.usage usage) (pieces ++ c.text ∷ []))
]
read_chunks-IsRest w d (c ∷ cs) e (some zero) usage pieces = elim (Bool-cases (c.text == "")) [
  | inl empty ↦
      rw (empty, read_chunks) (read_chunks-IsRest w d cs e (some zero) (newer c.usage usage) pieces)
  | inr text ↦ rw (text, read_chunks) refl
]
read_chunks-IsRest w d (c ∷ cs) e (some (suc n)) usage pieces = elim (Bool-cases (c.text == "")) [
  | inl empty ↦
      rw (empty, read_chunks)
        (read_chunks-IsRest w d cs e (some (suc n)) (newer c.usage usage) pieces)
  | inr text ↦
      rw (text, read_chunks)
        (read_chunks-IsRest w d cs e (some n) (newer c.usage usage) (pieces ++ c.text ∷ []))
]

stream-IsStory :
    (w : World) (d : RoutingDecision) (cs : List StreamChunk) (e : StreamEnd) (leaves : Option ℕ)
    → IsStory leaves (stream w d (cs, e) leaves).events
unfolding stream frames
stream-IsStory w d cs e none = read_chunks-IsRest w d cs e none none []
stream-IsStory w d cs e (some zero) = refl
stream-IsStory w d cs e (some (suc n)) = read_chunks-IsRest w d cs e (some n) none []

replay-IsStory :
    (leaves : Option ℕ) (d : RoutingDecision) (entry : CacheEntry) → IsStory leaves (replay d entry)
unfolding replay frames
replay-IsStory leaves d entry = elim (Bool-cases (entry.text == "")) [
  | inl empty ↦ rw empty (by_leaving leaves)
  | inr text ↦ rw text (told leaves)
]
  where
    last : StreamEvent
    last =
        end_ entry.model
          (record { input_tokens = entry.input_tokens; output_tokens = entry.output_tokens }) 0
          d.downgraded true

    first : StreamEvent
    first = start entry.model d.complexity.tier d.downgraded true (d.notes ++ from_cache ∷ []) 0

    by_leaving : (at : Option ℕ) → IsStory at (first ∷ last ∷ [])
    by_leaving none = refl
    by_leaving (some zero) = refl
    by_leaving (some (suc zero)) = refl
    by_leaving (some (suc (suc n))) = refl

    told : (at : Option ℕ) → IsStory at (first ∷ delta entry.text ∷ last ∷ [])
    told none = refl
    told (some zero) = refl
    told (some (suc zero)) = refl
    told (some (suc (suc zero))) = refl
    told (some (suc (suc (suc n)))) = refl

-- What `handle_stream` hands out, whenever it hands out events.
abbrev pub Tells : Option ℕ → StreamReply → Type 0
Tells leaves (replayed es) = IsStory leaves es
Tells leaves (streamed d p) = IsStory leaves p.events
Tells leaves (refuses f) = Unit {0}
Tells leaves stream_pending = Unit {0}

module _ (w : StreamWorld) (q : Request) where
  admitted-Tells :
      (d : RoutingDecision) (r : Reservation) (x : Service × Admission)
      → Tells w.leaves_at (stream_admitted w q d r x).1
  unfolding stream_admitted
  admitted-Tells d r (s, admitted) =
      let (cs, e) = w.generate_stream d.model q.query.prompt d.projected_output_tokens in
      stream-IsStory w.world d cs e w.leaves_at
  admitted-Tells d r (s, turned_away) = tt
  admitted-Tells d r (s, waits) = tt

  reserved-Tells :
      (d : RoutingDecision) (s : Service) (x : Ledger × Reserved)
      → Tells w.leaves_at (stream_reserved w q d s x).1
  unfolding stream_reserved
  reserved-Tells d s (l, held r) = admitted-Tells d r (admit w.world r (record s { ledger = l }))
  reserved-Tells d s (l, exceeded e) = tt

  looked_up-Tells :
      (d : RoutingDecision) (x : Service × Option CacheEntry)
      → Tells w.leaves_at (stream_looked_up w q d x).1
  unfolding stream_looked_up
  looked_up-Tells d (s, some entry) = replay-IsStory w.leaves_at d entry
  looked_up-Tells d (s, none) = reserved-Tells d s _

  routed-Tells : (s : Service) (x : Routed) → Tells w.leaves_at (stream_routed w q s x).1
  unfolding stream_routed
  routed-Tells s (routed d) = looked_up-Tells d (lookup_cache w.world d q.query.prompt s)
  routed-Tells s (refused e) = tt

  limited-Tells :
      (x : Service × Option RateLimitExceededError) → Tells w.leaves_at (stream_limited w q x).1
  unfolding stream_limited
  limited-Tells (s, some e) = tt
  limited-Tells (s, none) = routed-Tells s _

  handle_stream-Tells : (s : Service) → Tells w.leaves_at (handle_stream w q s).1
  unfolding handle_stream
  handle_stream-Tells s = limited-Tells (check_rate_limit w.world q.user_id s)

-- A body is well formed, and a status is one of an exception: 500, for a stream without events, is not.
abbrev pub IsProper : Option ℕ → Option (Response (List Frame)) → Type 0
IsProper leaves none = Unit {0}
IsProper leaves (some (ok fs)) = IsBody leaves fs
IsProper leaves (some (http status retry_after)) = status ≢ 500
IsProper leaves (some (reraised e)) = Unit {0}

opened-IsProper :
    (leaves : Option ℕ) (es : List StreamEvent)
    → IsStory leaves es
    → IsProper leaves (some (opened leaves es))
unfolding opened
opened-IsProper leaves [] h = absurd h
opened-IsProper leaves (e ∷ es) h = h

-- No exception has the status of an empty stream.
status_for-ne : (kind : Error) → status_for kind ≢ some 500
unfolding status_for first_match
status_for-ne budget_exceeded_error e = omega (arith, some_inj e)
status_for-ne user_budget_exceeded_error e = omega (arith, some_inj e)
status_for-ne rate_limit_exceeded_error e = omega (arith, some_inj e)
status_for-ne context_too_large_error e = omega (arith, some_inj e)
status_for-ne ledger_unavailable_error e = omega (arith, some_inj e)
status_for-ne admission_timeout_error e = omega (arith, some_inj e)
status_for-ne circuit_open_error e = omega (arith, some_inj e)
status_for-ne no_model_available_error e = omega (arith, some_inj e)
status_for-ne provider_timeout_error e = omega (arith, some_inj e)
status_for-ne provider_unavailable_error e = omega (arith, some_inj e)
status_for-ne provider_error e = omega (arith, some_inj e)
status_for-ne json_decode_error e = omega (arith, some_inj e)
status_for-ne value_error e = omega (arith, some_inj e)
status_for-ne other_error e = absurd (cc e)

as_http-IsProper :
    (second : ℕ) (leaves : Option ℕ) (e : Exception) → IsProper leaves (some (as_http second e))
unfolding as_http
as_http-IsProper second leaves e = by_status (status_for e.kind) (status_for-ne e.kind)
  where
    by_status :
        (status : Option ℕ)
        → status ≢ some 500
        → IsProper leaves
            (some (elim status [ none ↦ reraised e.kind | some s ↦ http s (headers_for second e) ]))
    by_status none h = tt
    by_status (some status) h = λ k. h (ap some k)

respond_stream-IsProper :
    (second : ℕ) (leaves : Option ℕ) (x : StreamReply)
    → Tells leaves x
    → IsProper leaves (respond_stream second leaves x)
unfolding respond_stream
respond_stream-IsProper second leaves (replayed es) h = opened-IsProper leaves es h
respond_stream-IsProper second leaves (streamed d p) h = opened-IsProper leaves p.events h
respond_stream-IsProper second leaves (refuses f) h =
    as_http-IsProper second leaves (exception_of f)
respond_stream-IsProper second leaves stream_pending h = tt

-- Whatever the provider sends, wherever it breaks off and whenever the client leaves: an answer of
-- `infer_stream` with a body has the `start` event first and only there, then texts, then one `end` or
-- `error` event and, right after it and as the last frame, the end marker. A client that leaves at
-- one of the events gets the frames up to that event, and no end marker. The answer 500 for a stream
-- without events is never given.
pub infer_stream-IsProper :
    (second : ℕ) (w : StreamWorld) (q : Request) (s : Service)
    → IsProper w.leaves_at (infer_stream second w q s).1
unfolding infer_stream
infer_stream-IsProper second w q s =
    respond_stream-IsProper second w.leaves_at (handle_stream w q s).1 (handle_stream-Tells w q s)
