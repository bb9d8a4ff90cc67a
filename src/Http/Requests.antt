-- ===== src/Http/Requests.antt =====
-- app/main.py with app/service.py: a request from its body to its answer.
use llm_inference_autoscalin.Base.{
  ℕ, ◌+◌, ◌≤◌, String, ◌≡◌, refl, ◌≢◌, inl, inr, ◌⊎◌, Option, none, some, [], Option-cases,
}
use llm_inference_autoscalin.Router.{Routed, routed, refused, route}
use llm_inference_autoscalin.RateLimit.{RateLimitExceededError}
use llm_inference_autoscalin.Ledger.{Ledger, entries}
use llm_inference_autoscalin.Ledger.Entries.{live, find}
use llm_inference_autoscalin.Service.State.{
  Service, World, InferenceResult, Reply, served, raised, pending,
}
use llm_inference_autoscalin.Service.Handle.{
  Request, check_rate_limit, after_route, after_limit, handle,
}
use llm_inference_autoscalin.Service.Handle.Holding.{Spares}
use llm_inference_autoscalin.Service.Handle.Billing.{
  IsCharged, Bill, check_rate_limit-ledger, handle-Bill,
}
use llm_inference_autoscalin.Service.Handle.Answers.{Ends, handle-ends}
use llm_inference_autoscalin.Metrics.{request_rejected}
use llm_inference_autoscalin.Service.Failover.{count}
use llm_inference_autoscalin.Http.{
  plain, route_error, Exception, Response, ok, http, reraised, status_for, headers_for, as_http,
  exception_of, respond, infer, explained, route_explain, RouteExplainResponse,
}

-- What an answer of `infer` has cost the user: what a result shows, and nothing if it is an error.
-- There is an answer.
abbrev pub Answered : String → Ledger → ℕ → Service × Option (Response InferenceResult) → Type 0
Answered u l t (s, some (ok x)) = IsCharged u l s.ledger t x
Answered u l t (s, some (http status retry_after)) = live s.ledger u t ≡ live l u t
Answered u l t (s, some (reraised e)) = live s.ledger u t ≡ live l u t
Answered u l t (s, none) = ⊥

-- Of whichever results an endpoint would return, the error is the same.
as_http-cases :
    {A B : Type 0} (second : ℕ) (e : Exception)
    → ((as_http {A = A} second e ≡ reraised e.kind) × (as_http {A = B} second e ≡ reraised e.kind))
      ⊎ ((status : ℕ) × (retry_after : Option ℕ) × (as_http {A = A} second e
            ≡ http status retry_after)
          × (as_http {A = B} second e ≡ http status retry_after))
unfolding as_http
as_http-cases second e = elim (Option-cases (status_for e.kind)) [
  | inl none_ ↦ inl (rw (none_, as_http) refl, rw (none_, as_http) refl)
  | inr (status, some_) ↦
      inr (status, headers_for second e, rw (some_, as_http) refl, rw (some_, as_http) refl)
]

raised-Answered :
    (second : ℕ) (u : String) (l : Ledger) (t : ℕ) (s : Service) (e : Exception)
    → live s.ledger u t ≡ live l u t
    → Answered u l t (s, some (as_http second e))
raised-Answered second u l t s e h =
    elim (as_http-cases {A = InferenceResult} {B = InferenceResult} second e) [
      | inl (again, _) ↦ rw again h
      | inr (status, retry_after, is_http, _) ↦ rw is_http h
    ]

respond-Answered :
    (second : ℕ) (u : String) (l : Ledger) (t : ℕ) (x : Service × Reply)
    → Bill u l t x
    → x.1 ≢ pending
    → Answered u l t (x.0, respond second x.1)
unfolding respond
respond-Answered second u l t (s, served x) h e = h
respond-Answered second u l t (s, raised f) h e = raised-Answered second u l t s (exception_of f) h
respond-Answered second u l t (s, pending) h e = absurd (e refl)

module _ (second : ℕ) (w : World) (q : Request) (s : Service)
    (during_wait : Spares q.user_id w.during_wait)
    (during_call : (n : ℕ) → Spares q.user_id (w.during_call n))
    (fresh : find w.entry_id (entries s.ledger q.user_id) ≡ none)
    (later : w.reserve_at ≤ w.settle_at) (inside : w.settle_at ≤ w.reserve_at + s.ledger.window)
    (ends : Ends w w.wait) where
  -- Every request is answered, and pays for exactly what it gets. Let no other request touch this
  -- user's entries meanwhile, let the reservation's id be fresh, let the request settle after its
  -- reservation and within the ledger's window, and let its wait for capacity end. Then `infer`
  -- answers; with a result, the user's live spend at the time of the settlement has gone up by its
  -- cost, which is the one that it shows rounded to micro-dollars, and is 0 for one from the cache;
  -- and with an HTTP error or an exception raised again, it is unchanged.
  pub infer-Answered : Answered q.user_id s.ledger w.settle_at (infer second w q s)
  unfolding infer
  infer-Answered =
      respond-Answered second q.user_id s.ledger w.settle_at (handle w q s)
        (handle-Bill w q s during_wait during_call fresh later inside) (handle-ends w q ends s)

-- What `infer` does with a refusal of the dry run: it answers the same and leaves the ledger alone.
abbrev pub Refuses :
    Service → Response RouteExplainResponse → Service × Option (Response InferenceResult) → Type 0
Refuses s (ok x) r = Unit {0}
Refuses s (http status retry_after) r =
    (r.1 ≡ some (http status retry_after)) × (r.0.ledger ≡ s.ledger)
Refuses s (reraised e) r = (r.1 ≡ some (reraised e)) × (r.0.ledger ≡ s.ledger)

refused-Refuses :
    (second : ℕ) (s x : Service) (e : Exception)
    → x.ledger ≡ s.ledger
    → Refuses s (as_http second e) (x, some (as_http second e))
refused-Refuses second s x e h =
    elim (as_http-cases {A = RouteExplainResponse} {B = InferenceResult} second e) [
      | inl (a, b) ↦ rw (a, b) (refl, h)
      | inr (status, retry_after, a, b) ↦ rw (a, b) (refl, h)
    ]

routed-Refuses :
    (second : ℕ) (w : World) (q : Request) (s x : Service) (r : Routed)
    → x.ledger ≡ s.ledger
    → let y = after_route w q x r in Refuses s (explained second r) (y.0, respond second y.1)
unfolding explained after_route respond exception_of
routed-Refuses second w q s x (routed d) h = tt
routed-Refuses second w q s x (refused e) h =
    refused-Refuses second s (count request_rejected x) (plain (route_error e)) h

-- The dry run tells the truth: a request that the rate limiter lets in, and that `route_explain`
-- answers with an error, gets that very error from `infer`, and the ledger does not change.
pub infer-Refuses :
    (second : ℕ) (w : World) (q : Request) (s : Service)
    → (check_rate_limit w q.user_id s).1 ≡ none
    → Refuses s (route_explain second w q) (infer second w q s)
unfolding route_explain infer handle after_limit
infer-Refuses second w q s passes =
    limited_by (check_rate_limit w q.user_id s) passes (check_rate_limit-ledger w q.user_id s)
  where
    limited_by :
        (x : Service × Option RateLimitExceededError)
        → x.1 ≡ none
        → x.0.ledger ≡ s.ledger
        → let y = after_limit w q x in
          Refuses s (route_explain second w q) (y.0, respond second y.1)
    limited_by (x, some e) h k = absurd (cc h)
    limited_by (x, none) h k =
        routed-Refuses second w q s x (route w.runtime w.settings.routing q.query []) k
