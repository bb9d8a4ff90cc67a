-- ===== src/Service/Books/Requests.antt =====
-- app/service.py: every request, buffered or streamed, keeps the books.
use mathlib.Core.Path.{subst}
use llm_inference_autoscalin.Base.{
  ℕ, ◌+◌, String, ◌≡◌, refl, sym, inl, inr, Option, none, some, [], false, Bool-cases, Option-cases,
}
use llm_inference_autoscalin.Providers.{Completion, TokenUsage}
use llm_inference_autoscalin.Router.{RoutingDecision, Routed, routed, refused}
use llm_inference_autoscalin.RateLimit.{RateLimitExceededError}
use llm_inference_autoscalin.RateLimit
use llm_inference_autoscalin.Cache.{InMemoryCache, CacheEntry}
use llm_inference_autoscalin.Cache
use llm_inference_autoscalin.Ledger.{Ledger, Reservation, Reserved, held, exceeded, Usage, settle}
use llm_inference_autoscalin.Ledger.Close.{settle-records}
use llm_inference_autoscalin.Metrics.{
  request_started, request_rejected, request_finished, request_rate_limited, cache_hit, cache_miss,
}
use llm_inference_autoscalin.Service.State.{Service, World}
use llm_inference_autoscalin.Service.Handle.{
  Request, limited, check_rate_limit, looked_up, lookup_cache, cache_key, Admission, admitted,
  turned_away, waits, passes_of, after_admit, after_reserve, after_lookup, after_route, after_limit,
  handle,
}
use llm_inference_autoscalin.Service.Stream.{
  StreamWorld, Progress, join, final_usage, usage_cost, finalize, stream_admitted, stream_reserved,
  stream_looked_up, stream_routed, stream_limited, handle_stream,
}
use llm_inference_autoscalin.Service.Books.{
  Books, books, Adds, IsBalanced, Balances, book-Adds, cache_store-books, generate-IsBalanced,
  Opens, reserve-Opens, finish-IsBalanced, admit-IsBalanced,
}

limited-books :
    (s : Service) (x : RateLimit.TokenBucketLimiter × Option RateLimitExceededError)
    → books (limited s x).0 ≡ books s
unfolding limited request_rate_limited
limited-books s (l, none) = refl
limited-books s (l, some e) = refl

check_rate_limit-books :
    (w : World) (u : String) (s : Service) → books (check_rate_limit w u s).0 ≡ books s
unfolding check_rate_limit limited
check_rate_limit-books w u s = elim (Option-cases s.rate_limiter) [
  | inl off ↦ rw off refl
  | inr (l, on) ↦ rw on (limited-books s (RateLimit.check l u w.settings.token w.limiter_at))
]

looked_up-books :
    (s : Service) (x : InMemoryCache × Option CacheEntry) → books (looked_up s x).0 ≡ books s
unfolding looked_up cache_hit cache_miss
looked_up-books s (c, none) = refl
looked_up-books s (c, some e) = refl

lookup_cache-books :
    (w : World) (d : RoutingDecision) (prompt : String) (s : Service)
    → books (lookup_cache w d prompt s).0 ≡ books s
unfolding lookup_cache looked_up
lookup_cache-books w d prompt s = elim (Option-cases s.cache) [
  | inl off ↦ rw off refl
  | inr (c, on) ↦ rw on (looked_up-books s (Cache.get c (cache_key w d prompt) w.lookup_at))
]

IsBalanced-same : (s s' : Service) → books s' ≡ books s → IsBalanced s → IsBalanced s'
IsBalanced-same s s' e h = subst Adds (sym e) h

module _ (w : World) (q : Request) (during_wait : Balances w.during_wait)
    (during_call : (n : ℕ) → Balances (w.during_call n)) where
  after_admit-IsBalanced :
      (d : RoutingDecision) (r : Reservation) (x : Service × Admission)
      → r.closed ≡ false
      → IsBalanced x.0
      → IsBalanced (after_admit w q d r x).0
  unfolding after_admit request_started
  after_admit-IsBalanced d r (s, admitted) open_ h =
      finish-IsBalanced w q r _ _ open_
        (generate-IsBalanced w q.query (passes_of w) _ [] d during_call h)
  after_admit-IsBalanced d r (s, turned_away) open_ h = h
  after_admit-IsBalanced d r (s, waits) open_ h = h

  after_reserve-IsBalanced :
      (d : RoutingDecision) (s : Service) (y : Ledger × Reserved)
      → Opens s.ledger y
      → IsBalanced s
      → IsBalanced (after_reserve w q d s y).0
  unfolding after_reserve request_rejected
  after_reserve-IsBalanced d s (l, held r) (same, open_) h =
      after_admit-IsBalanced d r _ open_
        (admit-IsBalanced w r (record s { ledger = l }) during_wait (rw same h))
  after_reserve-IsBalanced d s (l, exceeded e) same h = rw same h

  after_lookup-IsBalanced :
      (d : RoutingDecision) (x : Service × Option CacheEntry)
      → IsBalanced x.0
      → IsBalanced (after_lookup w q d x).0
  unfolding after_lookup
  after_lookup-IsBalanced d (s, some entry) h = h
  after_lookup-IsBalanced d (s, none) h =
      after_reserve-IsBalanced d s _
        (reserve-Opens s.ledger q.user_id d.projected_cost _ w.reserve_at w.entry_id) h

  after_route-IsBalanced :
      (s : Service) (x : Routed) → IsBalanced s → IsBalanced (after_route w q s x).0
  unfolding after_route request_rejected
  after_route-IsBalanced s (routed d) h =
      after_lookup-IsBalanced d (lookup_cache w d q.query.prompt s) (
        IsBalanced-same s (lookup_cache w d q.query.prompt s).0
          (lookup_cache-books w d q.query.prompt s) h)
  after_route-IsBalanced s (refused e) h = h

  after_limit-IsBalanced :
      (x : Service × Option RateLimitExceededError)
      → IsBalanced x.0
      → IsBalanced (after_limit w q x).0
  unfolding after_limit
  after_limit-IsBalanced (s, some e) h = h
  after_limit-IsBalanced (s, none) h = after_route-IsBalanced s _ h

  pub handle-IsBalanced : (s : Service) → IsBalanced s → IsBalanced (handle w q s).0
  unfolding handle
  handle-IsBalanced s h = after_limit-IsBalanced (check_rate_limit w q.user_id s) (
      IsBalanced-same s (check_rate_limit w q.user_id s).0 (check_rate_limit-books w q.user_id s) h)

-- The books after `request_finished`.
abbrev finished : TokenUsage → ℕ → Books → Books
finished u cost b = (b.0 + cost, b.1 + u.input_tokens, b.2 + u.output_tokens, b.3)

finalize-IsBalanced :
    (w : World) (q : Request) (d : RoutingDecision) (r : Reservation) (p : Progress) (s : Service)
    → r.closed ≡ false
    → IsBalanced s
    → IsBalanced (finalize w q d r p s)
unfolding finalize request_finished
finalize-IsBalanced w q d r p s open_ h =
    let u = final_usage w d p.usage p.pieces in
    let c : Completion = record {
      text = join p.pieces;
      input_tokens = u.input_tokens;
      output_tokens = u.output_tokens;
      model = d.model.name;
    } in
    let use_ : Usage = record {
      model = d.model.name;
      input_tokens = u.input_tokens;
      output_tokens = u.output_tokens;
    } in
    let settled : Service = record s {
      ledger = (settle s.ledger r (usage_cost d u) use_ w.settle_at).0;
    } in
    let booked : Adds (finished u (usage_cost d u) (books settled)) =
      rw (settle-records s.ledger r (usage_cost d u) use_ w.settle_at open_)
        (book-Adds _ (books s) h) in
    elim (Bool-cases p.completed) [
      | inl whole ↦ rw whole (
          subst (λ b. Adds (finished u (usage_cost d u) b))
            (sym (cache_store-books w d q.query.prompt c settled)) booked)
      | inr cut ↦ rw cut booked
    ]

module _ (w : StreamWorld) (q : Request) (during_wait : Balances w.world.during_wait)
    (during_stream : Balances w.during_stream) where
  admitted-IsBalanced :
      (d : RoutingDecision) (r : Reservation) (x : Service × Admission)
      → r.closed ≡ false
      → IsBalanced x.0
      → IsBalanced (stream_admitted w q d r x).0
  unfolding stream_admitted request_started
  admitted-IsBalanced d r (s, admitted) open_ h =
      finalize-IsBalanced w.world q d r _ _ open_ (during_stream _ h)
  admitted-IsBalanced d r (s, turned_away) open_ h = h
  admitted-IsBalanced d r (s, waits) open_ h = h

  reserved-IsBalanced :
      (d : RoutingDecision) (s : Service) (y : Ledger × Reserved)
      → Opens s.ledger y
      → IsBalanced s
      → IsBalanced (stream_reserved w q d s y).0
  unfolding stream_reserved request_rejected
  reserved-IsBalanced d s (l, held r) (same, open_) h =
      admitted-IsBalanced d r _ open_
        (admit-IsBalanced w.world r (record s { ledger = l }) during_wait (rw same h))
  reserved-IsBalanced d s (l, exceeded e) same h = rw same h

  looked_up-IsBalanced :
      (d : RoutingDecision) (x : Service × Option CacheEntry)
      → IsBalanced x.0
      → IsBalanced (stream_looked_up w q d x).0
  unfolding stream_looked_up
  looked_up-IsBalanced d (s, some entry) h = h
  looked_up-IsBalanced d (s, none) h =
      reserved-IsBalanced d s _
        (reserve-Opens s.ledger q.user_id d.projected_cost _ w.world.reserve_at w.world.entry_id) h

  routed-IsBalanced :
      (s : Service) (x : Routed) → IsBalanced s → IsBalanced (stream_routed w q s x).0
  unfolding stream_routed request_rejected
  routed-IsBalanced s (routed d) h =
      looked_up-IsBalanced d (lookup_cache w.world d q.query.prompt s) (
        IsBalanced-same s (lookup_cache w.world d q.query.prompt s).0
          (lookup_cache-books w.world d q.query.prompt s) h)
  routed-IsBalanced s (refused e) h = h

  limited-IsBalanced :
      (x : Service × Option RateLimitExceededError)
      → IsBalanced x.0
      → IsBalanced (stream_limited w q x).0
  unfolding stream_limited
  limited-IsBalanced (s, some e) h = h
  limited-IsBalanced (s, none) h = routed-IsBalanced s _ h

  pub handle_stream-IsBalanced : (s : Service) → IsBalanced s → IsBalanced (handle_stream w q s).0
  unfolding handle_stream
  handle_stream-IsBalanced s h = limited-IsBalanced (check_rate_limit w.world q.user_id s) (
      IsBalanced-same s (check_rate_limit w.world q.user_id s).0
        (check_rate_limit-books w.world q.user_id s) h)
