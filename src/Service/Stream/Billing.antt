-- ===== src/Service/Stream/Billing.antt =====
-- app/service.py and app/cost/memory.py: what a stream costs its user, on every way it can end.
use llm_inference_autoscalin.Base.{
  ℕ, ◌+◌, ◌≤◌, String, ◌≡◌, refl, ◌∙◌, inl, inr, Option, none, some, arith, Bool-cases,
}
use llm_inference_autoscalin.Router.{RoutingDecision, Routed, routed, refused}
use llm_inference_autoscalin.RateLimit.{RateLimitExceededError}
use llm_inference_autoscalin.Cache.{CacheEntry}
use llm_inference_autoscalin.Ledger.{Ledger, entries, Reservation, Reserved, held, exceeded}
use llm_inference_autoscalin.Ledger.Entries.{live, find}
use llm_inference_autoscalin.Ledger.Holds.{live-prune, Outcome, reserve-Outcome}
use llm_inference_autoscalin.Ledger.Close.{live-settle}
use llm_inference_autoscalin.Ledger.Charge.{hold_of, with_hold-HasHold, live-with_hold_later}
use llm_inference_autoscalin.Service.State.{Service, World}
use llm_inference_autoscalin.Service.Handle.{
  Request, check_rate_limit, lookup_cache, user_limit, Admission, admitted, turned_away, waits,
}
use llm_inference_autoscalin.Service.Handle.Holding.{IsHolding, IsHolding-same, Spares}
use llm_inference_autoscalin.Service.Handle.Billing.{
  AfterAdmit, admit-AfterAdmit, lookup_cache-ledger, check_rate_limit-ledger, cache_store-ledger,
}
use llm_inference_autoscalin.Service.Stream.{
  StreamWorld, Progress, final_usage, usage_cost, finalize, StreamReply, replayed, streamed,
  refuses, stream_pending, stream_admitted, stream_reserved, stream_looked_up, stream_routed,
  stream_limited, handle_stream,
}

-- What a stream has cost a user: the price of its final usage, if it got to the model; nothing, if
-- it was replayed from the cache or refused; and at least nothing, while it waits.
abbrev pub StreamBill : World → String → Ledger → ℕ → Service × StreamReply → Type 0
StreamBill w u l t (s, streamed d p) =
    live s.ledger u t ≡ live l u t + usage_cost d (final_usage w d p.usage p.pieces)
StreamBill w u l t (s, replayed es) = live s.ledger u t ≡ live l u t
StreamBill w u l t (s, refuses f) = live s.ledger u t ≡ live l u t
StreamBill w u l t (s, stream_pending) = live l u t ≤ live s.ledger u t

finalize-live :
    (w : World) (q : Request) (d : RoutingDecision) (r : Reservation) (p : Progress) (l : Ledger)
    (s : Service)
    → IsHolding l s.ledger w.settle_at r
    → live (finalize w q d r p s).ledger r.user_id w.settle_at
      ≡ live l r.user_id w.settle_at + usage_cost d (final_usage w d p.usage p.pieces)
unfolding finalize
finalize-live w q d r p l s h =
    let u = final_usage w d p.usage p.pieces in
    let bill =
      live-settle s.ledger r (usage_cost d u)
        (record {
          model = d.model.name;
          input_tokens = u.input_tokens;
          output_tokens = u.output_tokens;
        })
        w.settle_at h.hold in
    elim (Bool-cases p.completed) [
      | inl whole ↦ rw whole (rw (cache_store-ledger w q l r) (omega (arith, bill, h.live_of)))
      | inr cut ↦ rw cut (omega (arith, bill, h.live_of))
    ]

module _ (w : StreamWorld) (q : Request) (s : Service)
    (during_wait : Spares q.user_id w.world.during_wait)
    (during_stream : Spares q.user_id w.during_stream)
    (fresh : find w.world.entry_id (entries s.ledger q.user_id) ≡ none)
    (later : w.world.reserve_at ≤ w.world.settle_at)
    (inside : w.world.settle_at ≤ w.world.reserve_at + s.ledger.window) where
  abbrev Billed : Service × StreamReply → Type 0
  Billed = StreamBill w.world q.user_id s.ledger w.world.settle_at

  abbrev hold : RoutingDecision → Reservation
  hold d = hold_of q.user_id d.projected_cost w.world.reserve_at w.world.entry_id

  admitted-StreamBill :
      (d : RoutingDecision) (x : Service × Admission)
      → AfterAdmit w.world q s.ledger (hold d) x
      → Billed (stream_admitted w q d (hold d) x)
  unfolding stream_admitted
  admitted-StreamBill d (x, admitted) h =
      finalize-live w.world q d (hold d) _ s.ledger _
        (IsHolding-same s.ledger x.ledger _ w.world.settle_at (hold d) (during_stream _) h)
  admitted-StreamBill d (x, turned_away) h = h
  admitted-StreamBill d (x, waits) h = ground (arith, h.live_of)

  reserved-StreamBill :
      (d : RoutingDecision) (x : Service) (y : Ledger × Reserved)
      → x.ledger ≡ s.ledger
      → Outcome s.ledger q.user_id d.projected_cost
          (user_limit w.world q)
          w.world.reserve_at
          w.world.entry_id
          y
      → Billed (stream_reserved w q d x y)
  unfolding stream_reserved
  reserved-StreamBill d x (l, held r) e o = rw o.ledger (
      rw o.hold (
        admitted-StreamBill d _ (
          admit-AfterAdmit w.world q s.ledger (hold d) during_wait _ (record {
            entry = record {
              at = w.world.reserve_at;
              amount = d.projected_cost;
              id = w.world.entry_id;
            };
            hold =
                with_hold-HasHold s.ledger q.user_id d.projected_cost w.world.reserve_at
                  w.world.entry_id w.world.settle_at fresh inside;
            live_of =
                live-with_hold_later s.ledger q.user_id d.projected_cost w.world.reserve_at
                  w.world.entry_id w.world.settle_at later inside;
          }))))
  reserved-StreamBill d x (l, exceeded err) e o =
      rw o.ledger
        (live-prune s.ledger q.user_id q.user_id w.world.reserve_at w.world.settle_at later)

  looked_up-StreamBill :
      (d : RoutingDecision) (x : Service × Option CacheEntry)
      → x.0.ledger ≡ s.ledger
      → Billed (stream_looked_up w q d x)
  unfolding stream_looked_up
  looked_up-StreamBill d (x, some entry) e = rw e refl
  looked_up-StreamBill d (x, none) e = reserved-StreamBill d x _ e (
      rw e (
        reserve-Outcome s.ledger q.user_id d.projected_cost (user_limit w.world q)
          w.world.reserve_at w.world.entry_id))

  routed-StreamBill :
      (x : Service) (y : Routed) → x.ledger ≡ s.ledger → Billed (stream_routed w q x y)
  unfolding stream_routed
  routed-StreamBill x (routed d) e =
      looked_up-StreamBill d (lookup_cache w.world d q.query.prompt x)
        (lookup_cache-ledger w.world d q.query.prompt x ∙ e)
  routed-StreamBill x (refused err) e = rw e refl

  limited-StreamBill :
      (x : Service × Option RateLimitExceededError)
      → x.0.ledger ≡ s.ledger
      → Billed (stream_limited w q x)
  unfolding stream_limited
  limited-StreamBill (x, some err) e = rw e refl
  limited-StreamBill (x, none) e = routed-StreamBill x _ e

  -- A stream costs its user what it used, whichever way it ends. Let no other request touch this
  -- user's entries meanwhile, let the reservation's id be fresh, and let the finalizer settle
  -- after the reservation and within the ledger's window. Then, at that time, the live spend has gone up by the price of the
  -- final usage, if the stream got to the model, be it completed, broken off by the provider or
  -- left by the client at any event. It is unchanged if the stream was replayed from the cache or
  -- refused, and not lower while it waits.
  pub handle_stream-StreamBill :
      StreamBill w.world q.user_id s.ledger w.world.settle_at (handle_stream w q s)
  unfolding handle_stream
  handle_stream-StreamBill =
      limited-StreamBill (check_rate_limit w.world q.user_id s)
        (check_rate_limit-ledger w.world q.user_id s)
