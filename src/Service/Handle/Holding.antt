-- ===== src/Service/Handle/Holding.antt =====
-- app/service.py and app/cost/memory.py: the hold of a request outlives the calls of models.
use llm_inference_autoscalin.Base.{
  ℕ, zero, suc, ◌+◌, String, ◌≡◌, refl, ◌∙◌, inl, inr, List, ◌∷◌, arith, Bool-cases,
}
use llm_inference_autoscalin.Breaker.{allows}
use llm_inference_autoscalin.Router.{Query, RoutingDecision}
use llm_inference_autoscalin.Ledger.{Ledger, Entry, entries, Reservation}
use llm_inference_autoscalin.Ledger.Entries.{live}
use llm_inference_autoscalin.Ledger.Close.{HasHold}
use llm_inference_autoscalin.Service.State.{Service, World}
use llm_inference_autoscalin.Service.Failover.{
  with_breaker, breaker_of, call_model, attempt, after_attempt-rule, generate,
}
use llm_inference_autoscalin.Service.Handle.{Request}

-- What the ledger keeps of a user.
pub record IsSame (u : String) (l l' : Ledger) : Type 0 where
  pub entries_of : entries l' u ≡ entries l u
  pub window_of : l'.window ≡ l.window

live-IsSame : (u : String) (l l' : Ledger) (t : ℕ) → IsSame u l l' → live l' u t ≡ live l u t
unfolding live
live-IsSame u l l' t h = rw h.entries_of (rw h.window_of refl)

-- The ledger `l'` has an open hold which is all that the user has spent since `l`.
pub record IsHolding (l l' : Ledger) (t : ℕ) (r : Reservation) : Type 0 where
  pub entry : Entry
  pub hold : HasHold l' r t entry
  pub live_of : live l' r.user_id t ≡ live l r.user_id t + r.amount

pub IsHolding-same :
    (l m n : Ledger) (t : ℕ) (r : Reservation)
    → IsSame r.user_id m n
    → IsHolding l m t r
    → IsHolding l n t r
IsHolding-same l m n t r same h = record {
  entry = h.entry;
  hold = record {
    is_open = h.hold.is_open;
    found = rw same.entries_of h.hold.found;
    amount_of = h.hold.amount_of;
    in_window = rw same.window_of h.hold.in_window;
  };
  live_of = live-IsSame r.user_id m n t same ∙ h.live_of;
}

-- Other requests leave this user's entries alone.
abbrev pub Spares : String → (Service → Service) → Type 0
Spares u f = (x : Service) → IsSame u x.ledger (f x).ledger

call-ledger :
    (w : World) (n : ℕ) (s : Service) (d : RoutingDecision) (q : Query)
    → (call_model w n s d q).0.ledger ≡ (w.during_call n s).ledger
unfolding call_model with_breaker
call-ledger w n s d q = ground arith

attempt-ledger :
    (w : World) (n : ℕ) (s : Service) (d : RoutingDecision) (q : Query) (P : Ledger → Type 0)
    → P s.ledger
    → ((x : Service) → x.ledger ≡ s.ledger → P (w.during_call n x).ledger)
    → P (attempt w n s d q).0.ledger
unfolding attempt with_breaker
attempt-ledger w n s d q P here called =
    elim (Bool-cases (allows (breaker_of s d.model.name) (w.allows_at n)).1) [
      | inl asked ↦ rw asked (rw call-ledger (called _ refl))
      | inr bars ↦ rw bars here
    ]

module _ (w : World) (q : Request) (l : Ledger) (r : Reservation) where
  attempt-Held :
      ((n : ℕ) → Spares r.user_id (w.during_call n))
      → (n : ℕ) (s : Service) (d : RoutingDecision) → IsHolding l s.ledger w.settle_at r
      → IsHolding l (attempt w n s d q.query).0.ledger w.settle_at r
  attempt-Held spares n s d h =
      attempt-ledger w n s d q.query (λ x. IsHolding l x w.settle_at r) h
        (λ x e.
          IsHolding-same l x.ledger (w.during_call n x).ledger w.settle_at r (spares n x) (rw e h))

  pub generate-Held :
      ((n : ℕ) → Spares r.user_id (w.during_call n))
      → (fuel : ℕ) (s : Service) (excluded : List String) (d : RoutingDecision)
      → IsHolding l s.ledger w.settle_at r
      → IsHolding l (generate w q.query fuel s excluded d).0.ledger w.settle_at r
  unfolding generate
  generate-Held spares zero s excluded d h = h
  generate-Held spares (suc fuel) s excluded d h =
      let h' = attempt-Held spares fuel s d h in
      after_attempt-rule (λ x. IsHolding l x.0.ledger w.settle_at r) w q.query excluded d
        (λ s' x. generate w q.query fuel s' (d.model.name ∷ excluded) x)
        (attempt w fuel s d q.query) (λ c. h') (λ f. h')
        (λ d' e. generate-Held spares fuel _ (d.model.name ∷ excluded) d' h')
