-- ===== src/Service/Books.antt =====
-- app/service.py, app/metrics.py and app/cost/memory.py: the metrics and the ledger's records tell of
-- the same money and the same tokens.
pub mod Requests
pub mod Traffic
use llm_inference_autoscalin.Base.{
  ℕ, zero, suc, ◌+◌, String, ◌≡◌, refl, inl, inr, List, [], ◌∷◌, ◌++◌, arith, ltb, leb, false,
  Bool-cases, sum_by, sum_by-append,
}
use llm_inference_autoscalin.Breaker.{allows}
use llm_inference_autoscalin.Providers.{Completion}
use llm_inference_autoscalin.Router.{Query, RoutingDecision}
use llm_inference_autoscalin.Ledger.{
  Ledger, entries, total, epsilon, UsageRecord, Reservation, Reserved, held, exceeded, reserve,
  prune, settle, release,
}
use llm_inference_autoscalin.Gate.{acquire, wake}
use llm_inference_autoscalin.Metrics.{
  request_finished, request_shed, request_circuit_rejected, request_failover,
}
use llm_inference_autoscalin.Service.State.{Service, World, Wait-cases}
use llm_inference_autoscalin.Service.Failover.{
  Generated, generated, failed, out_of_fuel, with_breaker, breaker_of, call_model, attempt,
  after_attempt-rule, generate,
}
use llm_inference_autoscalin.Service.Handle.{Request, cache_store, wait_for, admit, finish}

abbrev pub cost_of : List UsageRecord → ℕ
cost_of rs = sum_by (λ r. r.cost) rs

abbrev pub input_of : List UsageRecord → ℕ
input_of rs = sum_by (λ r. r.input_tokens) rs

abbrev pub output_of : List UsageRecord → ℕ
output_of rs = sum_by (λ r. r.output_tokens) rs

-- The totals of the metrics, and the records.
abbrev pub Books : Type 0
Books = ℕ × ℕ × ℕ × List UsageRecord

abbrev pub books : Service → Books
books s = (
  s.metrics.total_cost, s.metrics.total_input_tokens, s.metrics.total_output_tokens,
  s.ledger.records,
)

-- The totals are those of the records.
pub record Adds (b : Books) : Type 0 where
  pub cost : b.0 ≡ cost_of b.3
  pub input : b.1 ≡ input_of b.3
  pub output : b.2 ≡ output_of b.3

abbrev pub IsBalanced : Service → Type 0
IsBalanced s = Adds (books s)

-- What keeps the books balanced, as other requests do meanwhile.
abbrev pub Balances : (Service → Service) → Type 0
Balances f = (s : Service) → IsBalanced s → IsBalanced (f s)

abbrev pub book : UsageRecord → Books → Books
book r b = (b.0 + r.cost, b.1 + r.input_tokens, b.2 + r.output_tokens, b.3 ++ r ∷ [])

pub book-Adds : (r : UsageRecord) (b : Books) → Adds b → Adds (book r b)
book-Adds r b h = record {
  cost = omega (arith, h.cost, sum_by-append (λ x. x.cost) b.3 (r ∷ []));
  input = omega (arith, h.input, sum_by-append (λ x. x.input_tokens) b.3 (r ∷ []));
  output = omega (arith, h.output, sum_by-append (λ x. x.output_tokens) b.3 (r ∷ []));
}

pub cache_store-books :
    (w : World) (d : RoutingDecision) (prompt : String) (c : Completion) (s : Service)
    → books (cache_store w d prompt c s) ≡ books s
unfolding cache_store
cache_store-books w d prompt c s = ground arith

call-books :
    (w : World) (n : ℕ) (s : Service) (d : RoutingDecision) (q : Query)
    → books (call_model w n s d q).0 ≡ books (w.during_call n s)
unfolding call_model with_breaker
call-books w n s d q = ground arith

attempt-IsBalanced :
    (w : World) (n : ℕ) (s : Service) (d : RoutingDecision) (q : Query)
    → Balances (w.during_call n)
    → IsBalanced s
    → IsBalanced (attempt w n s d q).0
unfolding attempt with_breaker request_circuit_rejected
attempt-IsBalanced w n s d q during h =
    elim (Bool-cases (allows (breaker_of s d.model.name) (w.allows_at n)).1) [
      | inl asked ↦ rw asked (rw (call-books w n) (during _ h))
      | inr bars ↦ rw bars h
    ]

pub generate-IsBalanced :
    (w : World) (q : Query) (fuel : ℕ) (s : Service) (excluded : List String) (d : RoutingDecision)
    → ((n : ℕ) → Balances (w.during_call n))
    → IsBalanced s
    → IsBalanced (generate w q fuel s excluded d).0
unfolding generate request_failover
generate-IsBalanced w q zero s excluded d during h = h
generate-IsBalanced w q (suc fuel) s excluded d during h =
    let h' = attempt-IsBalanced w fuel s d q (during fuel) h in
    after_attempt-rule (λ x. IsBalanced x.0) w q excluded d
      (λ s' x. generate w q fuel s' (d.model.name ∷ excluded) x) (attempt w fuel s d q) (λ c. h')
      (λ f. h') (λ d' e. generate-IsBalanced w q fuel _ (d.model.name ∷ excluded) d' during h')

-- A reservation, if there is one, is open, and no record is added.
abbrev pub Opens : Ledger → Ledger × Reserved → Type 0
Opens l (l', held r) = (l'.records ≡ l.records) × (r.closed ≡ false)
Opens l (l', exceeded e) = l'.records ≡ l.records

pub reserve-Opens :
    (l : Ledger) (u : String) (amount limit now : ℕ) (id : String)
    → Opens l (reserve l u amount limit now id)
unfolding reserve prune
reserve-Opens l u amount limit now id =
    elim (Bool-cases (ltb (limit + epsilon) (total (entries (prune l u now) u) + amount))) [
      | inl over ↦ rw over refl
      | inr fits ↦ rw fits (refl, refl)
    ]

release-records : (l : Ledger) (r : Reservation) → (release l r).0.records ≡ l.records
unfolding release
release-records l r = ground arith

pub finish-IsBalanced :
    (w : World) (q : Request) (r : Reservation) (s : Service) (x : Generated)
    → r.closed ≡ false
    → IsBalanced s
    → IsBalanced (finish w q r (s, x)).0
unfolding finish request_finished settle
finish-IsBalanced w q r s (generated d c) open_ h =
    rw open_ (rw (cache_store-books w d q.query.prompt c) (book-Adds _ (books s) h))
finish-IsBalanced w q r s (failed f) open_ h = rw (release-records s.ledger r) (record {
  cost = omega (arith, h.cost);
  input = omega (arith, h.input);
  output = omega (arith, h.output);
})
finish-IsBalanced w q r s out_of_fuel open_ h = h

pub admit-IsBalanced :
    (w : World) (r : Reservation) (s : Service)
    → Balances w.during_wait
    → IsBalanced s
    → IsBalanced (admit w r s).0
unfolding admit wait_for acquire wake request_shed
admit-IsBalanced w r s during h = elim (Bool-cases (ltb s.gate.active s.gate.capacity)) [
  | inl room ↦ rw room h
  | inr full ↦
      let parked : Service = record s { gate = record s.gate { waiting = s.gate.waiting + 1 } } in
      let h' = during parked h in
      rw full (elim (Wait-cases w.wait) [
        | inl e ↦ rw e h'
        | inr e ↦ elim (Bool-cases (leb w.settings.admission_timeout 0)) [
          | inl never ↦ rw e (rw never h')
          | inr sheds ↦ rw e (rw sheds (rw (release-records (w.during_wait parked).ledger r) h'))
        ]
      ])
]
