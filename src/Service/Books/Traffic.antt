-- ===== src/Service/Books/Traffic.antt =====
-- app/service.py: the books over any traffic, and what `/v1/usage` and `/metrics` show of them.
use llm_inference_autoscalin.Base.{
  ℕ, ◌+◌, String, ◌≡◌, List, [], ◌∷◌, arith, Dict, insert, lookup, lookup_or, sum_by,
}
use llm_inference_autoscalin.Ledger.{UsageRecord, add_records, summary}
use llm_inference_autoscalin.Service.State.{Service, World}
use llm_inference_autoscalin.Service.Handle.{Request, handle}
use llm_inference_autoscalin.Service.Stream.{StreamWorld, handle_stream}
use llm_inference_autoscalin.Service.Books.{cost_of, IsBalanced}
use llm_inference_autoscalin.Service.Books.Requests.{handle-IsBalanced, handle_stream-IsBalanced}

-- What any requests do to the service, one after the other and inside each other: while one of them
-- waits for capacity, for a model or for a stream, there is traffic again.
pub data Traffic : (Service → Service) → Type 0 where
  quiet : Traffic (λ s. s)
  buffered :
      (w : World) (q : Request) {f : Service → Service}
      → Traffic w.during_wait
      → ((n : ℕ) → Traffic (w.during_call n))
      → Traffic f
      → Traffic (λ s. f (handle w q s).0)
  streams :
      (w : StreamWorld) (q : Request) {f : Service → Service}
      → Traffic w.world.during_wait
      → Traffic w.during_stream
      → Traffic f
      → Traffic (λ s. f (handle_stream w q s).0)

Traffic-IsBalanced :
    {f : Service → Service} → Traffic f → (s : Service) → IsBalanced s → IsBalanced (f s)
Traffic-IsBalanced quiet s h = h
Traffic-IsBalanced (buffered w q wait call next) s h =
    Traffic-IsBalanced next (handle w q s).0
      (handle-IsBalanced w q (Traffic-IsBalanced wait) (λ n. Traffic-IsBalanced (call n)) s h)
Traffic-IsBalanced (streams w q wait stream next) s h =
    Traffic-IsBalanced next (handle_stream w q s).0
      (handle_stream-IsBalanced w q (Traffic-IsBalanced wait) (Traffic-IsBalanced stream) s h)

-- The sum over the users.
abbrev pub spend_total : Dict ℕ → ℕ
spend_total d = sum_by (λ e. e.1) d

spend_total-insert :
    (u : String) (c : ℕ) (d : Dict ℕ)
    → spend_total (insert u (lookup_or u 0 d + c) d) ≡ spend_total d + c
unfolding insert lookup
spend_total-insert u c [] = omega arith
spend_total-insert u c ((v, n) ∷ d) = ground (arith, spend_total-insert u c d)

spend_total-add_records :
    (out : Dict ℕ) (rs : List UsageRecord)
    → spend_total (add_records out rs) ≡ spend_total out + cost_of rs
unfolding add_records
spend_total-add_records out [] = omega arith
spend_total-add_records out (r ∷ rs) = omega (
  arith,
  spend_total-add_records (insert r.user_id (lookup_or r.user_id 0 out + r.cost) out) rs,
  spend_total-insert r.user_id r.cost out,
)

-- The books balance. Whatever buffered and streamed requests are made, one after the other and while
-- others wait, and whichever way each of them ends: if the metrics' totals of the cost and the tokens
-- are those of the ledger's records before, they are so afterwards, and the cost total is the sum of
-- what `summary` shows for the users.
pub Traffic-Agrees :
    {f : Service → Service} (traffic : Traffic f) (s : Service)
    → IsBalanced s
    → IsBalanced (f s) × (spend_total (summary (f s).ledger) ≡ (f s).metrics.total_cost)
unfolding summary
Traffic-Agrees {f} traffic s h =
    let h' = Traffic-IsBalanced traffic s h in
    (h', omega (arith, spend_total-add_records [] (f s).ledger.records, h'.cost))
