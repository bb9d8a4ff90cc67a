-- ===== src/Service/Drain.antt =====
-- app/service.py: the detached tasks of `_finalize_later`, and `drain_settlements`, which other
-- tasks can join and leave while it waits.
pub mod Runs
pub mod Returns
use llm_inference_autoscalin.Base.{
  ℕ, ◌+◌, ◌-◌, String, ◌≡◌, refl, ap, ◌∙◌, inl, inr, List, [], ◌∷◌, ◌++◌, arith, Bool, true, false,
  ◌||◌, Option, none, some, ◌==◌, if◌then◌else◌, Bool-cases, sum_by, length,
}
use llm_inference_autoscalin.Providers.{Completion, TokenUsage}
use llm_inference_autoscalin.Router.{RoutingDecision}
use llm_inference_autoscalin.Ledger.{Ledger, UsageRecord, Reservation, Usage, settle}
use llm_inference_autoscalin.Ledger.Budget.{settled_by}
use llm_inference_autoscalin.Ledger.Close.{settle-records}
use llm_inference_autoscalin.Gate.{CapacityGate}
use llm_inference_autoscalin.Gate
use llm_inference_autoscalin.Metrics.{Metrics, request_finished}
use llm_inference_autoscalin.Service.State.{Service, World}
use llm_inference_autoscalin.Service.Handle.{Request, cache_store}
use llm_inference_autoscalin.Service.Stream.{Progress, join, final_usage, usage_cost, finalize}

-- A task of `self._pending`: what `_finalize_later` was called with.
pub record Task : Type 0 where
  pub world : World
  pub request : Request
  pub decision : RoutingDecision
  pub reservation : Reservation
  pub progress : Progress

unfoldable pub run_task : Task → Service → Service
run_task t s = finalize t.world t.request t.decision t.reservation t.progress s

-- Where `drain_settlements` stands: before the test of its loop, or in the wait for `gather`.
pub data Phase : Type 0 where
  testing gathering : Phase

-- The service, the set `self._pending`, and with each task whether the `gather` under way awaits it.
pub record Draining : Type 0 where
  pub service : Service
  pub pending : List (Task × Bool)
  pub phase : Phase

-- The end of `_finalize_later`: the new task is pending, and no `gather` awaits it yet.
unfoldable pub finalize_later : Task → Draining → Draining
finalize_later t d = record d { pending = d.pending ++ (t, false) ∷ [] }

-- A task that ends discards itself.
unfoldable pub task_done : List (Task × Bool) → Task → List (Task × Bool) → Draining → Draining
task_done before t after d = record d { service = run_task t d.service; pending = before ++ after }

-- `list(self._pending)`, all of which the new `gather` awaits.
abbrev pub snapshot : List (Task × Bool) → List (Task × Bool)
snapshot [] = []
snapshot (x ∷ xs) = (x.0, true) ∷ snapshot xs

abbrev pub awaits : List (Task × Bool) → Bool
awaits [] = false
awaits (x ∷ xs) = x.1 || awaits xs

unfoldable pub proceed : Service → List (Task × Bool) → Phase → Option Draining
proceed s [] testing = none
proceed s (x ∷ xs) testing =
    some (record { service = s; pending = snapshot (x ∷ xs); phase = gathering })
proceed s xs gathering =
    if awaits xs
    then some (record { service = s; pending = xs; phase = gathering })
    else some (record { service = s; pending = xs; phase = testing })

-- What `drain_settlements` does next: it tests `while self._pending`, and returns, at `none`, or
-- gathers; or it goes on waiting, or its `gather` is over.
unfoldable pub drain_settlements : Draining → Option Draining
drain_settlements d = proceed d.service d.pending d.phase

abbrev pub usage_of_task : Task → TokenUsage
usage_of_task t = final_usage t.world t.decision t.progress.usage t.progress.pieces

abbrev pub cost_of_task : Task → ℕ
cost_of_task t = usage_cost t.decision (usage_of_task t)

-- What a task costs a user.
abbrev pub charge : String → Task → ℕ
charge u t = if t.reservation.user_id == u then cost_of_task t else 0

abbrev pub IsOpen : Task → Type 0
IsOpen t = t.reservation.closed ≡ false

abbrev Core : Type 0
Core = Metrics × CapacityGate × Ledger

abbrev core : Service → Core
core s = (s.metrics, s.gate, s.ledger)

cache_store-core :
    (w : World) (d : RoutingDecision) (prompt : String) (c : Completion) (s : Service)
    → core (cache_store w d prompt c s) ≡ core s
unfolding cache_store
cache_store-core w d prompt c s = ground arith

abbrev use_of : Task → Usage
use_of t = record {
  model = t.decision.model.name;
  input_tokens = (usage_of_task t).input_tokens;
  output_tokens = (usage_of_task t).output_tokens;
}

-- The metrics, the gate and the ledger after a task, of those before its count.
abbrev finished : Task → Core → Core
finished t c = (
  request_finished (usage_of_task t).input_tokens (usage_of_task t).output_tokens (cost_of_task t)
      t.decision.downgraded c.0,
  Gate.release c.1,
  c.2,
)

abbrev settled : Task → Service → Service
settled t s = record s {
  ledger = (settle s.ledger t.reservation (cost_of_task t) (use_of t) t.world.settle_at).0;
}

run_task-core : (t : Task) (s : Service) → core (run_task t s) ≡ finished t (core (settled t s))
unfolding run_task finalize
run_task-core t s =
    let c : Completion = record {
      text = join t.progress.pieces;
      input_tokens = (usage_of_task t).input_tokens;
      output_tokens = (usage_of_task t).output_tokens;
      model = t.decision.model.name;
    } in
    elim (Bool-cases t.progress.completed) [
      | inl whole ↦ rw whole (
          ap (finished t)
            (cache_store-core t.world t.decision t.request.query.prompt c (settled t s)))
      | inr cut ↦ rw cut refl
    ]

-- What has become of the service when these tasks have ended.
pub record IsDrained (s s' : Service) (ts : List Task) : Type 0 where
  pub active : s'.gate.active ≡ s.gate.active - length ts
  pub in_flight : s'.metrics.in_flight ≡ s.metrics.in_flight - length ts
  pub cost : s'.metrics.total_cost ≡ s.metrics.total_cost + sum_by cost_of_task ts
  pub charged :
      (u : String)
      → settled_by u s'.ledger.records ≡ settled_by u s.ledger.records + sum_by (charge u) ts

settled_by-append :
    (u : String) (rs : List UsageRecord) (r : UsageRecord)
    → settled_by u (rs ++ r ∷ []) ≡ settled_by u rs + (if r.user_id == u then r.cost else 0)
unfolding settled_by
settled_by-append u [] r = omega arith
settled_by-append u (x ∷ rs) r = omega (arith, settled_by-append u rs r)

pub run_task-IsDrained : (t : Task) (s : Service) → IsOpen t → IsDrained s (run_task t s) (t ∷ [])
unfolding request_finished Gate.release
run_task-IsDrained t s open_ =
    let e = run_task-core t s in
    record {
      active = ap (λ c. c.1.active) e;
      in_flight = ap (λ c. c.0.in_flight) e;
      cost = omega (arith, ap (λ c. c.0.total_cost) e);
      charged = λ u.
          ap (λ c. settled_by u c.2.records) e
          ∙ ap (settled_by u) (
              settle-records s.ledger t.reservation (cost_of_task t) (use_of t) t.world.settle_at
                open_)
          ∙ omega (arith, settled_by-append u s.ledger.records _);
    }
