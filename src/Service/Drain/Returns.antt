-- ===== src/Service/Drain/Returns.antt =====
-- app/service.py: what is settled when `drain_settlements` returns, and that it can.
use llm_inference_autoscalin.Base.{
  ℕ, ◌≡◌, refl, sym, ap, ◌∙◌, none, List, [], ◌∷◌, ◌++◌, arith, sum_by, sum_by-append, All, length,
}
use llm_inference_autoscalin.Service.Drain.{
  Task, cost_of_task, charge, IsOpen, IsDrained, Draining, drain_settlements,
}
use llm_inference_autoscalin.Service.Drain.Runs.{
  Run, tasks, returns-empty, Run-conserves, Run-IsOpen, Run-IsDrained,
}

sum_by-one : (ts : List Task) → sum_by (λ t. 1) ts ≡ length ts
sum_by-one [] = refl
sum_by-one (t ∷ ts) = omega (arith, sum_by-one ts)

-- All the tasks that there were to settle.
abbrev pub work : Draining → List Task → List Task
work d joined = tasks d.pending ++ joined

all_ended :
    {d : Draining} {joined ended : List Task} {d' : Draining} (f : Task → ℕ)
    → Run d joined ended d'
    → drain_settlements d' ≡ none
    → sum_by f ended ≡ sum_by f (work d joined)
unfolding drain_settlements
all_ended {d} {joined} {d' = d'} f run e = omega (
  arith,
  Run-conserves f run,
  ap (λ xs. sum_by f (tasks xs)) (returns-empty d'.service d'.pending d'.phase e),
  sum_by-append f (tasks d.pending) joined,
)

-- Draining loses nothing. Let tasks end, and new ones join, at any points between the steps of
-- `drain_settlements`, and let their reservations be open. If it returns, then each task that was
-- pending at its start or has joined since has given its place in the gate back and left the number
-- in flight, the cost total of the metrics is up by the price of each task's final usage, and every
-- user's settled cost by the prices of the user's own.
pub drain_settlements-IsDrained :
    {d : Draining} {joined ended : List Task} {d' : Draining}
    → Run d joined ended d'
    → drain_settlements d' ≡ none
    → All IsOpen (tasks d.pending)
    → All IsOpen joined
    → IsDrained d.service d'.service (work d joined)
drain_settlements-IsDrained {d} {joined} {ended} {d'} run e open_ opens =
    let drained = Run-IsDrained run (Run-IsOpen run open_ opens).0 in
    let same : length ended ≡ length (work d joined) =
      sym (sum_by-one ended) ∙ all_ended (λ t. 1) run e ∙ sum_by-one (work d joined) in
    record {
      active = omega (arith, drained.active, same);
      in_flight = omega (arith, drained.in_flight, same);
      cost = omega (arith, drained.cost, all_ended cost_of_task run e);
      charged = λ u. omega (arith, drained.charged u, all_ended (charge u) run e);
    }

-- A run that goes on from here, without a task that joins, until it returns.
abbrev Finishes : Draining → List Task → Type 0
Finishes d joined =
    (ended : List Task) × (d' : Draining) × Run d joined ended d' × (drain_settlements d' ≡ none)
