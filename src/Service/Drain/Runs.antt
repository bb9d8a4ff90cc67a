-- ===== src/Service/Drain/Runs.antt =====
-- app/service.py: the runs of `drain_settlements`, between whose steps tasks end and join.
use llm_inference_autoscalin.Base.{
  ℕ, ◌+◌, ◌≡◌, refl, sym, ap, ◌∙◌, inl, inr, Bool, false, none, some, List, [], ◌∷◌, ◌++◌, arith,
  some_inj, Bool-cases, sum_by, sum_by-append, All,
}
use mathlib.Core.Path.{subst}
use llm_inference_autoscalin.Service.State.{Service}
use llm_inference_autoscalin.Service.Drain.{
  Task, IsOpen, IsDrained, run_task-IsDrained, Phase, testing, gathering, Draining, finalize_later,
  task_done, snapshot, awaits, proceed, drain_settlements,
}

-- A run from a state on, with the tasks that have joined since and those that have ended.
pub data Run (d : Draining) : List Task → List Task → Draining → Type 0 where
  start : Run d [] [] d
  joins :
      (t : Task) {joined ended : List Task} {d' : Draining}
      → Run d joined ended d'
      → Run d (t ∷ joined) ended (finalize_later t d')
  ends :
      (before : List (Task × Bool)) (t : Task) (b : Bool) (after : List (Task × Bool))
      {joined ended : List Task} {d' : Draining}
      → Run d joined ended d'
      → d'.pending ≡ before ++ (t, b) ∷ after
      → Run d joined (t ∷ ended) (task_done before t after d')
  advances :
      {joined ended : List Task} {d' d'' : Draining}
      → Run d joined ended d'
      → drain_settlements d' ≡ some d''
      → Run d joined ended d''

abbrev pub tasks : List (Task × Bool) → List Task
tasks [] = []
tasks (x ∷ xs) = x.0 ∷ tasks xs

tasks-append : (xs ys : List (Task × Bool)) → tasks (xs ++ ys) ≡ tasks xs ++ tasks ys
tasks-append [] ys = refl
tasks-append (x ∷ xs) ys = ap (λ ts. x.0 ∷ ts) (tasks-append xs ys)

tasks-snapshot : (xs : List (Task × Bool)) → tasks (snapshot xs) ≡ tasks xs
tasks-snapshot [] = refl
tasks-snapshot (x ∷ xs) = ap (λ ts. x.0 ∷ ts) (tasks-snapshot xs)

-- A step of the loop changes neither the service nor which tasks are pending.
record IsSameWork (s : Service) (xs : List (Task × Bool)) (d : Draining) : Type 0 where
  service_of : d.service ≡ s
  tasks_of : tasks d.pending ≡ tasks xs

proceed-IsSameWork :
    (s : Service) (xs : List (Task × Bool)) (p : Phase) {d : Draining}
    → proceed s xs p ≡ some d
    → IsSameWork s xs d
unfolding proceed
proceed-IsSameWork s [] testing e = absurd (cc e)
proceed-IsSameWork s (x ∷ xs) testing {d} e = record {
  service_of = ap (λ y. y.service) (sym (some_inj e));
  tasks_of = ap (λ y. tasks y.pending) (sym (some_inj e)) ∙ tasks-snapshot (x ∷ xs);
}
proceed-IsSameWork s xs gathering {d} e = elim (Bool-cases (awaits xs)) [
  | inl waits ↦
      let f = some_inj (rw (waits, proceed) at e) in
      record {
        service_of = ap (λ y. y.service) (sym f);
        tasks_of = ap (λ y. tasks y.pending) (sym f);
      }
  | inr over ↦
      let f = some_inj (rw (over, proceed) at e) in
      record {
        service_of = ap (λ y. y.service) (sym f);
        tasks_of = ap (λ y. tasks y.pending) (sym f);
      }
]

-- It returns only with no task pending.
pub returns-empty :
    (s : Service) (xs : List (Task × Bool)) (p : Phase) → proceed s xs p ≡ none → xs ≡ []
unfolding proceed
returns-empty s [] testing e = refl
returns-empty s (x ∷ xs) testing e = absurd (cc e)
returns-empty s xs gathering e = elim (Bool-cases (awaits xs)) [
  | inl waits ↦ absurd (cc (rw (waits, proceed) at e))
  | inr over ↦ absurd (cc (rw (over, proceed) at e))
]

advance-IsSameWork :
    (d : Draining) {d' : Draining}
    → drain_settlements d ≡ some d'
    → IsSameWork d.service d.pending d'
unfolding drain_settlements
advance-IsSameWork d e = proceed-IsSameWork d.service d.pending d.phase e

pub sum_by-tasks_append :
    (f : Task → ℕ) (xs ys : List (Task × Bool))
    → sum_by f (tasks (xs ++ ys)) ≡ sum_by f (tasks xs) + sum_by f (tasks ys)
sum_by-tasks_append f xs ys =
    ap (sum_by f) (tasks-append xs ys) ∙ sum_by-append f (tasks xs) (tasks ys)

-- No task is lost: those that have ended and those that are pending are those that were pending at
-- first and those that have joined.
pub Run-conserves :
    {d : Draining} {joined ended : List Task} {d' : Draining} (f : Task → ℕ)
    → Run d joined ended d'
    → sum_by f ended + sum_by f (tasks d'.pending) ≡ sum_by f (tasks d.pending) + sum_by f joined
unfolding finalize_later task_done
Run-conserves f start = omega arith
Run-conserves f (joins t {d' = d'} run) =
    omega (arith, Run-conserves f run, sum_by-tasks_append f d'.pending ((t, false) ∷ []))
Run-conserves f (ends before t b after run e) = omega (
  arith,
  Run-conserves f run,
  ap (λ xs. sum_by f (tasks xs)) e,
  sum_by-tasks_append f before ((t, b) ∷ after),
  sum_by-tasks_append f before after,
)
Run-conserves f (advances {d' = d'} run e) =
    omega (arith, Run-conserves f run, ap (sum_by f) (advance-IsSameWork d' e).tasks_of)

All-middle :
    (before : List (Task × Bool)) (t : Task) (b : Bool) (after : List (Task × Bool))
    → All IsOpen (tasks (before ++ (t, b) ∷ after))
    → IsOpen t × All IsOpen (tasks (before ++ after))
All-middle [] t b after (h, k) = (h, k)
All-middle (x ∷ before) t b after (h, k) = let (g, m) = All-middle before t b after k in (g, (h, m))

All-joined :
    (xs : List (Task × Bool)) (t : Task)
    → All IsOpen (tasks xs)
    → IsOpen t
    → All IsOpen (tasks (xs ++ (t, false) ∷ []))
All-joined [] t h k = (k, tt)
All-joined (x ∷ xs) t (g, h) k = (g, All-joined xs t h k)

pub Run-IsOpen :
    {d : Draining} {joined ended : List Task} {d' : Draining}
    → Run d joined ended d'
    → All IsOpen (tasks d.pending)
    → All IsOpen joined
    → All IsOpen ended × All IsOpen (tasks d'.pending)
unfolding finalize_later task_done
Run-IsOpen start h k = (tt, h)
Run-IsOpen (joins t {d' = d'} run) h (o, k) =
    let (g, m) = Run-IsOpen run h k in (g, All-joined d'.pending t m o)
Run-IsOpen (ends before t b after run e) h k =
    let (g, m) = Run-IsOpen run h k in
    let (o, rest) = All-middle before t b after (subst (λ xs. All IsOpen (tasks xs)) e m) in
    ((o, g), rest)
Run-IsOpen (advances {d' = d'} run e) h k =
    let (g, m) = Run-IsOpen run h k in
    (g, subst (All IsOpen) (sym (advance-IsSameWork d' e).tasks_of) m)

-- The service after a run is that after the tasks that have ended.
pub Run-IsDrained :
    {d : Draining} {joined ended : List Task} {d' : Draining}
    → Run d joined ended d'
    → All IsOpen ended
    → IsDrained d.service d'.service ended
unfolding finalize_later task_done
Run-IsDrained start h = record {
  active = omega arith;
  in_flight = omega arith;
  cost = omega arith;
  charged = λ u. omega arith;
}
Run-IsDrained (joins t run) h = Run-IsDrained run h
Run-IsDrained (ends before t b after {d' = d'} run e) (o, h) =
    let so_far = Run-IsDrained run h in
    let last = run_task-IsDrained t d'.service o in
    record {
      active = omega (arith, so_far.active, last.active);
      in_flight = omega (arith, so_far.in_flight, last.in_flight);
      cost = omega (arith, so_far.cost, last.cost);
      charged = λ u. omega (arith, so_far.charged u, last.charged u);
    }
Run-IsDrained {d = d} (advances {ended = ended} {d' = d'} run e) h =
    subst (λ s. IsDrained d.service s ended) (sym (advance-IsSameWork d' e).service_of)
      (Run-IsDrained run h)
