-- ===== src/Cache/Flight.antt =====
-- app/cache.py: `SingleFlight`. A task is known by its number. `run` is cut at its await: the call up
-- to it, and the leader's `finally` once its task has ended or it has been cancelled.
use mathlib.Core.Path.{subst}
use llm_inference_autoscalin.Base.{
  ℕ, String, ◌≡◌, refl, ap, ◌∙◌, inl, inr, Option, none, some, List, [], ◌∷◌, eq_iff, ◌==◌,
  if◌then◌else◌, Bool-cases, Option-cases, length, Dict, lookup, insert, erase, lookup-insert,
  lookup-erase,
}

pub record SingleFlight : Type 0 where
  pub inflight : Dict ℕ

unfoldable pub inflight_count : SingleFlight → ℕ
inflight_count f = length f.inflight

-- What a caller awaits: the task that it has started, or the one that another caller has.
pub data Role : Type 0 where
  leads follows : ℕ → Role

-- `run` up to its await; `task` is the task that `ensure_future` would return.
unfoldable pub run : SingleFlight → String → ℕ → SingleFlight × Role
run f key task = elim (lookup key f.inflight) [
  | some existing ↦ (f, follows existing)
  | none ↦ (record { inflight = insert key task f.inflight }, leads task)
]

-- `self._inflight.pop(key, None)` in the leader's `finally`
unfoldable pub finish : SingleFlight → String → SingleFlight
finish f key = record { inflight = erase key f.inflight }

-- The flights, and the tasks of each key that are under way. A task counts as under way until its
-- leader resumes.
pub record Flights : Type 0 where
  pub flights : SingleFlight
  pub executing : String → List ℕ

abbrev pub added : Role → List ℕ → List ℕ
added (leads task) ts = task ∷ ts
added (follows task) ts = ts

abbrev pub at_key : String → List ℕ → (String → List ℕ) → String → List ℕ
at_key key ts executing k = if key == k then ts else executing k

-- A caller arrives, or the leader of a task resumes, since the task has ended.
pub data Step : Flights → Flights → Type 0 where
  arrives :
      (s : Flights) (key : String) (task : ℕ)
      → Step s (record {
        flights = (run s.flights key task).0;
        executing = at_key key (added (run s.flights key task).1 (s.executing key)) s.executing;
      })
  ends :
      (s : Flights) (key : String) (task : ℕ)
      → s.executing key ≡ task ∷ []
      → Step s (record { flights = finish s.flights key; executing = at_key key [] s.executing })

pub data Run (s : Flights) : Flights → Type 0 where
  start : Run s s
  then_ : {t u : Flights} → Run s t → Step t u → Run s u

abbrev pub tasks : Option ℕ → List ℕ
tasks none = []
tasks (some t) = t ∷ []

-- The tasks of every key are exactly the one that the flights know of.
abbrev pub IsSingle : Flights → Type 0
IsSingle s = (k : String) → s.executing k ≡ tasks (lookup k s.flights.inflight)

Step-IsSingle : {s t : Flights} → Step s t → IsSingle s → IsSingle t
unfolding run finish
Step-IsSingle (arrives s key task) h k = elim (Option-cases (lookup key s.flights.inflight)) [
  | inl missing ↦
      let idle : s.executing key ≡ [] = h key ∙ ap tasks missing in
      rw (missing, run)
        (rw (lookup-insert key k task s.flights.inflight) (elim (Bool-cases (key == k)) [
          | inl same ↦ rw same (ap (λ ts. task ∷ ts) idle)
          | inr other ↦ rw other (h k)
        ]))
  | inr (t, found) ↦
      rw (found, run)
        (elim (Bool-cases (key == k)) [
          | inl same ↦ rw same (
              subst (λ j. s.executing key ≡ tasks (lookup j s.flights.inflight))
                ((eq_iff key k).0 same) (h key))
          | inr other ↦ rw other (h k)
        ])
]
Step-IsSingle (ends s key task e) h k =
    rw (lookup-erase key k s.flights.inflight)
      (elim (Bool-cases (key == k)) [ inl same ↦ rw same refl | inr other ↦ rw other (h k) ])

abbrev pub none_yet : Flights
none_yet = record { flights = record { inflight = [] }; executing = λ k. [] }

-- However callers and ends of tasks interleave, from no flights on, each key has at most one task
-- under way, and it is the one that a caller who arrives for the key awaits.
pub Run-IsSingle : {s : Flights} → Run none_yet s → IsSingle s
unfolding lookup
Run-IsSingle start k = refl
Run-IsSingle (then_ r s) k = Step-IsSingle s (Run-IsSingle r) k
