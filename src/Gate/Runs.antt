-- ===== src/Gate/Runs.antt =====
-- app/gate.py: any interleaving of callers, releases and resizes.
use llm_inference_autoscalin.Base.{
  ℕ, ◌+◌, ◌-◌, ◌≤◌, ◌<◌, ◌≡◌, ◌⊎◌, inl, Bool, not, arith, if◌then◌else◌,
}
use llm_inference_autoscalin.Gate.{CapacityGate, init, acquire, wake, cancel, release, resize}

-- The gate, the number of requests inside it and the number of callers parked at it.
pub record System : Type 0 where
  pub gate : CapacityGate
  pub inside : ℕ
  pub parked : ℕ

abbrev pub entered : Bool → ℕ → ℕ
entered b n = if b then n + 1 else n

abbrev pub left : Bool → ℕ → ℕ
left b n = if b then n - 1 else n

-- The moves of the event loop. Only a request inside leaves, and only a parked caller wakes or is
-- cancelled.
pub data Step : System → System → Type 0 where
  arrives :
      (s : System)
      → Step s (record {
        gate = (acquire s.gate).0;
        inside = entered (acquire s.gate).1 s.inside;
        parked = entered (not (acquire s.gate).1) s.parked;
      })
  wakes :
      (s : System)
      → 0 < s.parked
      → Step s (record {
        gate = (wake s.gate).0;
        inside = entered (wake s.gate).1 s.inside;
        parked = left (wake s.gate).1 s.parked;
      })
  gives_up :
      (s : System)
      → 0 < s.parked
      → Step s (record s { gate = cancel s.gate; parked = s.parked - 1 })
  leaves :
      (s : System)
      → 0 < s.inside
      → Step s (record s { gate = release s.gate; inside = s.inside - 1 })
  resizes : (s : System) (n : ℕ) → Step s (record s { gate = resize s.gate n })

pub data Run (s : System) : System → Type 0 where
  start : Run s s
  then_ : {t u : System} → Run s t → Step t u → Run s u

pub record IsExact (s : System) : Type 0 where
  pub some_room : 1 ≤ s.gate.capacity
  pub counts_inside : s.gate.active ≡ s.inside
  pub counts_parked : s.gate.waiting ≡ s.parked

Step-IsExact : {s t : System} → Step s t → IsExact s → IsExact t
Step-IsExact (arrives s) h = unfold acquire in ground arith
Step-IsExact (wakes s p) h = unfold wake in ground arith
Step-IsExact (gives_up s p) h = unfold cancel in ground arith
Step-IsExact (leaves s p) h = unfold release in ground arith
Step-IsExact (resizes s n) h = unfold resize in ground arith

-- From an empty gate on, and however callers, releases, cancellations and resizes interleave,
-- `active` is the number of requests inside, `waiting` the number of parked callers, and the
-- capacity at least one.
pub Run-IsExact :
    (capacity : ℕ) {s : System}
    → Run (record { gate = init capacity; inside = 0; parked = 0 }) s
    → IsExact s
Run-IsExact capacity start = unfold init in ground arith
Run-IsExact capacity (then_ r s) = Step-IsExact s (Run-IsExact capacity r)

-- Every move of a gate whose counts are exact leaves no more requests inside than there were, or no more than the capacity: the
-- gate admits only into free room, and a shrunk gate admits nobody until it has drained.
pub Step-bounded :
    {s t : System} → Step s t → IsExact s → (t.inside ≤ s.inside) ⊎ (t.inside ≤ t.gate.capacity)
Step-bounded (arrives s) h = unfold acquire in ground arith
Step-bounded (wakes s p) h = unfold wake in ground arith
Step-bounded (gives_up s p) h = inl (omega arith)
Step-bounded (leaves s p) h = inl (omega arith)
Step-bounded (resizes s n) h = inl (omega arith)
