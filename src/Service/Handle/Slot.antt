-- ===== src/Service/Handle/Slot.antt =====
-- app/service.py and app/gate.py: the slot in the gate that a request takes and gives back.
use llm_inference_autoscalin.Providers.{Completion}
use llm_inference_autoscalin.Base.{
  ℕ, zero, suc, ◌+◌, String, ◌≡◌, ap, ◌∙◌, inl, inr, List, ◌∷◌, arith, ltb, leb, Bool-cases,
}
use llm_inference_autoscalin.Breaker.{allows}
use llm_inference_autoscalin.Router.{Query, RoutingDecision}
use llm_inference_autoscalin.Ledger.{Reservation}
use llm_inference_autoscalin.Gate.{CapacityGate, acquire, wake, cancel, release}
use llm_inference_autoscalin.Metrics.{
  request_finished, request_shed, request_circuit_rejected, request_failover,
}
use llm_inference_autoscalin.Service.State.{
  Service, World, Wait-cases, Reply, served, raised, pending,
}
use llm_inference_autoscalin.Service.Failover.{
  Generated, generated, failed, out_of_fuel, with_breaker, breaker_of, call_model, attempt,
  after_attempt-rule, generate,
}
use llm_inference_autoscalin.Service.Handle.{
  Request, cache_store, Admission, admitted, turned_away, waits, wait_for, admit, finish,
}

-- The gate and the number of requests that the metrics count as in flight.
pub record IsSlot (g : CapacityGate) (n : ℕ) (s : Service) : Type 0 where
  pub gate_of : s.gate ≡ g
  pub in_flight_of : s.metrics.in_flight ≡ n

-- Other requests leave both as they are.
abbrev pub Keeps : (Service → Service) → Type 0
Keeps f = (x : Service) → IsSlot x.gate x.metrics.in_flight (f x)

IsSlot-keep :
    {g : CapacityGate} {n : ℕ} {f : Service → Service} {x : Service}
    → Keeps f
    → IsSlot g n x
    → IsSlot g n (f x)
IsSlot-keep {x = x} keeps h = record {
  gate_of = (keeps x).gate_of ∙ h.gate_of;
  in_flight_of = (keeps x).in_flight_of ∙ h.in_flight_of;
}

cache_store-IsSlot :
    (w : World) (d : RoutingDecision) (prompt : String) (c : Completion) (s : Service)
    → IsSlot s.gate s.metrics.in_flight (cache_store w d prompt c s)
unfolding cache_store
cache_store-IsSlot w d prompt c s = record { gate_of = ground arith; in_flight_of = ground arith }

cancel-waiting : (g : CapacityGate) → cancel (record g { waiting = g.waiting + 1 }) ≡ g
unfolding cancel
cancel-waiting g = ap (λ (x : ℕ). record g { waiting = x }) (omega arith)

release-active : (g : CapacityGate) → release (record g { active = g.active + 1 }) ≡ g
unfolding release
release-active g = ap (λ (x : ℕ). record g { active = x }) (omega arith)

module _ (g : CapacityGate) (n : ℕ) where
  call-IsSlot :
      (w : World) (k : ℕ) (s : Service) (d : RoutingDecision) (q : Query)
      → Keeps (w.during_call k)
      → IsSlot g n s
      → IsSlot g n (call_model w k s d q).0
  unfolding call_model with_breaker
  call-IsSlot w k s d q keeps h =
      let kept = IsSlot-keep {f = w.during_call k} {x = s} keeps h in
      record {
        gate_of = ground (arith, kept.gate_of);
        in_flight_of = ground (arith, kept.in_flight_of);
      }

  attempt-IsSlot :
      (w : World) (k : ℕ) (s : Service) (d : RoutingDecision) (q : Query)
      → Keeps (w.during_call k)
      → IsSlot g n s
      → IsSlot g n (attempt w k s d q).0
  unfolding attempt with_breaker request_circuit_rejected
  attempt-IsSlot w k s d q keeps h =
      elim (Bool-cases (allows (breaker_of s d.model.name) (w.allows_at k)).1) [
        | inl asked ↦ rw asked (
            call-IsSlot w k _ d q keeps
              (record { gate_of = h.gate_of; in_flight_of = h.in_flight_of }))
        | inr bars ↦ rw bars (record { gate_of = h.gate_of; in_flight_of = h.in_flight_of })
      ]

  pub generate-IsSlot :
      (w : World) (q : Query) (fuel : ℕ) (s : Service) (excluded : List String)
      (d : RoutingDecision)
      → ((k : ℕ) → Keeps (w.during_call k))
      → IsSlot g n s
      → IsSlot g n (generate w q fuel s excluded d).0
  unfolding generate request_failover
  generate-IsSlot w q zero s excluded d keeps h = h
  generate-IsSlot w q (suc fuel) s excluded d keeps h =
      let h' = attempt-IsSlot w fuel s d q (keeps fuel) h in
      after_attempt-rule (λ x. IsSlot g n x.0) w q excluded d
        (λ s' x. generate w q fuel s' (d.model.name ∷ excluded) x) (attempt w fuel s d q) (λ c. h')
        (λ f. h')
        (λ d' e.
          generate-IsSlot w q fuel _ (d.model.name ∷ excluded) d' keeps
            (record { gate_of = h'.gate_of; in_flight_of = h'.in_flight_of }))

  -- An answered request has put both back.
  abbrev pub Restored : Service × Reply → Type 0
  Restored (s, served x) = IsSlot g n s
  Restored (s, raised f) = IsSlot g n s
  Restored (s, pending) = Unit

  abbrev pub entered : CapacityGate
  entered = record g { active = g.active + 1 }

  pub finish-Restored :
      (w : World) (q : Request) (r : Reservation) (s : Service) (x : Generated)
      → IsSlot entered (n + 1) s
      → Restored (finish w q r (s, x))
  unfolding finish request_finished
  finish-Restored w q r s (generated d c) h =
      let kept = cache_store-IsSlot w d q.query.prompt c _ in
      record {
        gate_of = ap release (kept.gate_of ∙ h.gate_of) ∙ release-active g;
        in_flight_of = omega (arith, kept.in_flight_of, h.in_flight_of);
      }
  finish-Restored w q r s (failed f) h = record {
    gate_of = ap release h.gate_of ∙ release-active g;
    in_flight_of = omega (arith, h.in_flight_of);
  }
  finish-Restored w q r s out_of_fuel h = tt

  abbrev pub AfterAdmit : Service × Admission → Type 0
  AfterAdmit (s, admitted) = IsSlot entered n s
  AfterAdmit (s, turned_away) = IsSlot g n s
  AfterAdmit (s, waits) = Unit

  pub admit-AfterAdmit :
      (w : World) (r : Reservation) (s : Service)
      → Keeps w.during_wait
      → IsSlot g n s
      → AfterAdmit (admit w r s)
  unfolding admit wait_for acquire wake request_shed
  admit-AfterAdmit w r s keeps h = elim (Bool-cases (ltb s.gate.active s.gate.capacity)) [
    | inl room ↦ rw room (record {
      gate_of = ap (λ (x : CapacityGate). record x { active = x.active + 1 }) h.gate_of;
      in_flight_of = h.in_flight_of;
    })
    | inr full ↦
        let parked : Service = record s { gate = record s.gate { waiting = s.gate.waiting + 1 } } in
        rw full (elim (Wait-cases w.wait) [
          | inl e ↦ rw e (rw ((keeps parked).gate_of) (rw full tt))
          | inr e ↦ elim (Bool-cases (leb w.settings.admission_timeout 0)) [
            | inl never ↦ rw e (rw never tt)
            | inr sheds ↦ rw e (
                rw sheds (record {
                  gate_of = ap cancel (keeps parked).gate_of ∙ cancel-waiting s.gate ∙ h.gate_of;
                  in_flight_of = (keeps parked).in_flight_of ∙ h.in_flight_of;
                }))
          ]
        ])
  ]
