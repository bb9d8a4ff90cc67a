-- ===== src/Ledger/Charge.antt =====
-- app/cost/memory.py: a reservation and what closes it, together.
use llm_inference_autoscalin.Base.{
  ℕ, ◌+◌, ◌≤◌, String, ◌≡◌, refl, ap, ◌∙◌, ◌≢◌, inl, inr, false, none, [], ◌∷◌, ◌++◌, arith, eq_iff,
  ◌==◌, le→leb, Bool-cases, filter, sum_by-append,
}
use mathlib.Core.Path.{subst}
use llm_inference_autoscalin.Ledger.{
  Entry, Reservation, Ledger, entries, is_live, prune, held, reserve, drop, Usage, settle, release,
}
use llm_inference_autoscalin.Ledger.Entries.{
  live, entries-put_self, entries-put_ne, filter-filter, filter-append, find, drop-append_absent,
  find-filter, find-append_absent,
}
use llm_inference_autoscalin.Ledger.Holds.{entries-prune, with_hold, Outcome, reserve-Outcome}
use llm_inference_autoscalin.Ledger.Close.{
  HasHold, live-settle, live-release_ne, entries-release, window-release,
}

-- The reservation that a granted call hands out.
abbrev pub hold_of : String → ℕ → ℕ → String → Reservation
hold_of u amount now id = record {
  user_id = u;
  amount = amount;
  created_at = now;
  id = id;
  closed = false;
}

window-with_hold :
    (l : Ledger) (u : String) (amount now : ℕ) (id : String)
    → (with_hold l u amount now id).window ≡ l.window
unfolding with_hold prune
window-with_hold l u amount now id = refl

entries-with_hold :
    (l : Ledger) (u : String) (amount now : ℕ) (id : String)
    → entries (with_hold l u amount now id) u
      ≡ filter (is_live l.window now) (entries l u)
        ++ record { at = now; amount = amount; id = id } ∷ []
unfolding with_hold
entries-with_hold l u amount now id =
    entries-put_self (prune l u now) u _
    ∙ ap (λ es. es ++ record { at = now; amount = amount; id = id } ∷ []) (entries-prune l u now)

entries-refund :
    (l : Ledger) (u : String) (amount now : ℕ) (id : String)
    → find id (entries l u) ≡ none
    → entries (release (with_hold l u amount now id) (hold_of u amount now id)).0 u
      ≡ filter (is_live l.window now) (entries l u)
entries-refund l u amount now id fresh =
    entries-release (with_hold l u amount now id) (hold_of u amount now id) refl
    ∙ ap (drop id) (entries-with_hold l u amount now id)
    ∙ drop-append_absent id _ _ (find-filter (is_live l.window now) id (entries l u) fresh) refl

live-refund :
    (l : Ledger) (u : String) (amount now : ℕ) (id : String) (t : ℕ)
    → find id (entries l u) ≡ none
    → now ≤ t
    → live (release (with_hold l u amount now id) (hold_of u amount now id)).0 u t ≡ live l u t
unfolding live
live-refund l u amount now id t fresh later = rw (entries-refund l u amount now id fresh) (
    rw (window-release (with_hold l u amount now id) (hold_of u amount now id)) (
      rw (window-with_hold l u amount now id)
        (rw (filter-filter l.window now t (entries l u) later))))

live-with_hold_ne :
    (l : Ledger) (u : String) (amount now : ℕ) (id : String) (v : String) (t : ℕ)
    → u ≢ v
    → live (with_hold l u amount now id) v t ≡ live l v t
unfolding live with_hold
live-with_hold_ne l u amount now id v t h =
    rw (entries-put_ne (prune l u now) u v _ h) (unfold prune in rw (entries-put_ne l u v _ h))

-- A refund undoes a reservation: after it every user's live spend, now and later, is what it was
-- before, if the id is a fresh one.
pub release-reserve :
    (l : Ledger) (u : String) (amount limit now : ℕ) (id : String) (v : String) (t : ℕ)
    {l' : Ledger} {r : Reservation}
    → reserve l u amount limit now id ≡ (l', held r)
    → find id (entries l u) ≡ none
    → now ≤ t
    → live (release l' r).0 v t ≡ live l v t
release-reserve l u amount limit now id v t e fresh later =
    let g = subst (Outcome l u amount limit now id) e (reserve-Outcome l u amount limit now id) in
    rw (g.ledger, g.hold)
      (elim (Bool-cases (u == v)) [
        | inl same ↦ rw (← (eq_iff u v).0 same) (live-refund l u amount now id t fresh later)
        | inr other ↦
            let ne : u ≢ v = λ k. ground (arith, eq_iff u v) in
            live-release_ne _ _ v t ne ∙ live-with_hold_ne l u amount now id v t ne
      ])

pub with_hold-HasHold :
    (l : Ledger) (u : String) (amount now : ℕ) (id : String) (t : ℕ)
    → find id (entries l u) ≡ none
    → t ≤ now + l.window
    → HasHold
        (with_hold l u amount now id)
        (hold_of u amount now id)
        t
        (record { at = now; amount = amount; id = id })
with_hold-HasHold l u amount now id t fresh inside = record {
  is_open = refl;
  found =
      rw (entries-with_hold l u amount now id) (
        find-append_absent id _ _ (find-filter (is_live l.window now) id (entries l u) fresh) refl);
  amount_of = refl;
  in_window = rw (window-with_hold l u amount now id) (le→leb t (now + l.window) inside);
}

pub live-with_hold_later :
    (l : Ledger) (u : String) (amount now : ℕ) (id : String) (t : ℕ)
    → now ≤ t
    → t ≤ now + l.window
    → live (with_hold l u amount now id) u t ≡ live l u t + amount
unfolding live
live-with_hold_later l u amount now id t later inside = rw (entries-with_hold l u amount now id) (
    rw (window-with_hold l u amount now id) (
      rw
        (filter-append (is_live l.window t) (filter (is_live l.window now) (entries l u))
          (record { at = now; amount = amount; id = id } ∷ []))
        (rw (filter-filter l.window now t (entries l u) later) (
          rw (le→leb t (now + l.window) inside) (
            omega (
              arith,
              sum_by-append (λ (e : Entry). e.amount) (filter (is_live l.window t) (entries l u))
                  (record { at = now; amount = amount; id = id } ∷ []),
            ))))))

-- A charge comes to the actual cost, whatever was held: after a reservation with a fresh id and its
-- settlement within the window, the user's live spend is what it would have been, and the cost.
pub settle-reserve :
    (l : Ledger) (u : String) (amount limit now : ℕ) (id : String) (actual : ℕ) (use_ : Usage)
    (t : ℕ) {l' : Ledger} {r : Reservation}
    → reserve l u amount limit now id ≡ (l', held r)
    → find id (entries l u) ≡ none
    → now ≤ t
    → t ≤ now + l.window
    → live (settle l' r actual use_ t).0 u t ≡ live l u t + actual
settle-reserve l u amount limit now id actual use_ t e fresh later inside =
    let g = subst (Outcome l u amount limit now id) e (reserve-Outcome l u amount limit now id) in
    rw (g.ledger, g.hold)
      (omega (
        arith,
        live-settle (with_hold l u amount now id) (hold_of u amount now id) actual use_ t
            (with_hold-HasHold l u amount now id t fresh inside),
        live-with_hold_later l u amount now id t later inside,
      ))
