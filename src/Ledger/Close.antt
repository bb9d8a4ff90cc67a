-- ===== src/Ledger/Close.antt =====
-- app/cost/memory.py: closing a reservation. A hold is replaced or refunded exactly once.
use llm_inference_autoscalin.Base.{
  ℕ, ◌+◌, ◌≤◌, String, ◌≡◌, ◌≢◌, inl, inr, true, false, some, [], ◌∷◌, ◌++◌, arith, Bool-cases,
  lookup-insert_self, lookup-insert_ne,
}
use llm_inference_autoscalin.Ledger.{
  Entry, Reservation, Ledger, entries, is_live, drop, Usage, settle, release,
}
use llm_inference_autoscalin.Ledger.Entries.{
  live, entries-put_self, entries-put_ne, find, total-drop, total-drop-le, total-hold,
}

-- The reservation is open, and its hold is in the ledger and inside the window.
pub record HasHold (l : Ledger) (r : Reservation) (now : ℕ) (e : Entry) : Type 0 where
  pub is_open : r.closed ≡ false
  pub found : find r.id (entries l r.user_id) ≡ some e
  pub amount_of : e.amount ≡ r.amount
  pub in_window : is_live l.window now e ≡ true

pub entries-settle :
    (l : Ledger) (r : Reservation) (actual : ℕ) (u : Usage) (now : ℕ)
    → r.closed ≡ false
    → entries (settle l r actual u now).0 r.user_id
      ≡ drop r.id (entries l r.user_id) ++ record { at = now; amount = actual; id = r.id } ∷ []
unfolding settle entries
entries-settle l r actual u now h = rw h (
    ground (
      arith,
      lookup-insert_self r.user_id
          (drop r.id (entries l r.user_id) ++ record { at = now; amount = actual; id = r.id } ∷ [])
          l.spend,
    ))

pub settle-records :
    (l : Ledger) (r : Reservation) (cost : ℕ) (u : Usage) (now : ℕ)
    → r.closed ≡ false
    → (settle l r cost u now).0.records
      ≡ l.records
        ++ record {
          user_id = r.user_id;
          model = u.model;
          input_tokens = u.input_tokens;
          output_tokens = u.output_tokens;
          cost = cost;
          at = now;
        }
          ∷ []
unfolding settle
settle-records l r cost u now open_ = rw open_

pub window-settle :
    (l : Ledger) (r : Reservation) (actual : ℕ) (u : Usage) (now : ℕ)
    → (settle l r actual u now).0.window ≡ l.window
unfolding settle
window-settle l r actual u now = ground arith

pub entries-release :
    (l : Ledger) (r : Reservation)
    → r.closed ≡ false
    → entries (release l r).0 r.user_id ≡ drop r.id (entries l r.user_id)
unfolding release
entries-release l r h = rw h (entries-put_self l r.user_id (drop r.id (entries l r.user_id)))

pub window-release : (l : Ledger) (r : Reservation) → (release l r).0.window ≡ l.window
unfolding release
window-release l r = ground arith

-- Settling replaces the hold with the actual cost: the owner's live spend changes by exactly the
-- difference of the two.
pub live-settle :
    (l : Ledger) (r : Reservation) (actual : ℕ) (u : Usage) (now : ℕ) {e : Entry}
    → HasHold l r now e
    → live (settle l r actual u now).0 r.user_id now + r.amount ≡ live l r.user_id now + actual
unfolding live
live-settle l r actual u now {e} h = rw (window-settle l r actual u now) (
    rw (entries-settle l r actual u now h.is_open) (
      omega (
        arith,
        total-hold l.window now actual r.id (drop r.id (entries l r.user_id)),
        total-drop (is_live l.window now) r.id (entries l r.user_id) e h.found h.in_window,
        h.amount_of,
      )))

-- Releasing refunds the hold: the owner's live spend goes down by exactly its amount.
pub live-release :
    (l : Ledger) (r : Reservation) (now : ℕ) {e : Entry}
    → HasHold l r now e
    → live (release l r).0 r.user_id now + r.amount ≡ live l r.user_id now
unfolding live
live-release l r now {e} h = rw (window-release l r) (
    rw (entries-release l r h.is_open) (
      omega (
        arith,
        total-drop (is_live l.window now) r.id (entries l r.user_id) e h.found h.in_window,
        h.amount_of,
      )))

settle-closes :
    (l : Ledger) (r : Reservation) (actual : ℕ) (u : Usage) (now : ℕ)
    → (settle l r actual u now).1.closed ≡ true
unfolding settle
settle-closes l r actual u now = ground arith

release-closes : (l : Ledger) (r : Reservation) → (release l r).1.closed ≡ true
unfolding release
release-closes l r = ground arith

pub settle-closed :
    (l : Ledger) (r : Reservation) (actual : ℕ) (u : Usage) (now : ℕ)
    → r.closed ≡ true
    → settle l r actual u now ≡ (l, r)
unfolding settle
settle-closed l r actual u now h = rw h

pub release-closed : (l : Ledger) (r : Reservation) → r.closed ≡ true → release l r ≡ (l, r)
unfolding release
release-closed l r h = rw h

-- Closing a reservation in either way closes it for good: whatever is settled or released with it
-- afterwards changes neither the ledger nor the reservation.
pub settle_once :
    (l : Ledger) (r : Reservation) (actual again : ℕ) (u v : Usage) (now later : ℕ)
    → let (settled, r₁) = settle l r actual u now in
      let (released, r₂) = release l r in
      (settle settled r₁ again v later ≡ (settled, r₁))
      × (release settled r₁ ≡ (settled, r₁))
      × (settle released r₂ again v later ≡ (released, r₂))
      × (release released r₂ ≡ (released, r₂))
settle_once l r actual again u v now later =
    let done = settle-closes l r actual u now in
    let gone = release-closes l r in
    (
      settle-closed _ _ again v later done,
      release-closed _ _ done,
      settle-closed _ _ again v later gone,
      release-closed _ _ gone,
    )

-- Releasing never raises the owner's live spend, whether or not the hold is still there.
pub live-release-le :
    (l : Ledger) (r : Reservation) (now : ℕ)
    → live (release l r).0 r.user_id now ≤ live l r.user_id now
unfolding live
live-release-le l r now = elim (Bool-cases r.closed) [
  | inl done ↦ rw (release-closed l r done) (omega arith)
  | inr fresh ↦ rw (window-release l r) (
      rw (entries-release l r fresh)
        (total-drop-le (is_live l.window now) r.id (entries l r.user_id)))
]

-- Closing touches no other user.
pub live-settle_ne :
    (l : Ledger) (r : Reservation) (actual : ℕ) (u : Usage) (now : ℕ) (v : String) (t : ℕ)
    → r.user_id ≢ v
    → live (settle l r actual u now).0 v t ≡ live l v t
unfolding live settle entries
live-settle_ne l r actual u now v t h = elim (Bool-cases r.closed) [
  | inl done ↦ rw done
  | inr fresh ↦ rw fresh (
      ground (
        arith,
        lookup-insert_ne r.user_id v
            (drop r.id (entries l r.user_id)
              ++ record { at = now; amount = actual; id = r.id } ∷ [])
            l.spend h,
      ))
]

pub live-release_ne :
    (l : Ledger) (r : Reservation) (v : String) (t : ℕ)
    → r.user_id ≢ v
    → live (release l r).0 v t ≡ live l v t
unfolding live release
live-release_ne l r v t h = elim (Bool-cases r.closed) [
  | inl done ↦ rw done
  | inr fresh ↦ rw fresh (rw (entries-put_ne l r.user_id v (drop r.id (entries l r.user_id)) h))
]
