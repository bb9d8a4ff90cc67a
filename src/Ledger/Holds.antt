-- ===== src/Ledger/Holds.antt =====
-- app/cost/memory.py: what reserve, settle and release do to a user's live spend.
use llm_inference_autoscalin.Base.{
  ℕ, ◌+◌, ◌≤◌, ◌<◌, String, ◌≡◌, refl, ap, ◌∙◌, ◌≢◌, inl, inr, false, [], ◌∷◌, ◌++◌, arith, eq_iff,
  ltb, ◌==◌, ltb→lt, Bool-cases, filter,
}
use llm_inference_autoscalin.Ledger.{
  Reservation, UserBudgetExceededError, Ledger, entries, put_entries, is_live, total, prune, spent,
  Reserved, held, exceeded, epsilon, reserve,
}
use llm_inference_autoscalin.Ledger.Entries.{
  live, entries-put_self, entries-put_ne, filter-filter, total-hold,
}

pub entries-prune :
    (l : Ledger) (u : String) (now : ℕ)
    → entries (prune l u now) u ≡ filter (is_live l.window now) (entries l u)
unfolding prune
entries-prune l u now = entries-put_self l u _

entries-prune_ne :
    (l : Ledger) (u v : String) (now : ℕ) → u ≢ v → entries (prune l u now) v ≡ entries l v
unfolding prune
entries-prune_ne l u v now h = entries-put_ne l u v _ h

live-prune_self :
    (l : Ledger) (u : String) (now later : ℕ)
    → now ≤ later
    → live (prune l u now) u later ≡ live l u later
unfolding live prune
live-prune_self l u now later h =
    rw (entries-put_self l u (filter (is_live l.window now) (entries l u)))
      (rw (filter-filter l.window now later (entries l u) h))

-- Pruning, the only thing that `spent` and a refused `reserve` write, takes nothing live from
-- anyone: not from the user now or later, nor from any other user at any time.
pub live-prune :
    (l : Ledger) (u v : String) (now later : ℕ)
    → now ≤ later
    → live (prune l u now) v later ≡ live l v later
live-prune l u v now later h = elim (Bool-cases (u == v)) [
  | inl same ↦ let e = (eq_iff u v).0 same in rw (← e) (live-prune_self l u now later h)
  | inr other ↦ unfold live prune in rw (entries-put_ne l u v _ (λ e. ground (arith, eq_iff u v)))
]

-- `spent` returns what is live.
spent-live : (l : Ledger) (u : String) (now : ℕ) → (spent l u now).1 ≡ live l u now
unfolding spent live
spent-live l u now = rw (entries-prune l u now)

current_live :
    (l : Ledger) (u : String) (now : ℕ) → total (entries (prune l u now) u) ≡ live l u now
unfolding live
current_live l u now = rw (entries-prune l u now)

-- The ledger behind a hold that was granted.
unfoldable pub with_hold : Ledger → String → ℕ → ℕ → String → Ledger
with_hold l u amount now id =
    put_entries (prune l u now) u
      (entries (prune l u now) u ++ record { at = now; amount = amount; id = id } ∷ [])

pub live-with_hold :
    (l : Ledger) (u : String) (amount now : ℕ) (id : String)
    → live (with_hold l u amount now id) u now ≡ live l u now + amount
unfolding with_hold live prune
live-with_hold l u amount now id =
    rw
      (entries-put_self (prune l u now) u
        (entries (prune l u now) u ++ record { at = now; amount = amount; id = id } ∷ []))
      (total-hold l.window now amount id (entries (prune l u now) u)
        ∙ ap (λ n. n + amount) (live-prune_self l u now now (omega arith)))

-- What a granted reservation has done: the hold fits the limit, up to the tolerance of 1e-9
-- dollars, and exactly the amount is added to what is live.
pub record IsGranted (l l' : Ledger) (u : String) (amount limit now : ℕ) (id : String)
    (r : Reservation) : Type 0 where
  pub fits : live l u now + amount ≤ limit + epsilon
  pub charged : live l' u now ≡ live l u now + amount
  pub hold : r ≡ record { user_id = u; amount = amount; created_at = now; id = id; closed = false }
  pub ledger : l' ≡ with_hold l u amount now id

-- What a refused one has: the hold does not fit, and only stale entries are gone.
pub record IsRefused (l l' : Ledger) (u : String) (amount limit now : ℕ)
    (e : UserBudgetExceededError) : Type 0 where
  pub too_much : limit + epsilon < live l u now + amount
  pub spent_of : e.spent ≡ live l u now
  pub ledger : l' ≡ prune l u now

abbrev pub Outcome : Ledger → String → ℕ → ℕ → ℕ → String → Ledger × Reserved → Type 0
Outcome l u amount limit now id (l', held r) = IsGranted l l' u amount limit now id r
Outcome l u amount limit now id (l', exceeded e) = IsRefused l l' u amount limit now e

-- `reserve` is a single check and hold. Either the live spend and the amount are within the limit and
-- its tolerance of 1e-9 dollars, and the live spend is up by exactly the amount; or they exceed both,
-- the error carries the live spend, and nothing but stale entries is dropped.
pub reserve-Outcome :
    (l : Ledger) (u : String) (amount limit now : ℕ) (id : String)
    → Outcome l u amount limit now id (reserve l u amount limit now id)
unfolding reserve
reserve-Outcome l u amount limit now id =
    elim (Bool-cases (ltb (limit + epsilon) (total (entries (prune l u now) u) + amount))) [
      | inl over ↦ rw over (record {
        too_much = omega (arith, spent-live l u now, ltb→lt _ _ over, current_live l u now);
        spent_of = current_live l u now;
        ledger = refl;
      })
      | inr fine ↦ rw fine (record {
        fits = ground (arith, current_live l u now);
        charged = unfold with_hold in live-with_hold l u amount now id;
        hold = refl;
        ledger = unfold with_hold in refl;
      })
    ]

-- A call for one user leaves the live spend of every other alone, granted or refused.
pub live-reserve_ne :
    (l : Ledger) (u : String) (amount limit now : ℕ) (id : String) (v : String) (t : ℕ)
    → u ≢ v
    → live (reserve l u amount limit now id).0 v t ≡ live l v t
unfolding reserve live
live-reserve_ne l u amount limit now id v t h =
    elim (Bool-cases (ltb (limit + epsilon) (total (entries (prune l u now) u) + amount))) [
      | inl over ↦ rw over (unfold prune in rw (entries-put_ne l u v _ h))
      | inr fine ↦ rw fine (
          rw (entries-put_ne (prune l u now) u v _ h)
            (unfold prune in rw (entries-put_ne l u v _ h)))
    ]

pub live-spent : (l : Ledger) (u v : String) (now : ℕ) → live (spent l u now).0 v now ≡ live l v now
unfolding spent
live-spent l u v now = live-prune l u v now now (omega arith)
