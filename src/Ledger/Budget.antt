-- ===== src/Ledger/Budget.antt =====
-- app/cost/memory.py: the limit over any interleaving of calls, and the totals of `summary`.
use llm_inference_autoscalin.Base.{
  ℕ, ◌+◌, ◌≤◌, String, ◌≡◌, sym, ◌∙◌, ◌≢◌, ◌⊎◌, inl, inr, true, List, [], ◌∷◌, arith, eq_iff, ◌==◌,
  if◌then◌else◌, Bool-cases, Dict, lookup, insert, lookup_or, lookup-insert,
}
use mathlib.Core.Path.{subst}
use llm_inference_autoscalin.Ledger.{
  Entry, Reservation, UsageRecord, Ledger, spent, Reserved, held, exceeded, epsilon, reserve, Usage,
  settle, release, add_records, summary,
}
use llm_inference_autoscalin.Ledger.Entries.{live, live-later}
use llm_inference_autoscalin.Ledger.Holds.{
  live-prune, Outcome, reserve-Outcome, live-reserve_ne, live-spent,
}
use llm_inference_autoscalin.Ledger.Close.{
  HasHold, live-settle, live-release-le, live-settle_ne, live-release_ne, settle-closed,
}

reserve-within :
    (u : String) (limit : ℕ) (l : Ledger) (now amount : ℕ) (id : String) (p : Ledger × Reserved)
    → Outcome l u amount limit now id p
    → live l u now ≤ limit + epsilon
    → live p.0 u now ≤ limit + epsilon
reserve-within u limit l now amount id (l', held r) g h = omega (arith, g.charged, g.fits)
reserve-within u limit l now amount id (l', exceeded e) g h =
    rw g.ledger (rw (live-prune l u u now now (omega arith)) h)

settle-within :
    (u : String) (limit : ℕ) (l : Ledger) (now : ℕ) (r : Reservation) (actual : ℕ) (use_ : Usage)
    (e : Entry)
    → HasHold l r now e
    → actual ≤ r.amount
    → live l u now ≤ limit + epsilon
    → live (settle l r actual use_ now).0 u now ≤ limit + epsilon
settle-within u limit l now r actual use_ e k fits h = elim (Bool-cases (r.user_id == u)) [
  | inl same ↦
      let n = (eq_iff r.user_id u).0 same in
      let h' = subst (λ x. live l x now ≤ limit + epsilon) (sym n) h in
      rw (← n) (omega (arith, live-settle l r actual use_ now k, h'))
  | inr other ↦
      rw (live-settle_ne l r actual use_ now u now (λ n. ground (arith, eq_iff r.user_id u))) h
]

release-within :
    (u : String) (limit : ℕ) (l : Ledger) (now : ℕ) (r : Reservation)
    → live l u now ≤ limit + epsilon
    → live (release l r).0 u now ≤ limit + epsilon
release-within u limit l now r h = elim (Bool-cases (r.user_id == u)) [
  | inl same ↦
      let n = (eq_iff r.user_id u).0 same in
      let h' = subst (λ x. live l x now ≤ limit + epsilon) (sym n) h in
      rw (← n) (omega (arith, live-release-le l r now, h'))
  | inr other ↦ rw (live-release_ne l r u now (λ n. ground (arith, eq_iff r.user_id u))) h
]

-- Any calls by any clients, with time going on between them: `u` is reserved for under one limit,
-- and is settled for at no more than what is held, while the hold is in the window. Of other
-- users nothing is asked.
module _ (u : String) (limit : ℕ) where
  pub data Step : Ledger → ℕ → Ledger → ℕ → Type 0 where
    wait : (l : Ledger) (now t : ℕ) → now ≤ t → Step l now l t
    read : (l : Ledger) (now : ℕ) (v : String) → Step l now (spent l v now).0 now
    reserves :
        (l : Ledger) (now amount : ℕ) (id : String)
        → Step l now (reserve l u amount limit now id).0 now
    reserves_other :
        (l : Ledger) (now : ℕ) (v : String) (amount other : ℕ) (id : String)
        → v ≢ u
        → Step l now (reserve l v amount other now id).0 now
    settles :
        (l : Ledger) (now : ℕ) (r : Reservation) (actual : ℕ) (use_ : Usage) (e : Entry)
        → HasHold l r now e
        → actual ≤ r.amount
        → Step l now (settle l r actual use_ now).0 now
    settles_other :
        (l : Ledger) (now : ℕ) (r : Reservation) (actual : ℕ) (use_ : Usage)
        → (r.user_id ≢ u) ⊎ (r.closed ≡ true)
        → Step l now (settle l r actual use_ now).0 now
    releases : (l : Ledger) (now : ℕ) (r : Reservation) → Step l now (release l r).0 now

  pub data Run (l : Ledger) (now : ℕ) : Ledger → ℕ → Type 0 where
    start : Run l now l now
    then_ : {l' l'' : Ledger} {t t' : ℕ} → Run l now l' t → Step l' t l'' t' → Run l now l'' t'

  Step-live :
      {l : Ledger} {now : ℕ} {l' : Ledger} {t : ℕ}
      → Step l now l' t
      → live l u now ≤ limit + epsilon
      → live l' u t ≤ limit + epsilon
  Step-live (wait l now t later) h = omega (arith, live-later l u now t later)
  Step-live (read l now v) h = rw (live-spent l v u now) h
  Step-live (reserves l now amount id) h =
      reserve-within u limit l now amount id _ (reserve-Outcome l u amount limit now id) h
  Step-live (reserves_other l now v amount other id ne) h =
      rw (live-reserve_ne l v amount other now id u now ne) h
  Step-live (settles l now r actual use_ e k fits) h =
      settle-within u limit l now r actual use_ e k fits h
  Step-live (settles_other l now r actual use_ (inl ne)) h =
      rw (live-settle_ne l r actual use_ now u now ne) h
  Step-live (settles_other l now r actual use_ (inr done)) h =
      rw (settle-closed l r actual use_ now done) h
  Step-live (releases l now r) h = release-within u limit l now r h

  -- However the calls of any number of clients interleave, a user whose live spend is within the
  -- limit stays within it, up to the tolerance of 1e-9 dollars, if every reservation for the user
  -- is under this limit, and every settlement of an open one costs at most its hold, which is
  -- still in the window.
  pub Run-live :
      {l : Ledger} {now : ℕ} {l' : Ledger} {t : ℕ}
      → live l u now ≤ limit + epsilon
      → Run l now l' t
      → live l' u t ≤ limit + epsilon
  Run-live h start = h
  Run-live h (then_ r s) = Step-live s (Run-live h r)

-- What a user has settled, over the records.
unfoldable pub settled_by : String → List UsageRecord → ℕ
settled_by u [] = 0
settled_by u (r ∷ rs) = (if r.user_id == u then r.cost else 0) + settled_by u rs

add_records-settled :
    (u : String) (rs : List UsageRecord) (out : Dict ℕ)
    → lookup_or u 0 (add_records out rs) ≡ lookup_or u 0 out + settled_by u rs
unfolding add_records settled_by
add_records-settled u [] out = omega arith
add_records-settled u (r ∷ rs) out =
    let k = lookup_or r.user_id 0 out + r.cost in
    add_records-settled u rs (insert r.user_id k out)
    ∙ ground (arith, eq_iff r.user_id u, lookup-insert r.user_id u k out)

-- `summary` reports for every user the sum of the costs of the user's records.
pub summary-settled : (l : Ledger) (u : String) → lookup_or u 0 (summary l) ≡ settled_by u l.records
unfolding summary lookup
summary-settled l u = omega (arith, add_records-settled u l.records [])
