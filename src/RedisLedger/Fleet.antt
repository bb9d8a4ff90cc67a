-- ===== src/RedisLedger/Fleet.antt =====
-- app/cost/redis_ledger.py: the limit over any interleaving of the calls of any number of replicas.
use llm_inference_autoscalin.Base.{
  ℕ, ◌+◌, ◌≤◌, ◌<◌, String, ◌≡◌, sym, ◌≢◌, ◌⊎◌, inl, inr, Bool, true, some, arith, Bool-cases,
  sum_by, lt→ltb, ltb→lt,
}
use llm_inference_autoscalin.RedisLedger.Rules.{settle-closed, settle-rule, release-rule}
use mathlib.Core.Path.{subst}
use llm_inference_autoscalin.Ledger.{Reservation, Usage, epsilon}
use llm_inference_autoscalin.Redis.{Scored, with_id, is_above, Redis, IsLawful, entry}
use llm_inference_autoscalin.RedisLedger.{
  RedisLedger, spend_key, usage_key, written, settle_script, reserve, settle, release,
}
use llm_inference_autoscalin.RedisLedger.Calls.{Wire, eval-Ran, Ran-rule}
use llm_inference_autoscalin.RedisLedger.Scripts.{
  live, held_for, ReserveOutcome, reserve_script-Outcome, live-settle_script, live-release_script,
}
use llm_inference_autoscalin.RedisLedger.Sums.{live_amount, sum_by_mono, written-near}
use llm_inference_autoscalin.RedisLedger.Elsewhere.{
  zset-reserve_script, zset-settle_script, zset-release_script,
}

live_amount-later :
    (now t window : ℕ) (e : Scored) → now ≤ t → live_amount t window e ≤ live_amount now window e
live_amount-later now t window e h = elim (Bool-cases (is_above t window e)) [
  | inl above ↦
      rw (above, lt→ltb now (e.0 + window) (omega (arith, ltb→lt t (e.0 + window) above)))
        (omega arith)
  | inr below ↦ rw below (omega arith)
]

-- The most that a user's live spend can be: the limit, the tolerance of 1e-9 dollars, and half a
-- unit of the amounts as they are written.
abbrev pub ceiling : ℕ → ℕ
ceiling limit = limit + epsilon + 50

module _ (R : Redis) (lawful : IsLawful R) (key : String) (window limit : ℕ) (p : 0 < window) where
  abbrev pub IsWithin : ℕ → R.State → Type 0
  IsWithin now s = live R lawful key now window s ≤ ceiling limit

  live-later :
      (s : R.State) (now t : ℕ)
      → now ≤ t
      → live R lawful key t window s ≤ live R lawful key now window s
  live-later s now t h =
      sum_by_mono (R.zset s key) (live_amount t window) (live_amount now window)
        (λ e. live_amount-later now t window e h)

  script-IsWithin :
      (now amount : ℕ) (s : R.State) (x : R.State × (Bool × ℕ))
      → ReserveOutcome R lawful key now window amount limit s x
      → IsWithin now s
      → IsWithin now x.0
  script-IsWithin now amount s x (total, inl (yes_, fits, charged)) h =
      omega (arith, written-near amount)
  script-IsWithin now amount s x (total, inr (no_, over, same)) h = omega (arith, same, h)

  same-IsWithin :
      (now : ℕ) (s t : R.State) → R.zset t key ≡ R.zset s key → IsWithin now s → IsWithin now t
  same-IsWithin now s t e h =
      subst (λ es. sum_by (live_amount now window) es ≤ ceiling limit) (sym e) h

  -- A call of a replica, whose own object and wire may be any: those for the key are made with the
  -- window, a reservation for it with the limit and a fresh id, and a settlement for it of at most
  -- what the one member with the reservation's id counts. Of calls for other keys nothing is asked.
  pub data Step : R.State → ℕ → R.State → ℕ → Type 0 where
    wait : (s : R.State) (now t : ℕ) → now ≤ t → Step s now s t
    reserves :
        (s : R.State) (now : ℕ) (l : RedisLedger) (u : String) (amount : ℕ) (id : String) (w : Wire)
        → spend_key l u ≡ key
        → l.window ≡ window
        → with_id id (R.zset s key) ≡ 0
        → Step s now (reserve R l u amount limit now id w s).0 now
    reserves_other :
        (s : R.State) (now : ℕ) (l : RedisLedger) (u : String) (amount other : ℕ) (id : String)
        (w : Wire)
        → spend_key l u ≢ key
        → Step s now (reserve R l u amount other now id w s).0 now
    settles :
        (s : R.State) (now : ℕ) (l : RedisLedger) (r : Reservation) (actual : ℕ) (use_ : Usage)
        (w : Wire)
        → spend_key l r.user_id ≡ key
        → l.window ≡ window
        → with_id r.id (R.zset s key) ≡ 1
        → written actual ≤ held_for R lawful key now window r.id s
        → Step s now (settle R l r actual use_ now w s).0 now
    settles_other :
        (s : R.State) (now : ℕ) (l : RedisLedger) (r : Reservation) (actual : ℕ) (use_ : Usage)
        (w : Wire)
        → (spend_key l r.user_id ≢ key) ⊎ (r.closed ≡ true)
        → Step s now (settle R l r actual use_ now w s).0 now
    releases :
        (s : R.State) (now : ℕ) (l : RedisLedger) (r : Reservation) (w : Wire)
        → (spend_key l r.user_id ≡ key) ⊎ (spend_key l r.user_id ≢ key)
        → Step s now (release R l r w s).0 now

  reserve-IsWithin :
      (s : R.State) (now : ℕ) (l : RedisLedger) (u : String) (amount : ℕ) (id : String) (w : Wire)
      → spend_key l u ≡ key
      → l.window ≡ window
      → with_id id (R.zset s key) ≡ 0
      → IsWithin now s
      → IsWithin now (reserve R l u amount limit now id w s).0
  unfolding reserve
  reserve-IsWithin s now l u amount id w k v fresh h =
      Ran-rule (IsWithin now) (eval-Ran _ s w l.reserve_sha) h (
        rw (k, v)
          (script-IsWithin now amount s _
            (reserve_script-Outcome R lawful key now window amount limit id s p fresh) h))

  reserve_other-IsWithin :
      (s : R.State) (now : ℕ) (l : RedisLedger) (u : String) (amount other : ℕ) (id : String)
      (w : Wire)
      → spend_key l u ≢ key
      → IsWithin now s
      → IsWithin now (reserve R l u amount other now id w s).0
  unfolding reserve
  reserve_other-IsWithin s now l u amount other id w ne h =
      Ran-rule (IsWithin now) (eval-Ran _ s w l.reserve_sha) h (
        same-IsWithin now s _
          (zset-reserve_script R lawful (spend_key l u) key ne now l.window amount other
            (entry id (some (written amount))) s)
          h)

  settle-IsWithin :
      (s : R.State) (now : ℕ) (l : RedisLedger) (r : Reservation) (actual : ℕ) (use_ : Usage)
      (w : Wire)
      → spend_key l r.user_id ≡ key
      → l.window ≡ window
      → with_id r.id (R.zset s key) ≡ 1
      → written actual ≤ held_for R lawful key now window r.id s
      → IsWithin now s
      → IsWithin now (settle R l r actual use_ now w s).0
  settle-IsWithin s now l r actual use_ w k v one covered h =
      settle-rule R l r actual use_ now w s (IsWithin now) h (rw (k, v) (charged _))
    where
      charged : (uk : String) → IsWithin now (settle_script R key uk now r.id actual window s).0
      charged uk = omega (arith, live-settle_script R lawful key now window uk r.id actual s p one)

  settle_other-IsWithin :
      (s : R.State) (now : ℕ) (l : RedisLedger) (r : Reservation) (actual : ℕ) (use_ : Usage)
      (w : Wire)
      → (spend_key l r.user_id ≢ key) ⊎ (r.closed ≡ true)
      → IsWithin now s
      → IsWithin now (settle R l r actual use_ now w s).0
  settle_other-IsWithin s now l r actual use_ w (inl ne) h =
      settle-rule R l r actual use_ now w s (IsWithin now) h (
        same-IsWithin now s _
          (zset-settle_script R lawful (spend_key l r.user_id) key ne (usage_key l r.user_id) r.id
            now actual l.window s)
          h)
  settle_other-IsWithin s now l r actual use_ w (inr closed_) h =
      rw (settle-closed R l r actual use_ now w s closed_) h

  release-IsWithin :
      (s : R.State) (now : ℕ) (l : RedisLedger) (r : Reservation) (w : Wire)
      → (spend_key l r.user_id ≡ key) ⊎ (spend_key l r.user_id ≢ key)
      → IsWithin now s
      → IsWithin now (release R l r w s).0
  release-IsWithin s now l r w (inl k) h =
      release-rule R l r w s (IsWithin now) h
        (rw k (omega (arith, live-release_script R lawful key now window r.id s)))
  release-IsWithin s now l r w (inr ne) h =
      release-rule R l r w s (IsWithin now) h (
        same-IsWithin now s _ (zset-release_script R lawful (spend_key l r.user_id) key ne r.id s)
          h)

  Step-IsWithin :
      {s : R.State} {now : ℕ} {s' : R.State} {t : ℕ}
      → Step s now s' t
      → IsWithin now s
      → IsWithin t s'
  Step-IsWithin (wait s now t later) h = omega (arith, live-later s now t later)
  Step-IsWithin (reserves s now l u amount id w k v fresh) h =
      reserve-IsWithin s now l u amount id w k v fresh h
  Step-IsWithin (reserves_other s now l u amount other id w ne) h =
      reserve_other-IsWithin s now l u amount other id w ne h
  Step-IsWithin (settles s now l r actual use_ w k v one covered) h =
      settle-IsWithin s now l r actual use_ w k v one covered h
  Step-IsWithin (settles_other s now l r actual use_ w which) h =
      settle_other-IsWithin s now l r actual use_ w which h
  Step-IsWithin (releases s now l r w which) h = release-IsWithin s now l r w which h

  pub data Run (s : R.State) (now : ℕ) : R.State → ℕ → Type 0 where
    start : Run s now s now
    then_ : {s' s'' : R.State} {t t' : ℕ} → Run s now s' t → Step s' t s'' t' → Run s now s'' t'

  -- The budget is the fleet's. However the calls of any number of replicas interleave, and whatever
  -- answers, script caches and connections are lost on their way, the live spend under a user's key
  -- stays at most the limit, with the tolerance of 1e-9 dollars and half a unit of rounding, if it is
  -- so at first: on any server that obeys the documented commands, with one clock and one positive
  -- window for all, if every reservation under the key is made with this limit and a fresh id, and
  -- every settlement of an open one costs, as written, at most what its one hold in the window counts.
  pub Run-IsWithin :
      {s : R.State} {now : ℕ} {s' : R.State} {t : ℕ}
      → IsWithin now s
      → Run s now s' t
      → IsWithin t s'
  Run-IsWithin h start = h
  Run-IsWithin h (then_ r x) = Step-IsWithin x (Run-IsWithin h r)
