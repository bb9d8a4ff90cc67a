-- ===== src/RedisLedger/Settling.antt =====
-- app/cost/redis_ledger.py: what `settle` comes to when the server fails, does not answer, or answers.
use mathlib.Core.Path.{subst}
use llm_inference_autoscalin.Base.{
  ℕ, ◌+◌, ◌<◌, ◌≡◌, refl, sym, ◌⊎◌, inl, inr, Bool, true, false, ◌&&◌, Option, none, if◌then◌else◌,
}
use llm_inference_autoscalin.Errors.{ledger_unavailable_error, Result, returns, throws}
use llm_inference_autoscalin.Ledger.{Reservation, Usage}
use llm_inference_autoscalin.Redis.{with_id, Redis, IsLawful}
use llm_inference_autoscalin.RedisLedger.{
  RedisLedger, spend_key, usage_key, written, is_lost, settle_script, settle, recorded,
  usage_record,
}
use llm_inference_autoscalin.RedisLedger.Calls.{
  Sha, Wire, eval, Ran, answered, lost, untouched, eval-Ran,
}
use llm_inference_autoscalin.RedisLedger.Scripts.{live, held_for, live-settle_script}
use llm_inference_autoscalin.Http.{http, status_for, first_match, headers_for, as_http, plain}

-- The actual cost is in the live spend in the place of what the hold counted.
abbrev pub Charges :
    (R : Redis) (lawful : IsLawful R) (l : RedisLedger) (r : Reservation) (actual now : ℕ)
    (s t : R.State)
    → Type 0
Charges R lawful l r actual now s t =
    let key = spend_key l r.user_id in
    live R lawful key now l.window t + held_for R lawful key now l.window r.id s
    ≡ live R lawful key now l.window s + written actual

-- How `settle` of an open reservation, by a ledger that fails closed, stands to the user's live spend
-- and to the replica's own records.
abbrev pub Settled :
    (R : Redis) (lawful : IsLawful R) (l : RedisLedger) (r : Reservation) (actual : ℕ)
    (use_ : Usage) (now : ℕ) (s : R.State)
    → R.State × RedisLedger × Reservation × Result (Unit {0})
    → Type 0
Settled R lawful l r actual use_ now s (t, l', r', returns done) =
    Charges R lawful l r actual now s t
    × (r'.closed ≡ true)
    × (l'.local_records ≡ (recorded R l (usage_record R r actual use_ now)).local_records)
Settled R lawful l r actual use_ now s (t, l', r', throws e) =
    ((t ≡ s) ⊎ Charges R lawful l r actual now s t)
    × (r'.closed ≡ true)
    × (l'.local_records ≡ l.local_records)
    × (as_http {A = Unit {0}} 1 (plain e) ≡ http 503 none)

module _ (R : Redis) (lawful : IsLawful R) (l : RedisLedger) (r : Reservation) (actual : ℕ)
    (use_ : Usage) (now : ℕ) where
  -- What `settle` makes of the answer to the script.
  abbrev made :
      Bool → R.State → Sha → Option Bool → R.State × RedisLedger × Reservation × Result (Unit {0})
  made strict t sha answer =
      if is_lost answer && strict
      then (
        t,
        record l { settle_sha = sha },
        record r { closed = true },
        throws ledger_unavailable_error,
      )
      else (
        t,
        recorded R (record l { settle_sha = sha }) (usage_record R r actual use_ now),
        record r { closed = true },
        returns tt,
      )

  made-Settled :
      (script : R.State → R.State × Bool) (s t : R.State) (sha : Sha) (answer : Option Bool)
      (strict : Bool)
      → strict ≡ true
      → Charges R lawful l r actual now s (script s).0
      → Ran script s t answer
      → Settled R lawful l r actual use_ now s (made strict t sha answer)
  unfolding as_http status_for first_match headers_for
  made-Settled script s t sha answer true e charges answered = (charges, refl, refl)
  made-Settled script s t sha answer true e charges lost = (inr charges, refl, refl, refl)
  made-Settled script s t sha answer true e charges untouched = (inl refl, refl, refl, refl)
  made-Settled script s t sha answer false e charges ran = absurd (cc e)

  -- Of a ledger that fails closed, no settlement is reported that is not made. Whatever happens to the
  -- call, if the reservation is open and has one hold in the user's set, the window is positive and the
  -- server obeys the documented commands: if `settle` returns, the actual cost, as it is written, is in
  -- the live spend in the place of what the hold counted, and the replica has recorded it. If it
  -- raises, which becomes a 503, the server is as it was or has charged the cost all the same, and
  -- nothing is recorded. The reservation is closed either way.
  pub settle-Settled :
      (w : Wire) (s : R.State)
      → l.fail_closed ≡ true
      → r.closed ≡ false
      → 0 < l.window
      → with_id r.id (R.zset s (spend_key l r.user_id)) ≡ 1
      → Settled R lawful l r actual use_ now s (settle R l r actual use_ now w s)
  unfolding settle
  settle-Settled w s strict open_ p one =
      let key = spend_key l r.user_id in
      let script = settle_script R key (usage_key l r.user_id) now r.id actual l.window in
      let (t, sha, answer) = eval w l.settle_sha script s in
      subst
        (λ b.
          Settled R lawful l r actual use_ now s
            (if b then (s, l, r, returns tt) else made l.fail_closed t sha answer))
        (sym open_)
        (made-Settled script s t sha answer l.fail_closed strict
          (live-settle_script R lawful key now l.window (usage_key l r.user_id) r.id actual s p one)
          (eval-Ran script s w l.settle_sha))
