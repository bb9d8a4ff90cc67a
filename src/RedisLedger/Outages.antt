-- ===== src/RedisLedger/Outages.antt =====
-- app/cost/redis_ledger.py: what a call does when the server fails, does not answer, or answers late.
use llm_inference_autoscalin.Base.{
  ℕ, ◌+◌, ◌≤◌, ◌<◌, String, ◌≡◌, refl, ◌⊎◌, inl, inr, Bool, true, false, ◌&&◌, Option, none, some,
  Bool-cases, lua_number,
}
use llm_inference_autoscalin.Errors.{returns}
use llm_inference_autoscalin.Ledger.{Reservation, Usage, epsilon}
use llm_inference_autoscalin.Redis.{with_id, Redis, IsLawful, entry}
use llm_inference_autoscalin.RedisLedger.{
  RedisLedger, spend_key, usage_key, written, Reserved, held, exceeded, unavailable, is_lost,
  reservation, reserve_script, reserve_answered, settle_script, reserve, settle, release,
}
use llm_inference_autoscalin.RedisLedger.Calls.{
  Sha, Wire, eval, Ran, answered, lost, untouched, eval-Ran,
}
use llm_inference_autoscalin.RedisLedger.Scripts.{live, ReserveOutcome, reserve_script-Outcome}

-- How `reserve` of a ledger that fails closed stands to the live spend under the user's key.
abbrev pub Metered :
    (R : Redis) (lawful : IsLawful R) (key : String) (now window amount limit : ℕ) (s : R.State)
    → R.State × RedisLedger × Reserved
    → Type 0
Metered R lawful key now window amount limit s (t, l, held r) =
    (live R lawful key now window s + amount ≤ limit + epsilon)
    × (live R lawful key now window t ≡ live R lawful key now window s + written amount)
Metered R lawful key now window amount limit s (t, l, exceeded e) =
    (limit + epsilon < live R lawful key now window s + amount)
    × (e.spent ≡ lua_number (live R lawful key now window s))
    × (live R lawful key now window t ≡ live R lawful key now window s)
Metered R lawful key now window amount limit s (t, l, unavailable) =
    (live R lawful key now window t ≡ live R lawful key now window s)
    ⊎ ((live R lawful key now window s + amount ≤ limit + epsilon)
        × (live R lawful key now window t ≡ live R lawful key now window s + written amount))

module _ (R : Redis) (lawful : IsLawful R) (l : RedisLedger) (u : String) (amount limit now : ℕ)
    (id : String) where
  answered-Metered :
      (key : String) (window : ℕ) (sha : Sha) (s t : R.State) (a : Option (Bool × ℕ))
      (x : R.State × (Bool × ℕ))
      → l.fail_closed ≡ true
      → ReserveOutcome R lawful key now window amount limit s x
      → ((t ≡ x.0) × (a ≡ some x.1)) ⊎ (((t ≡ x.0) ⊎ (t ≡ s)) × (a ≡ none))
      → Metered R lawful key now window amount limit s (
        t,
        record l { reserve_sha = sha },
        reserve_answered R l (reservation R u amount now id) limit a,
      )
  unfolding reserve_answered
  answered-Metered key window sha s t a (t', (true, current)) c (total, inl (yes_, fits, charged))
        (inl (e, f)) =
      rw (e, f) (fits, charged)
  answered-Metered key window sha s t a (t', (true, current)) c (total, inr (no_, over, same)) w =
      absurd (cc no_)
  answered-Metered key window sha s t a (t', (false, current)) c (total, inl (yes_, fits, charged))
        w =
      absurd (cc yes_)
  answered-Metered key window sha s t a (t', (false, current)) c (total, inr (no_, over, same))
        (inl (e, f)) =
      rw (e, f) (over, total, same)
  answered-Metered key window sha s t a (t', b) c (total, inl (yes_, fits, charged))
        (inr (inl e, f)) =
      rw (e, f, c) (inr (fits, charged))
  answered-Metered key window sha s t a (t', b) c (total, inr (no_, over, same)) (inr (inl e, f)) =
      rw (e, f, c) (inl same)
  answered-Metered key window sha s t a (t', b) c o (inr (inr e, f)) = rw (e, f, c) (inl refl)

  -- Of a ledger that fails closed, no request goes through unmetered. Whatever happens to the call, if
  -- the id is fresh, the window positive and the server obeys the documented commands: a reservation
  -- that is returned fits within the limit and its tolerance, and is held in the user's live spend; a
  -- refusal is right, names the live spend to 14 digits, and leaves it alone; and if the ledger is reported to be
  -- unavailable, the live spend is what it was, or the hold that fits is in it all the same.
  pub reserve-Metered :
      (w : Wire) (s : R.State)
      → l.fail_closed ≡ true
      → 0 < l.window
      → with_id id (R.zset s (spend_key l u)) ≡ 0
      → Metered R lawful
          (spend_key l u)
          now
          l.window
          amount
          limit
          s
          (reserve R l u amount limit now id w s)
  unfolding reserve
  reserve-Metered w s closed_ p fresh =
      let script =
        reserve_script R (spend_key l u) now l.window amount limit
          (entry id (some (written amount))) in
      answered-Metered (spend_key l u) l.window (eval w l.reserve_sha script s).1 s _ _ (script s)
        closed_
        (reserve_script-Outcome R lawful (spend_key l u) now l.window amount limit id s p fresh)
        (by_run (eval-Ran script s w l.reserve_sha))
    where
      by_run :
          {script : R.State → R.State × (Bool × ℕ)} {t : R.State} {a : Option (Bool × ℕ)}
          → Ran script s t a
          → ((t ≡ (script s).0) × (a ≡ some (script s).1))
            ⊎ (((t ≡ (script s).0) ⊎ (t ≡ s)) × (a ≡ none))
      by_run answered = inl (refl, refl)
      by_run lost = inr (inl refl, refl)
      by_run untouched = inr (inr refl, refl)

module _ (R : Redis) (l : RedisLedger) where
  settle-nothing :
      (actual : ℕ) (use_ : Usage) (now : ℕ) (w : Wire) (s : R.State) (r : Reservation)
      → r.closed ≡ true
      → settle R l r actual use_ now w s ≡ (s, l, r, returns tt)
  unfolding settle
  settle-nothing actual use_ now w s r h = rw (h, settle) refl

  release-nothing :
      (w : Wire) (s : R.State) (r : Reservation)
      → r.closed ≡ true
      → release R l r w s ≡ (s, l, r, returns tt)
  unfolding release
  release-nothing w s r h = rw (h, release) refl

-- Whatever becomes of a settlement, the reservation is closed, and closing it again does nothing.
module _ (R : Redis) (l : RedisLedger) (r : Reservation) (actual : ℕ) (use_ : Usage) (now : ℕ)
    (w : Wire) (s : R.State) where
  settle-closes : (settle R l r actual use_ now w s).2.closed ≡ true
  unfolding settle
  settle-closes =
      let (s', sha, answer) =
        eval w l.settle_sha
          (settle_script R (spend_key l r.user_id) (usage_key l r.user_id) now r.id actual l.window)
          s in
      elim (Bool-cases r.closed) [
        | inl done ↦ rw (done, settle) refl
        | inr open_ ↦ elim (Bool-cases (is_lost answer && l.fail_closed)) [
          | inl raises ↦ rw (open_, settle) (rw raises refl)
          | inr goes_on ↦ rw (open_, settle) (rw goes_on refl)
        ]
      ]

  -- A reservation is charged for at most once: after a settlement, answered or not, any further
  -- settlement or release of it, by any replica, changes neither the server nor the replica's own
  -- records, and returns.
  pub settle_once :
      (l' : RedisLedger) (s' : R.State) (again : ℕ) (use' : Usage) (later : ℕ) (w' : Wire)
      → let r' = (settle R l r actual use_ now w s).2 in
        (settle R l' r' again use' later w' s' ≡ (s', l', r', returns tt))
        × (release R l' r' w' s' ≡ (s', l', r', returns tt))
  settle_once l' s' again use' later w' = (
    settle-nothing R l' again use' later w' s' (settle R l r actual use_ now w s).2 settle-closes,
    release-nothing R l' w' s' (settle R l r actual use_ now w s).2 settle-closes,
  )
