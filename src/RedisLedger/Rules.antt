-- ===== src/RedisLedger/Rules.antt =====
-- app/cost/redis_ledger.py: what holds after a call that may lose its answer.
use llm_inference_autoscalin.Base.{ℕ, ◌≡◌, refl, inl, inr, true, ◌&&◌, Bool-cases}
use llm_inference_autoscalin.Ledger.{Reservation, Usage}
use llm_inference_autoscalin.Redis.{Redis}
use llm_inference_autoscalin.RedisLedger.{
  RedisLedger, spend_key, usage_key, settle_script, release_script, is_lost, settle, release,
}
use llm_inference_autoscalin.RedisLedger.Calls.{Wire, eval, eval-Ran, Ran-rule}

module _ (R : Redis) (l : RedisLedger) (r : Reservation) where
  pub settle-closed :
      (actual : ℕ) (use_ : Usage) (now : ℕ) (w : Wire) (s : R.State)
      → r.closed ≡ true
      → (settle R l r actual use_ now w s).0 ≡ s
  unfolding settle
  settle-closed actual use_ now w s h = rw (h, settle) refl

  -- What holds before a settlement and after its script, holds after the settlement.
  pub settle-rule :
      (actual : ℕ) (use_ : Usage) (now : ℕ) (w : Wire) (s : R.State) (P : R.State → Type 0)
      → P s
      → P
          (settle_script R
            (spend_key l r.user_id)
            (usage_key l r.user_id)
            now
            r.id
            actual
            l.window
            s).0
      → P (settle R l r actual use_ now w s).0
  unfolding settle
  settle-rule actual use_ now w s P before after =
      let run =
        eval w l.settle_sha
          (settle_script R (spend_key l r.user_id) (usage_key l r.user_id) now r.id actual l.window)
          s in
      let ran = Ran-rule P (eval-Ran _ s w l.settle_sha) before after in
      elim (Bool-cases r.closed) [
        | inl done ↦ rw (done, settle) before
        | inr open_ ↦ elim (Bool-cases (is_lost run.2 && l.fail_closed)) [
          | inl raises ↦ rw (open_, settle) (rw raises ran)
          | inr goes_on ↦ rw (open_, settle) (rw goes_on ran)
        ]
      ]

  pub release-rule :
      (w : Wire) (s : R.State) (P : R.State → Type 0)
      → P s
      → P (release_script R (spend_key l r.user_id) r.id s).0
      → P (release R l r w s).0
  unfolding release
  release-rule w s P before after = elim (Bool-cases r.closed) [
    | inl done ↦ rw (done, release) before
    | inr open_ ↦ rw (open_, release) (Ran-rule P (eval-Ran _ s w l.release_sha) before after)
  ]
