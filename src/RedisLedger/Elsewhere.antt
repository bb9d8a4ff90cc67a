-- ===== src/RedisLedger/Elsewhere.antt =====
-- app/cost/redis_ledger.py: the scripts leave the spend of every other key alone.
use llm_inference_autoscalin.Base.{
  ℕ, ◌+◌, String, ◌≡◌, refl, ◌∙◌, ◌≢◌, inl, inr, Option, none, some, ltb, Bool-cases,
}
use llm_inference_autoscalin.Ledger.{epsilon}
use llm_inference_autoscalin.Redis.{Member, entry, Redis, IsLawful}
use llm_inference_autoscalin.RedisLedger.{
  sum_members, written, first_with, drop_found, reserve_script, settle_script, release_script,
}

module _ (R : Redis) (lawful : IsLawful R) (key other : String) (ne : key ≢ other) where
  pub zset-reserve_script :
      (now window amount limit : ℕ) (m : Member) (s : R.State)
      → R.zset (reserve_script R key now window amount limit m s).0 other ≡ R.zset s other
  unfolding reserve_script
  zset-reserve_script now window amount limit m s =
      let pruned = R.zremrangebyscore s key now window in
      elim (Bool-cases (ltb (limit + epsilon) (sum_members (R.zrange pruned key) + amount))) [
        | inl over ↦
            rw (over, reserve_script) (lawful.zset-zremrangebyscore_ne s key other now window ne)
        | inr fits ↦
            rw (fits, reserve_script)
              (lawful.zset-expire _ key other (window + 60)
                ∙ lawful.zset-zadd_ne pruned key other now m ne
                ∙ lawful.zset-zremrangebyscore_ne s key other now window ne)
      ]

  zset-drop_found :
      (x : Option Member) (s : R.State) → R.zset (drop_found R key x s) other ≡ R.zset s other
  zset-drop_found none s = refl
  zset-drop_found (some m) s = lawful.zset-zrem_ne s key other m ne

  pub zset-settle_script :
      (usage_key id : String) (now actual window : ℕ) (s : R.State)
      → R.zset (settle_script R key usage_key now id actual window s).0 other ≡ R.zset s other
  unfolding settle_script
  zset-settle_script usage_key id now actual window s =
      lawful.zset-expire _ usage_key other (window + 60)
      ∙ lawful.zset-hincrby _ usage_key other actual
      ∙ lawful.zset-expire _ key other (window + 60)
      ∙ lawful.zset-zadd_ne _ key other now (entry id (some (written actual))) ne
      ∙ zset-drop_found (first_with id (R.zrange s key)) s

  pub zset-release_script :
      (id : String) (s : R.State) → R.zset (release_script R key id s).0 other ≡ R.zset s other
  unfolding release_script
  zset-release_script id s = zset-drop_found (first_with id (R.zrange s key)) s
