-- ===== src/RedisLedger/Scripts.antt =====
-- app/cost/redis_ledger.py: what the scripts do to a user's live spend, on any server that obeys the
-- documented commands.
use llm_inference_autoscalin.Base.{
  ℕ, ◌+◌, ◌≤◌, ◌<◌, String, ◌≡◌, refl, sym, ap, ◌∙◌, ◌⊎◌, inl, inr, Bool, true, false, Option, none,
  some, arith, ltb, if◌then◌else◌, Bool-cases, sum_by, lt→ltb, lua_number,
}
use llm_inference_autoscalin.Ledger.{epsilon}
use llm_inference_autoscalin.Redis.{
  Member, entry, has_id, Scored, drop_member, with_id, members, is_above, Redis, IsLawful,
}
use llm_inference_autoscalin.RedisLedger.{
  amount_of, sum_members, written, first_with, reserve_script, settle_script, release_script,
  drop_found,
}
use llm_inference_autoscalin.RedisLedger.Sums.{
  live_amount, sum_members-members, sum_by-filter, sum_by_mono, sum_by-ext, sum_by-drop_found,
  first_with-none, with_id-zero,
}

module _ (R : Redis) (lawful : IsLawful R) (key : String) (now window : ℕ) where
  -- The live spend under a key: the amounts of the elements in the window.
  abbrev pub live : R.State → ℕ
  live s = sum_by (live_amount now window) (R.zset s key)

  -- What the members with an id count towards it.
  abbrev pub held_for : String → R.State → ℕ
  held_for id s = sum_by (λ e. if has_id id e.1 then live_amount now window e else 0) (R.zset s key)

  pruned_sum :
      (s : R.State) (f : Scored → ℕ)
      → sum_by f (R.zset (R.zremrangebyscore s key now window) key)
        ≡ sum_by (λ e. if is_above now window e then f e else 0) (R.zset s key)
  pruned_sum s f =
      lawful.zremrangebyscore-sum s key now window f ∙ sum_by-filter now window (R.zset s key) f

  live-pruned : (s : R.State) → live (R.zremrangebyscore s key now window) ≡ live s
  live-pruned s =
      pruned_sum s (live_amount now window)
      ∙ sum_by-ext (R.zset s key) _ _ (λ e. elim (Bool-cases (is_above now window e)) [
        | inl above ↦ rw above refl
        | inr below ↦ rw below refl
      ])

  total_pruned :
      (s : R.State) → sum_members (R.zrange (R.zremrangebyscore s key now window) key) ≡ live s
  total_pruned s =
      ap sum_members (lawful.zrange_members (R.zremrangebyscore s key now window) key)
      ∙ sum_members-members (R.zset (R.zremrangebyscore s key now window) key)
      ∙ pruned_sum s (λ e. amount_of e.1)

  with_id-pruned :
      (s : R.State) (id : String)
      → with_id id (R.zset (R.zremrangebyscore s key now window) key) ≤ with_id id (R.zset s key)
  with_id-pruned s id = rw (pruned_sum s (λ e. if has_id id e.1 then 1 else 0)) (
      sum_by_mono (R.zset s key) _ _ (λ e. elim (Bool-cases (is_above now window e)) [
        | inl above ↦ rw above (omega arith)
        | inr below ↦ rw below (omega arith)
      ]))

  -- What a run of the reserve script leaves and answers.
  abbrev pub ReserveOutcome : ℕ → ℕ → R.State → R.State × (Bool × ℕ) → Type 0
  ReserveOutcome amount limit s x =
      (x.1.1 ≡ lua_number (live s))
      × (((x.1.0 ≡ true)
            × (live s + amount ≤ limit + epsilon)
            × (live x.0 ≡ live s + written amount))
          ⊎ ((x.1.0 ≡ false) × (limit + epsilon < live s + amount) × (live x.0 ≡ live s)))

  live-added :
      (s : R.State) (id : String) (amount expiry : ℕ)
      → 0 < window
      → with_id id (R.zset s key) ≡ 0
      → live (R.expire (R.zadd s key now (entry id (some amount))) key expiry) ≡ live s + amount
  live-added s id amount expiry p fresh =
      ap (sum_by (live_amount now window)) (lawful.zset-expire _ key key expiry)
      ∙ lawful.zadd-sum s key now id (some amount) (live_amount now window) fresh
      ∙ ap (λ b. live s + (if b then amount else 0)) (lt→ltb now (now + window) (omega arith))

  pub reserve_script-Outcome :
      (amount limit : ℕ) (id : String) (s : R.State)
      → 0 < window
      → with_id id (R.zset s key) ≡ 0
      → ReserveOutcome amount limit s
          (reserve_script R key now window amount limit (entry id (some (written amount))) s)
  unfolding reserve_script
  reserve_script-Outcome amount limit id s p fresh =
      let pruned = R.zremrangebyscore s key now window in
      let total = sum_members (R.zrange pruned key) in
      elim (Bool-cases (ltb (limit + epsilon) (total + amount))) [
        | inl over ↦
            rw (over, reserve_script)
              (
                ap lua_number (total_pruned s),
                inr (refl, ground (arith, total_pruned s), live-pruned s),
              )
        | inr fits ↦
            rw (fits, reserve_script)
              (
                ap lua_number (total_pruned s),
                inl (
                  refl,
                  ground (arith, total_pruned s),
                  live-added pruned id (written amount) (window + 60) p
                        (omega (arith, with_id-pruned s id))
                      ∙ ap (λ n. n + written amount) (live-pruned s),
                ),
              )
      ]

  -- After the first member with an id, if there is one, has been dropped.
  live-dropped :
      (s : R.State) (id : String)
      → with_id id (R.zset s key) ≡ 1
      → let t = drop_found R key (first_with id (R.zrange s key)) s in
        (with_id id (R.zset t key) ≡ 0) × (live t + held_for id s ≡ live s)
  live-dropped s id one =
      by_found (first_with id (R.zrange s key)) (ap (first_with id) (lawful.zrange_members s key))
    where
      by_found :
          (x : Option Member)
          → x ≡ first_with id (members (R.zset s key))
          → let t = drop_found R key x s in
            (with_id id (R.zset t key) ≡ 0) × (live t + held_for id s ≡ live s)
      by_found none e = absurd (omega (arith, first_with-none id (R.zset s key) (sym e), one))
      by_found (some m) e =
          let (x, has, sums) = sum_by-drop_found id (R.zset s key) m (sym e) in
          let counts : Scored → ℕ = λ y. if has_id id y.1 then 1 else 0 in
          let holds : Scored → ℕ = λ y. if has_id id y.1 then live_amount now window y else 0 in
          let gone : with_id id (drop_member m (R.zset s key)) ≡ 0 =
            omega (arith, sums counts, ap (λ b. if◌then◌else◌ {A = ℕ} b 1 0) has, one) in
          (
            lawful.zrem-sum s key m counts ∙ gone,
            omega (
              arith,
              lawful.zrem-sum s key m (live_amount now window),
              sums (live_amount now window),
              sums holds,
              with_id-zero id (drop_member m (R.zset s key)) (live_amount now window) gone,
              ap (λ b. if b then live_amount now window x else 0) has,
            ),
          )

  live-dropped_le :
      (s : R.State) (id : String)
      → live (drop_found R key (first_with id (R.zrange s key)) s) ≤ live s
  live-dropped_le s id =
      by_found (first_with id (R.zrange s key)) (ap (first_with id) (lawful.zrange_members s key))
    where
      by_found :
          (x : Option Member)
          → x ≡ first_with id (members (R.zset s key))
          → live (drop_found R key x s) ≤ live s
      by_found none e = omega arith
      by_found (some m) e =
          let (x, has, sums) = sum_by-drop_found id (R.zset s key) m (sym e) in
          omega
            (arith, lawful.zrem-sum s key m (live_amount now window), sums (live_amount now window))

  -- The settle script puts the actual cost in the place of the one hold with the id.
  pub live-settle_script :
      (usage_key id : String) (actual : ℕ) (s : R.State)
      → 0 < window
      → with_id id (R.zset s key) ≡ 1
      → live (settle_script R key usage_key now id actual window s).0 + held_for id s
        ≡ live s + written actual
  unfolding settle_script
  live-settle_script usage_key id actual s p one =
      let t = drop_found R key (first_with id (R.zrange s key)) s in
      let (gone, dropped) = live-dropped s id one in
      omega (
        arith,
        ap (sum_by (live_amount now window)) (lawful.zset-expire _ usage_key key (window + 60)),
        ap (sum_by (live_amount now window)) (lawful.zset-hincrby _ usage_key key actual),
        live-added t id (written actual) (window + 60) p gone,
        dropped,
      )

  pub live-release_script :
      (id : String) (s : R.State) → live (release_script R key id s).0 ≤ live s
  unfolding release_script
  live-release_script id s = live-dropped_le s id
