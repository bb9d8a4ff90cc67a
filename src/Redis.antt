-- ===== src/Redis.antt =====
-- The commands of a Redis server that the distributed ledger and the distributed limiter use, over an
-- unknown state, and what they assume of them. Redis is not code of the repository.
pub mod Memory
use llm_inference_autoscalin.Base.{
  ℕ, ◌+◌, String, ◌≡◌, ◌≢◌, Bool, true, false, ◌&&◌, eqb, Option, none, some, List, [], ◌∷◌, ltb,
  ◌==◌, if◌then◌else◌, filter, sum_by,
}

-- A member of a spend set: `"{entry_id}:{amount}"`, where the part after the first colon need not be
-- a number, or a text without a colon. An entry's id has no colon. The amount is in pico-dollars.
pub data Member : Type 0 where
  entry : String → Option ℕ → Member
  bare : String → Member

abbrev pub same_amount : Option ℕ → Option ℕ → Bool
same_amount none none = true
same_amount (some a) (some b) = eqb a b
same_amount _ _ = false

abbrev pub same_member : Member → Member → Bool
same_member (entry i a) (entry j b) = (i == j) && same_amount a b
same_member (bare s) (bare t) = s == t
same_member _ _ = false

-- An element of a sorted set: its score and its member.
abbrev pub Scored : Type 0
Scored = ℕ × Member

-- `string.sub(member, 1, #prefix) == prefix` for the prefix `id .. ':'`
abbrev pub has_id : String → Member → Bool
has_id id (entry i a) = i == id
has_id id (bare s) = false

abbrev pub drop_member : Member → List Scored → List Scored
drop_member m [] = []
drop_member m (e ∷ es) = if same_member e.1 m then es else e ∷ drop_member m es

abbrev pub members : List Scored → List Member
members [] = []
members (e ∷ es) = e.1 ∷ members es

-- How many members have an id.
abbrev pub with_id : String → List Scored → ℕ
with_id id es = sum_by (λ e. if has_id id e.1 then 1 else 0) es

-- Whether an element's score is above `now - window`.
abbrev pub is_above : ℕ → ℕ → Scored → Bool
is_above now window e = ltb now (e.0 + window)

-- `zset` is what a key's sorted set holds, for the laws only. `zremrangebyscore s key now window` is
-- ZREMRANGEBYSCORE from -inf to `now - window`. A bucket is a hash with its fields `tokens` and `ts`.
pub record Redis : Type 1 where
  pub State : Type 0
  pub zset : State → String → List Scored
  pub zrange : State → String → List Member
  pub zadd : State → String → ℕ → Member → State
  pub zrem : State → String → Member → State
  pub zremrangebyscore : State → String → ℕ → ℕ → State
  pub expire : State → String → ℕ → State
  pub hincrby : State → String → ℕ → State
  pub hmget : State → String → Option ℕ × Option ℕ
  pub hset : State → String → ℕ → ℕ → State

-- What the scripts rely on, whatever the order is in which a set keeps its elements: any sum over
-- the elements is that of the elements that the command is documented to leave. A key's expiry is
-- no sooner than its last element's fall out of the window, and so takes nothing that counts.
pub record IsLawful (R : Redis) : Type 0 where
  pub zrange_members : (s : R.State) (k : String) → R.zrange s k ≡ members (R.zset s k)
  pub zadd-sum :
      (s : R.State) (k : String) (n : ℕ) (id : String) (a : Option ℕ) (f : Scored → ℕ)
      → with_id id (R.zset s k) ≡ 0
      → sum_by f (R.zset (R.zadd s k n (entry id a)) k) ≡ sum_by f (R.zset s k) + f (n, entry id a)
  pub zrem-sum :
      (s : R.State) (k : String) (m : Member) (f : Scored → ℕ)
      → sum_by f (R.zset (R.zrem s k m) k) ≡ sum_by f (drop_member m (R.zset s k))
  pub zremrangebyscore-sum :
      (s : R.State) (k : String) (now window : ℕ) (f : Scored → ℕ)
      → sum_by f (R.zset (R.zremrangebyscore s k now window) k)
        ≡ sum_by f (filter (is_above now window) (R.zset s k))
  pub zset-zadd_ne :
      (s : R.State) (k j : String) (n : ℕ) (m : Member)
      → k ≢ j
      → R.zset (R.zadd s k n m) j ≡ R.zset s j
  pub zset-zrem_ne :
      (s : R.State) (k j : String) (m : Member) → k ≢ j → R.zset (R.zrem s k m) j ≡ R.zset s j
  pub zset-zremrangebyscore_ne :
      (s : R.State) (k j : String) (now window : ℕ)
      → k ≢ j
      → R.zset (R.zremrangebyscore s k now window) j ≡ R.zset s j
  pub zset-expire : (s : R.State) (k j : String) (n : ℕ) → R.zset (R.expire s k n) j ≡ R.zset s j
  pub zset-hincrby : (s : R.State) (k j : String) (n : ℕ) → R.zset (R.hincrby s k n) j ≡ R.zset s j
  pub hmget-hset :
      (s : R.State) (k : String) (tokens ts : ℕ)
      → R.hmget (R.hset s k tokens ts) k ≡ (some tokens, some ts)
  pub hmget-hset_ne :
      (s : R.State) (k j : String) (tokens ts : ℕ)
      → k ≢ j
      → R.hmget (R.hset s k tokens ts) j ≡ R.hmget s j
  pub hmget-expire : (s : R.State) (k j : String) (n : ℕ) → R.hmget (R.expire s k n) j ≡ R.hmget s j
