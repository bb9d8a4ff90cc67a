-- ===== src/RedisLedger.antt =====
-- app/cost/redis_ledger.py: the distributed ledger. The server's commands are the parameter `R`. A
-- Lua script runs as one step of the server; times are in ticks, money in pico-dollars, a clock
-- reading and the fresh id of a reservation are arguments.
pub mod Calls
pub mod Sums
pub mod Scripts
pub mod Elsewhere
pub mod Rules
pub mod Fleet
pub mod Outages
pub mod Settling
use Prim.Native.String.{◌++◌ as ◌<>◌}
use llm_inference_autoscalin.Base.{
  ℕ, ◌+◌, ◌*◌, String, Bool, true, false, ◌&&◌, Option, none, some, List, [], ◌∷◌, ◌++◌, ltb, leb,
  if◌then◌else◌, length, round_div, lua_number, Dict, insert,
}
use llm_inference_autoscalin.Errors.{ledger_unavailable_error, Result, returns, throws}
use llm_inference_autoscalin.Ledger.{
  Reservation, UsageRecord, UserBudgetExceededError, Usage, epsilon,
}
use llm_inference_autoscalin.Redis.{Member, entry, bare, has_id, Redis}
use llm_inference_autoscalin.RedisLedger.Calls.{Sha, Wire, eval}

-- The amount of a member, and 0 for a malformed one.
abbrev pub amount_of : Member → ℕ
amount_of (entry id (some a)) = a
amount_of (entry id none) = 0
amount_of (bare s) = 0

-- `_sum_members`, and the loop of the reserve script.
unfoldable pub sum_members : List Member → ℕ
sum_members [] = 0
sum_members (m ∷ ms) = amount_of m + sum_members ms

-- What `"%.10f"` keeps of an amount: whole units of 1e-10 dollars, so of 100 pico-dollars.
unfoldable pub written : ℕ → ℕ
written amount = round_div amount 100 * 100

unfoldable pub first_with : String → List Member → Option Member
first_with id [] = none
first_with id (m ∷ ms) = if has_id id m then some m else first_with id ms

-- `len` and the slice `[-max_records:]` of the local records.
unfoldable pub last_records : ℕ → List UsageRecord → List UsageRecord
last_records n [] = []
last_records n (r ∷ rs) = if leb (length rs + 1) n then r ∷ rs else last_records n rs

-- The object: its parameters, the hashes of the scripts that it has loaded, its own records.
pub record RedisLedger : Type 0 where
  pub window : ℕ
  pub namespace : String
  pub fail_closed : Bool
  pub max_records : ℕ
  pub reserve_sha : Sha
  pub settle_sha : Sha
  pub release_sha : Sha
  pub local_records : List UsageRecord

-- `_spend_key`, `_usage_key`
unfoldable pub spend_key : RedisLedger → String → String
spend_key l user_id = l.namespace <> ":spend:" <> user_id

unfoldable pub usage_key : RedisLedger → String → String
usage_key l user_id = l.namespace <> ":usage:" <> user_id

-- How `reserve` ends.
pub data Reserved : Type 0 where
  held : Reservation → Reserved
  exceeded : UserBudgetExceededError → Reserved
  unavailable : Reserved

abbrev pub is_found : Option Member → Bool
is_found none = false
is_found (some m) = true

-- Whether a call has raised.
abbrev pub is_lost {ℓ} : {A : Type ℓ} → Option A → Bool
is_lost none = true
is_lost (some a) = false

module _ (R : Redis) where
  -- `_RESERVE_LUA`, with the allowed flag and the total that it returns as a text. An expiry is in
  -- ticks, and not rounded up to seconds.
  unfoldable pub reserve_script : String → ℕ → ℕ → ℕ → ℕ → Member → R.State → R.State × (Bool × ℕ)
  reserve_script key now window amount limit member s =
      let pruned = R.zremrangebyscore s key now window in
      let total = sum_members (R.zrange pruned key) in
      if ltb (limit + epsilon) (total + amount)
      then (pruned, (false, lua_number total))
      else (R.expire (R.zadd pruned key now member) key (window + 60), (true, lua_number total))

  abbrev pub drop_found : String → Option Member → R.State → R.State
  drop_found key none s = s
  drop_found key (some m) s = R.zrem s key m

  -- `_SETTLE_LUA`, with the flag whether the hold was there.
  unfoldable pub settle_script : String → String → ℕ → String → ℕ → ℕ → R.State → R.State × Bool
  settle_script key usage_key now entry_id actual window s =
      let hold = first_with entry_id (R.zrange s key) in
      let dropped = drop_found key hold s in
      let added = R.zadd dropped key now (entry entry_id (some (written actual))) in
      let counted = R.hincrby (R.expire added key (window + 60)) usage_key actual in
      (R.expire counted usage_key (window + 60), is_found hold)

  -- `_RELEASE_LUA`, with the same flag.
  unfoldable pub release_script : String → String → R.State → R.State × Bool
  release_script key entry_id s =
      let hold = first_with entry_id (R.zrange s key) in (drop_found key hold s, is_found hold)

  -- `spent`; the flags say which of the two commands the server answers.
  unfoldable pub spent : RedisLedger → String → ℕ → Bool → Bool → R.State → R.State × Result ℕ
  spent l user_id now prunes ranges s =
      let pruned = if prunes then R.zremrangebyscore s (spend_key l user_id) now l.window else s in
      (
        pruned,
        if prunes && ranges
            then returns (sum_members (R.zrange pruned (spend_key l user_id)))
            else if l.fail_closed
            then throws ledger_unavailable_error
            else returns 0,
      )

  abbrev pub reservation : String → ℕ → ℕ → String → Reservation
  reservation user_id amount now id = record {
    user_id = user_id;
    amount = amount;
    created_at = now;
    id = id;
    closed = false;
  }

  unfoldable pub reserve_answered : RedisLedger → Reservation → ℕ → Option (Bool × ℕ) → Reserved
  reserve_answered l r limit none = if l.fail_closed then unavailable else held r
  reserve_answered l r limit (some (false, current)) =
      exceeded
        (record { user_id = r.user_id; spent = current; limit = limit; requested = r.amount })
  reserve_answered l r limit (some (true, current)) = held r

  -- `reserve`
  unfoldable pub reserve :
      RedisLedger → String → ℕ → ℕ → ℕ → String → Wire → R.State → R.State × RedisLedger × Reserved
  unfolding reserve_answered
  reserve l user_id amount limit now id wire s =
      let member = entry id (some (written amount)) in
      let (s', sha, answer) =
        eval wire l.reserve_sha
          (reserve_script (spend_key l user_id) now l.window amount limit member) s in
      (
        s',
        record l { reserve_sha = sha },
        reserve_answered l (reservation user_id amount now id) limit answer,
      )

  abbrev pub recorded : RedisLedger → UsageRecord → RedisLedger
  recorded l r = record l { local_records = last_records l.max_records (l.local_records ++ r ∷ []) }

  abbrev pub usage_record : Reservation → ℕ → Usage → ℕ → UsageRecord
  usage_record r actual_cost u now = record {
    user_id = r.user_id;
    model = u.model;
    input_tokens = u.input_tokens;
    output_tokens = u.output_tokens;
    cost = actual_cost;
    at = now;
  }

  -- `settle`, with the reservation that it leaves.
  unfoldable pub settle :
      RedisLedger
      → Reservation
      → ℕ
      → Usage
      → ℕ
      → Wire
      → R.State
      → R.State × RedisLedger × Reservation × Result (Unit {0})
  settle l r actual_cost u now wire s =
      if r.closed
      then (s, l, r, returns tt)
      else let (s', sha, answer) =
          eval wire l.settle_sha
            (settle_script (spend_key l r.user_id) (usage_key l r.user_id) now r.id actual_cost
              l.window)
            s in
        let l' = record l { settle_sha = sha } in
        if is_lost answer && l.fail_closed
        then (s', l', record r { closed = true }, throws ledger_unavailable_error)
        else (
          s',
          recorded l' (usage_record r actual_cost u now),
          record r { closed = true },
          returns tt,
        )

  -- `release`
  unfoldable pub release :
      RedisLedger
      → Reservation
      → Wire
      → R.State
      → R.State × RedisLedger × Reservation × Result (Unit {0})
  release l r wire s =
      if r.closed
      then (s, l, r, returns tt)
      else let (s', sha, answer) =
          eval wire l.release_sha (release_script (spend_key l r.user_id) r.id) s in
        (
          s',
          record l { release_sha = sha },
          record r { closed = true },
          if is_lost answer && l.fail_closed then throws ledger_unavailable_error else returns tt,
        )

  -- `summary`, over the users whose keys the scan yields; the flag says whether the server answers
  -- all along. A set is not pruned first, so what has left the window counts until a call prunes it.
  unfoldable pub summary_rows : RedisLedger → R.State → Dict ℕ → List String → Dict ℕ
  summary_rows l s out [] = out
  summary_rows l s out (user ∷ users) =
      summary_rows l s (insert user (written (sum_members (R.zrange s (spend_key l user)))) out)
        users

  unfoldable pub summary : RedisLedger → List String → Bool → R.State → Result (Dict ℕ)
  summary l users answers s =
      if answers
      then returns (summary_rows l s [] users)
      else if l.fail_closed
      then throws ledger_unavailable_error
      else returns []

-- `records`
unfoldable pub records : RedisLedger → List UsageRecord
records l = l.local_records
