-- ===== src/Ledger.antt =====
-- app/cost/base.py and app/cost/memory.py: the in-memory ledger. Money is in pico-dollars, times are in
-- ticks. No method gives up control inside its lock, so a call is one step; a clock reading and
-- the fresh id of a reservation are arguments. A reservation is shared by reference, so the one
-- that a call leaves is returned.
pub mod Entries
pub mod Holds
pub mod Close
pub mod Charge
pub mod Budget
use llm_inference_autoscalin.Base.{
  ℕ, ◌+◌, String, Bool, true, false, List, [], ◌∷◌, ◌++◌, ltb, leb, ◌==◌, if◌then◌else◌, filter,
  sum_by, Dict, insert, lookup_or,
}

pub record Entry : Type 0 where
  pub at : ℕ
  pub amount : ℕ
  pub id : String

pub record Reservation : Type 0 where
  pub user_id : String
  pub amount : ℕ
  pub created_at : ℕ
  pub id : String
  pub closed : Bool

pub record UsageRecord : Type 0 where
  pub user_id : String
  pub model : String
  pub input_tokens : ℕ
  pub output_tokens : ℕ
  pub cost : ℕ
  pub at : ℕ

-- `UserBudgetExceededError(user_id, spent, limit, requested)`
pub record UserBudgetExceededError : Type 0 where
  pub user_id : String
  pub spent : ℕ
  pub limit : ℕ
  pub requested : ℕ

pub record Ledger : Type 0 where
  pub window : ℕ
  pub spend : Dict (List Entry)
  pub records : List UsageRecord

-- `self._spend[user_id]` of a `defaultdict(list)`
unfoldable pub entries : Ledger → String → List Entry
entries l user_id = lookup_or user_id [] l.spend

abbrev pub put_entries : Ledger → String → List Entry → Ledger
put_entries l user_id es = record l { spend = insert user_id es l.spend }

-- `e[0] >= now - window_seconds`, written as a sum.
abbrev pub is_live : ℕ → ℕ → Entry → Bool
is_live window now e = leb now (e.at + window)

abbrev pub total : List Entry → ℕ
total es = sum_by (λ e. e.amount) es

-- `_prune`
unfoldable pub prune : Ledger → String → ℕ → Ledger
prune l user_id now = put_entries l user_id (filter (is_live l.window now) (entries l user_id))

unfoldable pub spent : Ledger → String → ℕ → Ledger × ℕ
spent l user_id now = let l' = prune l user_id now in (l', total (entries l' user_id))

pub data Reserved : Type 0 where
  held : Reservation → Reserved
  exceeded : UserBudgetExceededError → Reserved

-- 1e-9 dollars
abbrev pub epsilon : ℕ
epsilon = 1000

unfoldable pub reserve : Ledger → String → ℕ → ℕ → ℕ → String → Ledger × Reserved
reserve l user_id amount limit now id =
    let l' = prune l user_id now in
    let current = total (entries l' user_id) in
    if ltb (limit + epsilon) (current + amount)
    then (
      l',
      exceeded (record { user_id = user_id; spent = current; limit = limit; requested = amount }),
    )
    else (
      put_entries l' user_id
          (entries l' user_id ++ record { at = now; amount = amount; id = id } ∷ []),
      held (record {
        user_id = user_id;
        amount = amount;
        created_at = now;
        id = id;
        closed = false;
      }),
    )

-- `_drop`: the first entry with the id goes.
unfoldable pub drop : String → List Entry → List Entry
drop id [] = []
drop id (e ∷ es) = if e.id == id then es else e ∷ drop id es

-- The arguments of `settle` that describe the call.
pub record Usage : Type 0 where
  pub model : String
  pub input_tokens : ℕ
  pub output_tokens : ℕ

unfoldable pub settle : Ledger → Reservation → ℕ → Usage → ℕ → Ledger × Reservation
settle l r actual_cost u now = if r.closed then (l, r) else (
  record l {
    spend =
        insert r.user_id
          (drop r.id (entries l r.user_id)
            ++ record { at = now; amount = actual_cost; id = r.id } ∷ [])
          l.spend;
    records =
        l.records
        ++ record {
          user_id = r.user_id;
          model = u.model;
          input_tokens = u.input_tokens;
          output_tokens = u.output_tokens;
          cost = actual_cost;
          at = now;
        }
          ∷ [];
  },
  record r { closed = true },
)

unfoldable pub release : Ledger → Reservation → Ledger × Reservation
release l r =
    if r.closed
    then (l, r)
    else (put_entries l r.user_id (drop r.id (entries l r.user_id)), record r { closed = true })

-- `summary`, the loop over the records.
unfoldable pub add_records : Dict ℕ → List UsageRecord → Dict ℕ
add_records out [] = out
add_records out (r ∷ rs) =
    add_records (insert r.user_id (lookup_or r.user_id 0 out + r.cost) out) rs

unfoldable pub summary : Ledger → Dict ℕ
summary l = add_records [] l.records
