-- ===== src/RedisLedger/Calls.antt =====
-- app/cost/redis_ledger.py and app/ratelimit.py: `_eval`, a script sent to a server that can fail.
use llm_inference_autoscalin.Base.{String, Option, none, some}

-- The hash under which a script is loaded, if it is.
abbrev pub Sha : Type 0
Sha = Option String

-- How a call that runs a script ends: with the script's answer, with an exception that says
-- NOSCRIPT, before which it has not run, with another before it has run, or with another after it.
pub data Call : Type 0 where
  runs noscript fails loses : Call

-- What the server does with the calls of one `_eval`: the hash that `script_load` returns, if it
-- does, and how `evalsha` and `eval` end.
pub record Wire : Type 0 where
  pub load : Option String
  pub evalsha : Call
  pub eval_ : Call

-- The state and the answer after one call; `none` is an exception.
abbrev pub Answered {ℓ κ} : Type ℓ → Type κ → Type (ℓ ⊔ κ)
Answered S A = S × Sha × Option A

unfoldable pub call {ℓ κ} : {S : Type ℓ} {A : Type κ} → Call → Sha → (S → S × A) → S → Answered S A
call runs sha script s = let (s', a) = script s in (s', sha, some a)
call noscript sha script s = (s, sha, none)
call fails sha script s = (s, sha, none)
call loses sha script s = ((script s).0, sha, none)

-- `evalsha`, and `eval` after an exception that says NOSCRIPT.
unfoldable pub evalsha_or_eval {ℓ κ} :
    {S : Type ℓ} {A : Type κ} → Call → Call → Sha → (S → S × A) → S → Answered S A
unfolding call
evalsha_or_eval noscript eval_ sha script s = call eval_ none script s
evalsha_or_eval evalsha eval_ sha script s = call evalsha sha script s

-- `_eval`
unfoldable pub eval {ℓ κ} : {S : Type ℓ} {A : Type κ} → Wire → Sha → (S → S × A) → S → Answered S A
unfolding evalsha_or_eval
eval w (some sha) script s = evalsha_or_eval w.evalsha w.eval_ (some sha) script s
eval w none script s = elim w.load [
  | none ↦ (s, none, none)
  | some sha ↦ evalsha_or_eval w.evalsha w.eval_ (some sha) script s
]

-- Whatever happens on the wire, the script runs once or not at all, and an answer is the script's.
pub data Ran {ℓ κ} {S : Type ℓ} {A : Type κ} (script : S → S × A) (s : S)
    : S → Option A → Type (ℓ ⊔ κ) where
  answered : Ran script s (script s).0 (some (script s).1)
  lost : Ran script s (script s).0 none
  untouched : Ran script s s none

module _ {ℓ κ} {S : Type ℓ} {A : Type κ} (script : S → S × A) (s : S) where
  call-Ran : (c : Call) (sha : Sha) → let x = call c sha script s in Ran script s x.0 x.2
  unfolding call
  call-Ran runs sha = answered
  call-Ran noscript sha = untouched
  call-Ran fails sha = untouched
  call-Ran loses sha = lost

  evalsha_or_eval-Ran :
      (c d : Call) (sha : Sha) → let x = evalsha_or_eval c d sha script s in Ran script s x.0 x.2
  unfolding evalsha_or_eval
  evalsha_or_eval-Ran noscript d sha = call-Ran d none
  evalsha_or_eval-Ran runs d sha = answered
  evalsha_or_eval-Ran fails d sha = untouched
  evalsha_or_eval-Ran loses d sha = lost

  pub eval-Ran : (w : Wire) (sha : Sha) → let x = eval w sha script s in Ran script s x.0 x.2
  unfolding eval
  eval-Ran w (some sha) = evalsha_or_eval-Ran w.evalsha w.eval_ (some sha)
  eval-Ran w none = by_load w.load
    where
      by_load :
          (load : Option String)
          → let x : Answered S A = elim load [
            | none ↦ (s, none, none)
            | some sha ↦ evalsha_or_eval w.evalsha w.eval_ (some sha) script s
          ] in
            Ran script s x.0 x.2
      by_load none = untouched
      by_load (some sha) = evalsha_or_eval-Ran w.evalsha w.eval_ (some sha)

-- What holds of the state before a script and of the one after it, holds after the call.
pub Ran-rule {ℓ κ π} :
    {S : Type ℓ} {A : Type κ} {script : S → S × A} {s : S} (P : S → Type π) {t : S} {a : Option A}
    → Ran script s t a
    → P s
    → P (script s).0
    → P t
Ran-rule P answered before after = after
Ran-rule P lost before after = after
Ran-rule P untouched before after = before
