-- ===== src/Breaker/Registry.antt =====
-- app/breaker.py: the registry, which makes a breaker on first use. A breaker is shared by reference:
-- what a method of it does is seen in the registry, if the registry holds it (`mutate`).
use llm_inference_autoscalin.Base.{
  ℕ, String, ◌≡◌, ◌≢◌, refl, sym, ap, ◌∙◌, inl, inr, Option, none, some, List, [], ◌∷◌, map, arith,
  eq_iff, ◌==◌, if◌then◌else◌, Bool-cases, filter, Dict, lookup, insert, lookup-insert,
  lookup-insert_self, replace, lookup-replace_self, lookup-replace_ne,
}
use mathlib.Core.Path.{subst}
use llm_inference_autoscalin.Breaker.{BreakerState, CircuitBreaker, new_breaker, is_open}
use llm_inference_autoscalin.Breaker.Life.{Call, after, after_all}

pub record BreakerRegistry : Type 0 where
  pub failure_threshold : ℕ
  pub recovery_timeout : ℕ
  pub breakers : Dict CircuitBreaker

unfoldable pub init : ℕ → ℕ → BreakerRegistry
init threshold recovery = record {
  failure_threshold = threshold;
  recovery_timeout = recovery;
  breakers = [];
}

-- The registry after a method of the breaker with this name, which it may not hold, has left it so.
unfoldable pub mutate : BreakerRegistry → String → CircuitBreaker → BreakerRegistry
mutate r name b = record r { breakers = replace name b r.breakers }

unfoldable pub get : BreakerRegistry → String → BreakerRegistry × CircuitBreaker
get r name = elim (lookup name r.breakers) [
  | some b ↦ (r, b)
  | none ↦
      let b = new_breaker name r.failure_threshold r.recovery_timeout in
      (record r { breakers = insert name b r.breakers }, b)
]

unfoldable pub states : BreakerRegistry → Dict BreakerState
states r = map (λ e. (e.0, e.1.state)) r.breakers

unfoldable pub open_backends : BreakerRegistry → List String
open_backends r = map (λ e. e.0) (filter (λ e. is_open e.1.state) r.breakers)

-- The breaker that `get` hands out for a name.
unfoldable pub current : BreakerRegistry → String → CircuitBreaker
current r name = (get r name).1

-- `breakers.get(name)`, then a call of it.
unfoldable pub dispatch : BreakerRegistry → String → Call → BreakerRegistry
dispatch r name c = let (r', b) = get r name in mutate r' name (after b c)

pub dispatch_all : BreakerRegistry → List (String × Call) → BreakerRegistry
dispatch_all r [] = r
dispatch_all r (e ∷ es) = dispatch_all (dispatch r e.0 e.1) es

pub calls_for : String → List (String × Call) → List Call
calls_for k [] = []
calls_for k (e ∷ es) = if e.0 == k then e.1 ∷ calls_for k es else calls_for k es

pub current-get : (r : BreakerRegistry) (j k : String) → current (get r j).0 k ≡ current r k
unfolding current get
current-get r j k = ground (
  arith,
  eq_iff j k,
  lookup-insert j k (new_breaker j r.failure_threshold r.recovery_timeout) r.breakers,
)

-- `get` stores what it hands out.
get-stored :
    (r : BreakerRegistry) (name : String)
    → lookup name (get r name).0.breakers ≡ some (get r name).1
unfolding get
get-stored r name = by_lookup (lookup name r.breakers) refl
  where
    fresh : CircuitBreaker
    fresh = new_breaker name r.failure_threshold r.recovery_timeout

    by_lookup :
        (o : Option CircuitBreaker)
        → lookup name r.breakers ≡ o
        → let x : BreakerRegistry × CircuitBreaker = elim o [
          | some b ↦ (r, b)
          | none ↦ (record r { breakers = insert name fresh r.breakers }, fresh)
        ] in
          lookup name x.0.breakers ≡ some x.1
    by_lookup (some b) e = e
    by_lookup none e = lookup-insert_self name fresh r.breakers

-- What `get` hands out, of the entry that it finds.
abbrev handed : ℕ → ℕ → String → Option CircuitBreaker → CircuitBreaker
handed threshold recovery name none = new_breaker name threshold recovery
handed threshold recovery name (some b) = b

current-handed :
    (r : BreakerRegistry) (k : String)
    → current r k ≡ handed r.failure_threshold r.recovery_timeout k (lookup k r.breakers)
unfolding current get
current-handed r k = by_lookup (lookup k r.breakers)
  where
    fresh : CircuitBreaker
    fresh = new_breaker k r.failure_threshold r.recovery_timeout

    by_lookup :
        (o : Option CircuitBreaker)
        → let x : BreakerRegistry × CircuitBreaker = elim o [
          | some b ↦ (r, b)
          | none ↦ (record r { breakers = insert k fresh r.breakers }, fresh)
        ] in
          x.1 ≡ handed r.failure_threshold r.recovery_timeout k o
    by_lookup (some b) = refl
    by_lookup none = refl

-- A method of the breaker that `get` hands out is seen by the next `get` of this name alone.
pub current-mutate :
    (r : BreakerRegistry) (j k : String) (b : CircuitBreaker)
    → current (mutate (get r j).0 j b) k ≡ (if j == k then b else current r k)
unfolding mutate
current-mutate r j k b =
    let r' = (get r j).0 in
    elim (Bool-cases (j == k)) [
      | inl same ↦
          let stored = lookup-replace_self j b r'.breakers (get-stored r j) in
          rw same (
            current-handed (mutate r' j b) k
            ∙ ap (handed r'.failure_threshold r'.recovery_timeout k) (
                subst (λ x. lookup x (replace j b r'.breakers) ≡ some b) ((eq_iff j k).0 same)
                  stored))
      | inr other ↦
          let ne : j ≢ k = λ e. ground (arith, eq_iff j k) in
          rw other (
            current-handed (mutate r' j b) k
            ∙ ap (handed r'.failure_threshold r'.recovery_timeout k)
                (lookup-replace_ne j k b r'.breakers ne)
            ∙ sym (current-handed r' k)
            ∙ current-get r j k)
    ]

current-dispatch :
    (r : BreakerRegistry) (j k : String) (c : Call)
    → current (dispatch r j c) k ≡ (if j == k then after (current r j) c else current r k)
unfolding dispatch current
current-dispatch r j k c = current-mutate r j k (after (get r j).1 c)

-- The registry keeps its backends apart: after any sequence of calls addressed to any names, the
-- breaker of a name is what it would be had it alone received the calls addressed to it.
pub dispatch_all-isolated :
    (es : List (String × Call)) (r : BreakerRegistry) (k : String)
    → current (dispatch_all r es) k ≡ after_all (current r k) (calls_for k es)
unfolding dispatch_all calls_for after_all
dispatch_all-isolated [] r k = refl
dispatch_all-isolated (e ∷ es) r k =
    let ih = dispatch_all-isolated es (dispatch r e.0 e.1) k in
    let step = current-dispatch r e.0 k e.1 in
    elim (Bool-cases (e.0 == k)) [
      | inl same ↦
          let named = (eq_iff e.0 k).0 same in
          rw same (
            ih
            ∙ ap (λ b. after_all b (calls_for k es)) (rw same at step)
            ∙ ap (λ n. after_all (after (current r n) e.1) (calls_for k es)) named)
      | inr other ↦ rw other (ih ∙ ap (λ b. after_all b (calls_for k es)) (rw other at step))
    ]
