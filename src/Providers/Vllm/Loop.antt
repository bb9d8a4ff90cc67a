-- ===== src/Providers/Vllm/Loop.antt =====
-- app/providers/vllm.py: the loop over the attempts that `generate` and `generate_stream` share. The
-- replies to the posts are a function of the number of the attempt.
use llm_inference_autoscalin.Base.{
  ℕ, zero, suc, ◌+◌, ◌-◌, ◌≤◌, ◌<◌, ◌≡◌, refl, sym, ap, ◌∙◌, ◌⊎◌, inl, inr, Bool, true, false, List,
  [], ◌∷◌, ◌++◌, arith, ltb, if◌then◌else◌, Bool-cases,
}
use llm_inference_autoscalin.Providers.Vllm.{VllmProvider, backoff, Action, sleep}

-- What a call has done, and how it has ended.
pub record Outcome {ℓ} (A : Type ℓ) : Type ℓ where
  pub actions : List Action
  pub result : A

abbrev pub after_actions {ℓ} : {A : Type ℓ} → List Action → Outcome A → Outcome A
after_actions xs o = record { actions = xs ++ o.actions; result = o.result }

-- An attempt with its action that may be retried: `if attempt < self.max_retries - 1` the loop goes
-- on after a delay, and otherwise the call ends with what is given.
unfoldable pub retried {ℓ} : {A : Type ℓ} → VllmProvider → Action → ℕ → A → Outcome A → Outcome A
retried p act attempt last next =
    if ltb attempt (p.max_retries - 1)
    then after_actions (act ∷ sleep (backoff p attempt) ∷ []) next
    else record { actions = act ∷ []; result = last }

-- `for attempt in range(self.max_retries)`, from an attempt on, with so many left: the body gets the
-- attempt's reply and the rest of the loop, which is only read where the loop goes on.
unfoldable pub attempts {ℓ κ} :
    {R : Type ℓ} {A : Type κ} → (ℕ → R) → (ℕ → R → Outcome A → Outcome A) → A → ℕ → ℕ → Outcome A
attempts replies body otherwise attempt zero = record { actions = []; result = otherwise }
attempts replies body otherwise attempt (suc left) =
    body attempt (replies attempt) (attempts replies body otherwise (attempt + 1) left)

eq_or_lt : (a j : ℕ) → a ≤ j → (a ≡ j) ⊎ (a + 1 ≤ j)
eq_or_lt a j h = elim (Bool-cases (ltb a j)) [
  | inl lt ↦ inr (ground arith)
  | inr ge ↦ inl (ground arith)
]

module _ {ℓ κ} {R : Type ℓ} {A : Type κ} (p : VllmProvider) (act : Action) (is_retryable : R → Bool)
    (verdict : R → A) where
  -- So many attempts with a delay after each, with their numbers from `attempt` on, and one more.
  abbrev pub rounds : ℕ → ℕ → List Action
  rounds attempt zero = act ∷ []
  rounds attempt (suc k) = act ∷ sleep (backoff p attempt) ∷ rounds (attempt + 1) k

  -- From an attempt on, the calls are retried up to the attempt `at`, whose reply decides.
  pub record IsDecided (replies : ℕ → R) (attempt : ℕ) (o : Outcome A) : Type κ where
    pub retries : ℕ
    pub at : ℕ
    pub at_eq : at ≡ attempt + retries
    pub allowed : at < p.max_retries
    pub before : (j : ℕ) → attempt ≤ j → j < at → is_retryable (replies j) ≡ true
    pub last : (is_retryable (replies at) ≡ false) ⊎ (at + 1 ≡ p.max_retries)
    pub acts : o.actions ≡ rounds attempt retries
    pub decides : o.result ≡ verdict (replies at)

  -- What a body does with a reply: it retries, or it ends with the verdict.
  abbrev pub Obeys : (ℕ → R → Outcome A → Outcome A) → Type (ℓ ⊔ κ)
  Obeys body =
      (attempt : ℕ) (r : R) (next : Outcome A)
      → ((is_retryable r ≡ true) × (body attempt r next ≡ retried p act attempt (verdict r) next))
        ⊎ ((is_retryable r ≡ false)
            × (body attempt r next ≡ record { actions = act ∷ []; result = verdict r }))

  stops :
      (replies : ℕ → R) (attempt : ℕ) (o : Outcome A)
      → attempt < p.max_retries
      → (is_retryable (replies attempt) ≡ false) ⊎ (attempt + 1 ≡ p.max_retries)
      → o ≡ record { actions = act ∷ []; result = verdict (replies attempt) }
      → IsDecided replies attempt o
  stops replies attempt o h last e = record {
    retries = 0;
    at = attempt;
    at_eq = omega arith;
    allowed = h;
    before = λ j a b. absurd (omega arith);
    last = last;
    acts = ap (λ x. x.actions) e;
    decides = ap (λ x. x.result) e;
  }

  goes_on :
      (replies : ℕ → R) (attempt : ℕ) (o next : Outcome A)
      → is_retryable (replies attempt) ≡ true
      → IsDecided replies (attempt + 1) next
      → o ≡ after_actions (act ∷ sleep (backoff p attempt) ∷ []) next
      → IsDecided replies attempt o
  goes_on replies attempt o next h d e = record {
    retries = suc d.retries;
    at = d.at;
    at_eq = omega (arith, d.at_eq);
    allowed = d.allowed;
    before = λ j a b. elim (eq_or_lt attempt j a) [
      | inl here ↦ ap (λ n. is_retryable (replies n)) (sym here) ∙ h
      | inr beyond ↦ d.before j beyond b
    ];
    last = d.last;
    acts = ap (λ x. x.actions) e ∙ ap (λ xs. act ∷ sleep (backoff p attempt) ∷ xs) d.acts;
    decides = ap (λ x. x.result) e ∙ d.decides;
  }

  again_or_last :
      (attempt : ℕ) (last : A) (next : Outcome A)
      → ((attempt + 1 < p.max_retries)
          × (retried p act attempt last next
              ≡ after_actions (act ∷ sleep (backoff p attempt) ∷ []) next))
        ⊎ ((p.max_retries ≤ attempt + 1)
            × (retried p act attempt last next ≡ record { actions = act ∷ []; result = last }))
  unfolding retried
  again_or_last attempt last next = elim (Bool-cases (ltb attempt (p.max_retries - 1))) [
    | inl more ↦ inl (ground arith, rw (more, retried) refl)
    | inr final ↦ inr (ground arith, rw (final, retried) refl)
  ]

  module _ (body : ℕ → R → Outcome A → Outcome A) (obeys : Obeys body) (otherwise : A)
      (replies : ℕ → R) where
    attempts-IsDecided :
        (left attempt : ℕ)
        → attempt + suc left ≡ p.max_retries
        → IsDecided replies attempt (attempts replies body otherwise attempt (suc left))
    unfolding attempts
    attempts-IsDecided zero attempt h =
        let next = attempts replies body otherwise (attempt + 1) zero in
        elim (obeys attempt (replies attempt) next) [
          | inr (final, e) ↦ stops replies attempt _ (omega arith) (inl final) e
          | inl (retry, e) ↦ elim (again_or_last attempt (verdict (replies attempt)) next) [
            | inl (more, k) ↦ absurd (omega arith)
            | inr (none_, k) ↦ stops replies attempt _ (omega arith) (inr (omega arith)) (e ∙ k)
          ]
        ]
    attempts-IsDecided (suc left) attempt h =
        let next = attempts replies body otherwise (attempt + 1) (suc left) in
        elim (obeys attempt (replies attempt) next) [
          | inr (final, e) ↦ stops replies attempt _ (omega arith) (inl final) e
          | inl (retry, e) ↦ elim (again_or_last attempt (verdict (replies attempt)) next) [
            | inl (more, k) ↦
                goes_on replies attempt _ next retry
                  (attempts-IsDecided left (attempt + 1) (omega arith)) (e ∙ k)
            | inr (none_, k) ↦ absurd (omega arith)
          ]
        ]

    pub loop-IsDecided :
        (n : ℕ)
        → n ≡ p.max_retries
        → 0 < n
        → IsDecided replies 0 (attempts replies body otherwise 0 n)
    loop-IsDecided zero e k = absurd (omega arith)
    loop-IsDecided (suc left) e k = attempts-IsDecided left 0 (omega (arith, e))
