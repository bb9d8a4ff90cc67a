-- ===== src/Base/Lists.antt =====
-- Lists measured by native numbers, predicates by recursion, and sums.
use Prim.Native.Nat.{ℕ, suc, ◌+◌, ◌≤◌}
use mathlib.Core.Path.{◌≡◌, refl, sym, ap, subst}
use mathlib.Core.Bool.{true, false}
use mathlib.Core.Bool.{Bool}
use mathlib.Core.Logic.{◌⊎◌, inl, inr}
use mathlib.Core.List.{List, [], ◌∷◌, ◌++◌}
use native.Mathlib.Omega.{arith}
use llm_inference_autoscalin.Base.Tests.{if◌then◌else◌, Bool-cases}

module _ {ℓ} {A : Type ℓ} where
  abbrev pub length : List A → ℕ
  length [] = 0
  length (x ∷ xs) = suc (length xs)

  -- The comprehension `[x for x in xs if p(x)]`.
  abbrev pub filter : (A → Bool) → List A → List A
  filter p [] = []
  filter p (x ∷ xs) = if p x then x ∷ filter p xs else filter p xs

  abbrev pub sum_by : (A → ℕ) → List A → ℕ
  sum_by f [] = 0
  sum_by f (x ∷ xs) = f x + sum_by f xs

  pub append_nil : (xs : List A) → xs ++ [] ≡ xs
  append_nil [] = refl
  append_nil (x ∷ xs) = ap (λ ys. x ∷ ys) (append_nil xs)

  pub append_assoc : (xs ys zs : List A) → (xs ++ ys) ++ zs ≡ xs ++ (ys ++ zs)
  append_assoc [] ys zs = refl
  append_assoc (x ∷ xs) ys zs = ap (λ ws. x ∷ ws) (append_assoc xs ys zs)

  pub length-append : (xs ys : List A) → length (xs ++ ys) ≡ length xs + length ys
  length-append [] ys = omega arith
  length-append (x ∷ xs) ys = omega (arith, length-append xs ys)

  pub sum_by-append : (f : A → ℕ) (xs ys : List A) → sum_by f (xs ++ ys) ≡ sum_by f xs + sum_by f ys
  sum_by-append f [] ys = omega arith
  sum_by-append f (x ∷ xs) ys = omega (arith, sum_by-append f xs ys)

  pub length-filter-le : (p : A → Bool) (xs : List A) → length (filter p xs) ≤ length xs
  length-filter-le p [] = omega arith
  length-filter-le p (x ∷ xs) = ground (arith, length-filter-le p xs)

-- `P` holds of each element.
abbrev pub All {ℓ κ} : {A : Type ℓ} → (A → Type κ) → List A → Type κ
All P [] = Unit
All P (x ∷ xs) = P x × All P xs

-- `x` is an element.
abbrev pub In : {A : Type 0} → A → List A → Type 0
In x [] = ⊥
In x (y ∷ ys) = (x ≡ y) ⊎ In x ys

module _ {A : Type 0} (P : A → Type 0) where
  pub All-of_In : (xs : List A) → ((x : A) → In x xs → P x) → All P xs
  All-of_In [] h = tt
  All-of_In (x ∷ xs) h = (h x (inl refl), All-of_In xs (λ y k. h y (inr k)))

  pub In-All : (xs : List A) (x : A) → All P xs → In x xs → P x
  In-All [] x h k = absurd k
  In-All (y ∷ ys) x h (inl e) = subst P (sym e) h.0
  In-All (y ∷ ys) x h (inr k) = In-All ys x h.1 k

  -- What passes a filter has passed its test.
  pub All-filter :
      (t : A → Bool) (xs : List A) → All P xs → All (λ x. P x × (t x ≡ true)) (filter t xs)
  All-filter t [] h = tt
  All-filter t (x ∷ xs) h = elim (Bool-cases (t x)) [
    | inl passes ↦ rw passes ((h.0, passes), All-filter t xs h.1)
    | inr fails ↦ rw fails (All-filter t xs h.1)
  ]

pub All-map :
    {A : Type 0} (P Q : A → Type 0) (xs : List A) → ((x : A) → P x → Q x) → All P xs → All Q xs
All-map P Q [] f h = tt
All-map P Q (x ∷ xs) f h = (f x h.0, All-map P Q xs f h.1)

filter-pass :
    {A : Type 0} (t : A → Bool) (x : A) (xs : List A)
    → t x ≡ true
    → filter t (x ∷ xs) ≡ x ∷ filter t xs
filter-pass t x xs e = rw e

filter-fail :
    {A : Type 0} (t : A → Bool) (x : A) (xs : List A)
    → t x ≡ false
    → filter t (x ∷ xs) ≡ filter t xs
filter-fail t x xs e = rw e

-- An element fails the filter's test or has what holds of all that pass.
pub All-filter_inv :
    {A : Type 0} (Q : A → Type 0) (t : A → Bool) (xs : List A)
    → All Q (filter t xs)
    → All (λ x. (t x ≡ false) ⊎ Q x) xs
All-filter_inv Q t [] h = tt
All-filter_inv Q t (x ∷ xs) h = elim (Bool-cases (t x)) [
  | inl passes ↦
      let k = subst (All Q) (filter-pass t x xs passes) h in (inr k.0, All-filter_inv Q t xs k.1)
  | inr fails ↦ (inl fails, All-filter_inv Q t xs (subst (All Q) (filter-fail t x xs fails) h))
]
