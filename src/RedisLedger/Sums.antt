-- ===== src/RedisLedger/Sums.antt =====
-- app/cost/redis_ledger.py: sums over the elements of a spend set.
use llm_inference_autoscalin.Base.{
  ℕ, ◌+◌, ◌≤◌, String, ◌≡◌, refl, sym, ap, ◌∙◌, ◌⊎◌, inl, inr, Bool, true, false, Option, none,
  some, List, [], ◌∷◌, arith, ◌==◌, if◌then◌else◌, Bool-cases, filter, sum_by, eq_iff, eq_refl,
  some_inj,
}
use llm_inference_autoscalin.Base.{round_div-near}
use mathlib.Core.Path.{subst}
use llm_inference_autoscalin.Redis.{
  Member, entry, bare, same_amount, same_member, has_id, Scored, drop_member, with_id, members,
  is_above,
}
use llm_inference_autoscalin.RedisLedger.{amount_of, sum_members, written, first_with}
use llm_inference_autoscalin.Base.{round_div-near}
use mathlib.Core.Path.{subst}
use llm_inference_autoscalin.Redis.{
  Member, entry, bare, same_amount, same_member, has_id, Scored, drop_member, with_id, members,
  is_above,
}
use llm_inference_autoscalin.RedisLedger.{amount_of, sum_members, written, first_with}

-- What an element counts towards the spend in the window.
abbrev pub live_amount : ℕ → ℕ → Scored → ℕ
live_amount now window e = if is_above now window e then amount_of e.1 else 0

pub sum_members-members :
    (es : List Scored) → sum_members (members es) ≡ sum_by (λ e. amount_of e.1) es
unfolding sum_members
sum_members-members [] = refl
sum_members-members (e ∷ es) = omega (arith, sum_members-members es)

pub sum_by-filter :
    (now window : ℕ) (es : List Scored) (f : Scored → ℕ)
    → sum_by f (filter (is_above now window) es)
      ≡ sum_by (λ e. if is_above now window e then f e else 0) es
sum_by-filter now window [] f = refl
sum_by-filter now window (e ∷ es) f = elim (Bool-cases (is_above now window e)) [
  | inl above ↦ rw above (omega (arith, sum_by-filter now window es f))
  | inr below ↦ rw below (omega (arith, sum_by-filter now window es f))
]

-- What the same elements count under two weights of which one is never above the other.
pub sum_by_mono :
    (es : List Scored) (f g : Scored → ℕ) → ((e : Scored) → f e ≤ g e) → sum_by f es ≤ sum_by g es
sum_by_mono [] f g h = omega arith
sum_by_mono (e ∷ es) f g h = omega (arith, h e, sum_by_mono es f g h)

-- A sum that looks twice whether an element is above the bound.
pub sum_by-ext :
    (es : List Scored) (f g : Scored → ℕ) → ((e : Scored) → f e ≡ g e) → sum_by f es ≡ sum_by g es
sum_by-ext es f g h = ap (λ k. sum_by k es) (λ i e. h e i)

pub same_amount_refl : (a : Option ℕ) → same_amount a a ≡ true
same_amount_refl none = refl
same_amount_refl (some n) = ground arith

pub same_member_refl : (m : Member) → same_member m m ≡ true
same_member_refl (entry id a) = rw (eq_refl id) (same_amount_refl a)
same_member_refl (bare s) = eq_refl s

pub differ :
    (id : String) (a b : Member)
    → has_id id a ≡ false
    → has_id id b ≡ true
    → same_member a b ≡ false
differ id (entry i x) (entry j y) h k =
    rw (subst (λ z. (i == z) ≡ false) (sym ((eq_iff j id).0 k)) h) refl
differ id (entry i x) (bare t) h k = refl
differ id (bare s) (entry j y) h k = refl
differ id (bare s) (bare t) h k = absurd (cc k)

pub first_with-cons :
    (id : String) (a : Member) (ms : List Member) (m : Member)
    → first_with id (a ∷ ms) ≡ some m
    → ((has_id id a ≡ true) × (a ≡ m)) ⊎ ((has_id id a ≡ false) × (first_with id ms ≡ some m))
unfolding first_with
first_with-cons id a ms m h = by_id (has_id id a) refl h
  where
    by_id :
        (b : Bool)
        → has_id id a ≡ b
        → (if b then some a else first_with id ms) ≡ some m
        → ((has_id id a ≡ true) × (a ≡ m)) ⊎ ((has_id id a ≡ false) × (first_with id ms ≡ some m))
    by_id true e k = inl (e, some_inj k)
    by_id false e k = inr (e, k)

pub first_with-has_id :
    (id : String) (ms : List Member) (m : Member) → first_with id ms ≡ some m → has_id id m ≡ true
unfolding first_with
first_with-has_id id [] m h = absurd (cc h)
first_with-has_id id (a ∷ ms) m h = elim (first_with-cons id a ms m h) [
  | inl (yes_, e) ↦ ap (has_id id) (sym e) ∙ yes_
  | inr (no_, k) ↦ first_with-has_id id ms m k
]

-- Dropping the first member with an id takes that member's count away, whatever counts.
pub sum_by-drop_found :
    (id : String) (es : List Scored) (m : Member)
    → first_with id (members es) ≡ some m
    → (e : Scored) × (has_id id e.1 ≡ true)
      × ((f : Scored → ℕ) → sum_by f (drop_member m es) + f e ≡ sum_by f es)
unfolding first_with
sum_by-drop_found id [] m h = absurd (cc h)
sum_by-drop_found id (e ∷ es) m h = elim (first_with-cons id e.1 (members es) m h) [
  | inl (yes_, same) ↦ (e, yes_, λ f. rw (← same, same_member_refl e.1) (omega arith))
  | inr (no_, k) ↦
      let (x, has, sums) = sum_by-drop_found id es m k in
      (
        x,
        has,
        λ f.
            rw (differ id e.1 m no_ (first_with-has_id id (members es) m k))
              (omega (arith, sums f)),
      )
]

pub first_with-none :
    (id : String) (es : List Scored) → first_with id (members es) ≡ none → with_id id es ≡ 0
unfolding first_with
first_with-none id [] h = refl
first_with-none id (e ∷ es) h = by_id (has_id id e.1) refl h (λ k. first_with-none id es k)
  where
    by_id :
        (b : Bool)
        → has_id id e.1 ≡ b
        → (if b then some e.1 else first_with id (members es)) ≡ none
        → (first_with id (members es) ≡ none → with_id id es ≡ 0)
        → with_id id (e ∷ es) ≡ 0
    by_id true k n ih = absurd (cc n)
    by_id false k n ih = rw k (omega (arith, ih n))

-- Where no member has an id, the members with it count nothing.
pub with_id-zero :
    (id : String) (es : List Scored) (g : Scored → ℕ)
    → with_id id es ≡ 0
    → sum_by (λ e. if has_id id e.1 then g e else 0) es ≡ 0
with_id-zero id [] g h = refl
with_id-zero id (e ∷ es) g h = by_id (has_id id e.1) refl h (λ k. with_id-zero id es g k)
  where
    by_id :
        (b : Bool)
        → has_id id e.1 ≡ b
        → (if b then 1 else 0) + with_id id es ≡ 0
        → (with_id id es ≡ 0 → sum_by (λ x. if has_id id x.1 then g x else 0) es ≡ 0)
        → sum_by (λ x. if has_id id x.1 then g x else 0) (e ∷ es) ≡ 0
    by_id true k n ih = absurd (omega (arith, n))
    by_id false k n ih = rw k (omega (arith, ih (omega (arith, n))))

-- What is written of an amount is within 50 pico-dollars of it.
pub written-near : (amount : ℕ) → (written amount ≤ amount + 50) × (amount ≤ written amount + 50)
unfolding written
written-near amount = omega (arith, round_div-near amount 100 (omega arith))
