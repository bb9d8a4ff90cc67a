-- ===== src/Router/Sort.antt =====
-- app/router.py: `sorted` by the price of a nominal call, as a stable insertion sort.
use llm_inference_autoscalin.Base.{
  ℕ, ◌≤◌, ◌≡◌, inl, inr, true, false, List, [], ◌∷◌, arith, leb, if◌then◌else◌, leb→le, Bool-cases,
  All,
}
use mathlib.Core.Path.{subst}
use llm_inference_autoscalin.Config.{ModelSpec, cost}

-- `m.cost(1000, 1000)`
unfoldable pub nominal : ModelSpec → ℕ
nominal m = cost m 1000 1000

unfoldable pub insert_by_price : ModelSpec → List ModelSpec → List ModelSpec
insert_by_price m [] = m ∷ []
insert_by_price m (n ∷ ns) =
    if leb (nominal m) (nominal n) then m ∷ n ∷ ns else n ∷ insert_by_price m ns

unfoldable pub sort_by_price : List ModelSpec → List ModelSpec
sort_by_price [] = []
sort_by_price (m ∷ ms) = insert_by_price m (sort_by_price ms)

-- Each model is at most as dear as all after it.
abbrev pub IsSorted : List ModelSpec → Type 0
IsSorted [] = Unit
IsSorted (m ∷ ms) = All (λ n. nominal m ≤ nominal n) ms × IsSorted ms

All-insert :
    (P : ModelSpec → Type 0) (m : ModelSpec) (ms : List ModelSpec)
    → P m
    → All P ms
    → All P (insert_by_price m ms)
unfolding insert_by_price
All-insert P m [] p h = (p, tt)
All-insert P m (n ∷ ns) p h = elim (Bool-cases (leb (nominal m) (nominal n))) [
  | inl le ↦ rw le (p, h)
  | inr gt ↦ rw gt (h.0, All-insert P m ns p h.1)
]

pub All-sort : (P : ModelSpec → Type 0) (ms : List ModelSpec) → All P ms → All P (sort_by_price ms)
unfolding sort_by_price
All-sort P [] h = tt
All-sort P (m ∷ ms) h = All-insert P m (sort_by_price ms) h.0 (All-sort P ms h.1)

insert-le :
    (m n : ModelSpec) (ns : List ModelSpec)
    → leb (nominal m) (nominal n) ≡ true
    → insert_by_price m (n ∷ ns) ≡ m ∷ n ∷ ns
unfolding insert_by_price
insert-le m n ns e = rw e

insert-gt :
    (m n : ModelSpec) (ns : List ModelSpec)
    → leb (nominal m) (nominal n) ≡ false
    → insert_by_price m (n ∷ ns) ≡ n ∷ insert_by_price m ns
unfolding insert_by_price
insert-gt m n ns e = rw e

All-insert_inv :
    (P : ModelSpec → Type 0) (m : ModelSpec) (ms : List ModelSpec)
    → All P (insert_by_price m ms)
    → P m × All P ms
unfolding insert_by_price
All-insert_inv P m [] h = (h.0, tt)
All-insert_inv P m (n ∷ ns) h = elim (Bool-cases (leb (nominal m) (nominal n))) [
  | inl le ↦ let k = subst (All P) (insert-le m n ns le) h in (k.0, k.1)
  | inr gt ↦
      let k = subst (All P) (insert-gt m n ns gt) h in
      let (p, rest) = All-insert_inv P m ns k.1 in (p, (k.0, rest))
]

pub All-sort_inv :
    (P : ModelSpec → Type 0) (ms : List ModelSpec) → All P (sort_by_price ms) → All P ms
unfolding sort_by_price
All-sort_inv P [] h = tt
All-sort_inv P (m ∷ ms) h =
    let (p, rest) = All-insert_inv P m (sort_by_price ms) h in (p, All-sort_inv P ms rest)

All-weaken :
    (a b : ℕ) (ms : List ModelSpec)
    → a ≤ b
    → All (λ n. b ≤ nominal n) ms
    → All (λ n. a ≤ nominal n) ms
All-weaken a b [] h k = tt
All-weaken a b (m ∷ ms) h k = (omega (arith, h, k.0), All-weaken a b ms h k.1)

insert-IsSorted :
    (m : ModelSpec) (ms : List ModelSpec) → IsSorted ms → IsSorted (insert_by_price m ms)
unfolding insert_by_price
insert-IsSorted m [] h = (tt, tt)
insert-IsSorted m (n ∷ ns) h = elim (Bool-cases (leb (nominal m) (nominal n))) [
  | inl le ↦
      let k = leb→le (nominal m) (nominal n) le in
      rw le ((k, All-weaken (nominal m) (nominal n) ns k h.0), h)
  | inr gt ↦
      rw gt
        (All-insert (λ x. nominal n ≤ nominal x) m ns (ground arith) h.0, insert-IsSorted m ns h.1)
]

pub sort-IsSorted : (ms : List ModelSpec) → IsSorted (sort_by_price ms)
unfolding sort_by_price
sort-IsSorted [] = tt
sort-IsSorted (m ∷ ms) = insert-IsSorted m (sort_by_price ms) (sort-IsSorted ms)
