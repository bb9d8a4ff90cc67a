-- ===== src/Base/Round.antt =====
-- Division as Python's `round`, `math.ceil` and `int` take it, on exact quotients `a / b`.
use native.Mathlib.Nat.{div-add-mod, mod-lt, add-mul, mul-le-mul_right}
use native.Mathlib.Omega.{arith}
use mathlib.Core.Logic.{inl, inr}
use mathlib.Core.Path.{◌≡◌, ap, ◌∙◌}
use mathlib.Core.Bool.{Bool, true, false}
use Prim.Native.Nat.{ℕ, zero, suc, ◌+◌, ◌*◌, ◌/◌, ◌%◌, ◌≤◌, ◌<◌}
use llm_inference_autoscalin.Base.Tests.{ltb, lt→ltb, eqb, eqb→eq, Bool-cases, if◌then◌else◌}

-- `round(a / b)`: to the nearest integer, a tie to the even one.
unfoldable pub round_div : ℕ → ℕ → ℕ
round_div a b =
    if ltb (2 * (a % b)) b
    then a / b
    else if ltb b (2 * (a % b))
    then a / b + 1
    else if eqb ((a / b) % 2) 0
    then a / b
    else a / b + 1

-- `math.ceil(a / b)`
unfoldable pub ceil_div : ℕ → ℕ → ℕ
ceil_div a b = if eqb (a % b) 0 then a / b else a / b + 1

-- `math.ceil(a / b)` is the least `n` with `a <= n * b`.
pub ceil_div-covers : (a b : ℕ) → 0 < b → a ≤ ceil_div a b * b
unfolding ceil_div
ceil_div-covers a b p = elim (Bool-cases (eqb (a % b) 0)) [
  | inl whole ↦ rw whole (omega (arith, div-add-mod a b, eqb→eq (a % b) 0 whole))
  | inr part ↦ rw part (omega (arith, div-add-mod a b, mod-lt a p, add-mul (a / b) 1 b))
]

le_of_not-lt : (q n : ℕ) → (n < q → ⊥) → q ≤ n
le_of_not-lt q n h = omega arith

ne0→pos : (n : ℕ) → eqb n 0 ≡ false → 0 < n
ne0→pos n h = ground arith

over : (a b n q : ℕ) → 0 < b → a ≤ n * b → q * b ≤ a → n < q → ⊥
over a b n q p h k lt = omega (arith, mul-le-mul_right b lt, add-mul n 1 b)

pub ceil_div-least : (a b n : ℕ) → 0 < b → a ≤ n * b → ceil_div a b ≤ n
unfolding ceil_div
ceil_div-least a b n p h = elim (Bool-cases (eqb (a % b) 0)) [
  | inl whole ↦
      rw whole
        (le_of_not-lt (a / b) n (λ lt. over a b n (a / b) p h (omega (arith, div-add-mod a b)) lt))
  | inr part ↦
      let pos : 0 < a % b = ne0→pos (a % b) part in
      rw part (
        le_of_not-lt (a / b + 1) n (λ lt.
          let k : n ≤ a / b = omega arith in omega (arith, mul-le-mul_right b k, div-add-mod a b)))
]

-- `round(a / b)` is within a half of `a / b`.
pub round_div-near :
    (a b : ℕ)
    → 0 < b
    → (2 * a ≤ 2 * (round_div a b * b) + b) × (2 * (round_div a b * b) ≤ 2 * a + b)
unfolding round_div
round_div-near a b p = ground (arith, div-add-mod a b, mod-lt a p, add-mul (a / b) 1 b)

-- The unit of the last digit of a number that is written with 14 digits, from a unit on.
unfoldable pub unit_from : ℕ → ℕ → ℕ → ℕ
unit_from zero n p = p
unit_from (suc fuel) n p = elim (ltb n (100000000000000 * p)) [
  | true ↦ p
  | false ↦ unit_from fuel n (10 * p)
]

-- What Lua's `tostring` keeps of a number, as `%.14g` does: its first 14 significant digits, of a
-- number in a decimal unit. No float has more than 309 digits before the point.
unfoldable pub lua_number : ℕ → ℕ
lua_number n = let p = unit_from 309 n 1 in round_div n p * p

unit_from-one : (n : ℕ) → n < 100000000000000 → unit_from 309 n 1 ≡ 1
unfolding unit_from
unit_from-one n h =
    ap (λ (b : Bool). elim b [ true ↦ 1 | false ↦ unit_from 308 n 10 ]) (lt→ltb n 100000000000000 h)

round_div-one : (n : ℕ) → round_div n 1 * 1 ≡ n
unfolding round_div
round_div-one n = let p : 0 < 1 = omega arith in ground (arith, div-add-mod n 1, mod-lt n p)

pub lua_number-exact : (n : ℕ) → n < 100000000000000 → lua_number n ≡ n
unfolding lua_number
lua_number-exact n h = ap (λ p. round_div n p * p) (unit_from-one n h) ∙ round_div-one n
