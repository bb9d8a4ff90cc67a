-- ===== src/Base/Text.antt =====
-- Text as the list of its characters: slices by the number of characters, as Python takes them.
use Prim.Native.String.{String, [], ◌∷◌, ◌++◌, count}
use Prim.Native.Nat.{ℕ, zero, suc, ◌-◌, ◌≤◌}
use mathlib.Core.Path.{◌≡◌, refl, ap, ◌∙◌}
use native.Mathlib.Omega.{arith}
use package.text.Mathlib.TextLemmas.{nil-append, cons-append, length-cons, length-nil}

-- `text[:n]`
unfoldable pub take_chars : ℕ → String → String
take_chars zero s = []
take_chars (suc n) [] = []
take_chars (suc n) (c ∷ s) = c ∷ take_chars n s

-- `text[n:]`
unfoldable pub drop_chars : ℕ → String → String
drop_chars zero s = s
drop_chars (suc n) [] = []
drop_chars (suc n) (c ∷ s) = drop_chars n s

pub take-append-drop : (n : ℕ) (s : String) → take_chars n s ++ drop_chars n s ≡ s
unfolding take_chars drop_chars
take-append-drop zero s = nil-append s
take-append-drop (suc n) [] = nil-append []
take-append-drop (suc n) (c ∷ s) =
    cons-append c (take_chars n s) (drop_chars n s) ∙ ap (λ t. c ∷ t) (take-append-drop n s)

pub count-drop : (n : ℕ) (s : String) → count (drop_chars n s) ≡ count s - n
unfolding drop_chars
count-drop zero s = omega arith
count-drop (suc n) [] = omega (arith, length-nil)
count-drop (suc n) (c ∷ s) = omega (arith, length-cons c s, count-drop n s)

pub count-take-le : (n : ℕ) (s : String) → count (take_chars n s) ≤ n
unfolding take_chars
count-take-le zero s = omega (arith, length-nil)
count-take-le (suc n) [] = omega (arith, length-nil)
count-take-le (suc n) (c ∷ s) = omega (arith, length-cons c (take_chars n s), count-take-le n s)

pub take_all : (n : ℕ) (s : String) → count s ≤ n → take_chars n s ≡ s
unfolding take_chars
take_all zero [] h = refl
take_all zero (c ∷ s) h = absurd (omega (arith, length-cons c s))
take_all (suc n) [] h = refl
take_all (suc n) (c ∷ s) h = ap (λ t. c ∷ t) (take_all n s (omega (arith, length-cons c s)))

pub count-zero : (s : String) → count s ≡ 0 → s ≡ []
count-zero [] h = refl
count-zero (c ∷ s) h = absurd (omega (arith, length-cons c s))
