-- ===== src/Base/Assoc.antt =====
-- A Python dict keyed by text, as an association list in insertion order.
use Prim.Native.String.{String}
use mathlib.Core.Path.{◌≡◌, refl}
use mathlib.Core.Logic.{◌≢◌}
use mathlib.Core.Option.{Option, none, some}
use mathlib.Core.List.{List, [], ◌∷◌}
use native.Mathlib.Omega.{arith}
use text.Mathlib.TextEquality.{eq_iff}
use text.Mathlib.TextPositions.{eq_refl}
use llm_inference_autoscalin.Base.Tests.{◌==◌, if◌then◌else◌, ne→neb, Bool-cases}
use mathlib.Core.Logic.{inl, inr}

abbrev pub Dict {ℓ} : Type ℓ → Type ℓ
Dict V = List (String × V)

module _ {ℓ} {V : Type ℓ} where
  -- `d.get(k)`
  unfoldable pub lookup : String → Dict V → Option V
  lookup k [] = none
  lookup k (e ∷ d) = if e.0 == k then some e.1 else lookup k d

  -- `d[k] = v`
  unfoldable pub insert : String → V → Dict V → Dict V
  insert k v [] = (k, v) ∷ []
  insert k v (e ∷ d) = if e.0 == k then (k, v) ∷ d else e ∷ insert k v d

  -- A change of the object that `d[k]` is, if there is one.
  unfoldable pub replace : String → V → Dict V → Dict V
  replace k v [] = []
  replace k v (e ∷ d) = if e.0 == k then (k, v) ∷ d else e ∷ replace k v d

  -- `d.pop(k, None)`
  unfoldable pub erase : String → Dict V → Dict V
  erase k [] = []
  erase k (e ∷ d) = if e.0 == k then erase k d else e ∷ erase k d

  -- `d.get(k, default)`
  abbrev pub lookup_or : String → V → Dict V → V
  lookup_or k v d = elim (lookup k d) [ none ↦ v | some w ↦ w ]

  pub lookup-insert :
      (k j : String) (v : V) (d : Dict V)
      → lookup j (insert k v d) ≡ (if k == j then some v else lookup j d)
  unfolding lookup insert
  lookup-insert k j v [] = refl
  lookup-insert k j v ((i, w) ∷ d) =
      ground (arith, eq_iff k j, eq_iff i k, eq_iff i j, lookup-insert k j v d)

  pub lookup-insert_self : (k : String) (v : V) (d : Dict V) → lookup k (insert k v d) ≡ some v
  lookup-insert_self k v d = simp (lookup-insert, eq_refl)

  pub lookup-insert_ne :
      (k j : String) (v : V) (d : Dict V) → k ≢ j → lookup j (insert k v d) ≡ lookup j d
  lookup-insert_ne k j v d h = simp (lookup-insert, ne→neb k j h)

  pub lookup-replace_self :
      (k : String) (v : V) {w : V} (d : Dict V)
      → lookup k d ≡ some w
      → lookup k (replace k v d) ≡ some v
  unfolding lookup replace
  lookup-replace_self k v [] h = absurd (cc h)
  lookup-replace_self k v ((i, x) ∷ d) h = elim (Bool-cases (i == k)) [
    | inl same ↦ rw (same, replace) (rw (eq_refl k) refl)
    | inr other ↦ rw (other, replace) (rw other (lookup-replace_self k v d (rw other at h)))
  ]

  pub lookup-replace_ne :
      (k j : String) (v : V) (d : Dict V) → k ≢ j → lookup j (replace k v d) ≡ lookup j d
  unfolding lookup replace
  lookup-replace_ne k j v [] h = refl
  lookup-replace_ne k j v ((i, x) ∷ d) h =
      ground (arith, eq_iff k j, eq_iff i k, eq_iff i j, lookup-replace_ne k j v d h)

  pub lookup-erase :
      (k j : String) (d : Dict V) → lookup j (erase k d) ≡ (if k == j then none else lookup j d)
  unfolding lookup erase
  lookup-erase k j [] = ground (arith, eq_iff k j)
  lookup-erase k j ((i, w) ∷ d) =
      ground (arith, eq_iff k j, eq_iff i k, eq_iff i j, lookup-erase k j d)

  pub lookup-erase_self : (k : String) (d : Dict V) → lookup k (erase k d) ≡ none
  lookup-erase_self k d = simp (lookup-erase, eq_refl)

  pub lookup-erase_ne : (k j : String) (d : Dict V) → k ≢ j → lookup j (erase k d) ≡ lookup j d
  lookup-erase_ne k j d h = simp (lookup-erase, ne→neb k j h)
