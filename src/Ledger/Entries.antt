-- ===== src/Ledger/Entries.antt =====
-- app/cost/memory.py: lists of entries under a rolling window, and the entries of each user.
use llm_inference_autoscalin.Base.{
  ℕ, ◌+◌, ◌≤◌, String, ◌≡◌, refl, ap, ◌≢◌, inl, inr, Bool, true, Option, none, some, List, [], ◌∷◌,
  ◌++◌, arith, eq_iff, ◌==◌, if◌then◌else◌, Bool-cases, filter, lookup-insert_self,
  lookup-insert_ne,
}
use llm_inference_autoscalin.Base.{some_inj}
use llm_inference_autoscalin.Ledger.{Entry, Ledger, entries, put_entries, is_live, total, drop}

-- What counts against a user's budget at a time: the entries inside the window.
unfoldable pub live : Ledger → String → ℕ → ℕ
live l user_id now = total (filter (is_live l.window now) (entries l user_id))

pub entries-put_self :
    (l : Ledger) (k : String) (es : List Entry) → entries (put_entries l k es) k ≡ es
unfolding entries
entries-put_self l k es = ground (arith, lookup-insert_self k es l.spend)

pub entries-put_ne :
    (l : Ledger) (k j : String) (es : List Entry)
    → k ≢ j
    → entries (put_entries l k es) j ≡ entries l j
unfolding entries
entries-put_ne l k j es h = ground (arith, lookup-insert_ne k j es l.spend h)

-- Pruning earlier changes nothing that is live later.
pub filter-filter :
    (window now later : ℕ) (es : List Entry)
    → now ≤ later
    → filter (is_live window later) (filter (is_live window now) es)
      ≡ filter (is_live window later) es
filter-filter window now later [] h = refl
filter-filter window now later (e ∷ es) h = ground (arith, filter-filter window now later es h)

pub filter-append :
    (p : Entry → Bool) (xs ys : List Entry) → filter p (xs ++ ys) ≡ filter p xs ++ filter p ys
filter-append p [] ys = refl
filter-append p (x ∷ xs) ys = ground (arith, filter-append p xs ys)

-- The first entry with the id.
unfoldable pub find : String → List Entry → Option Entry
find id [] = none
find id (e ∷ es) = if e.id == id then some e else find id es

pub drop-absent : (id : String) (es : List Entry) → find id es ≡ none → drop id es ≡ es
unfolding find drop
drop-absent id [] h = refl
drop-absent id (e ∷ es) h = ground (arith, drop-absent id es)

pub drop-append_absent :
    (id : String) (es : List Entry) (e : Entry)
    → find id es ≡ none
    → e.id ≡ id
    → drop id (es ++ e ∷ []) ≡ es
unfolding find drop
drop-append_absent id [] e h k = ground (arith, eq_iff e.id id)
drop-append_absent id (x ∷ es) e h k = ground (arith, drop-append_absent id es e)

-- Dropping a live entry lowers the live total by its amount.
pub total-drop :
    (p : Entry → Bool) (id : String) (es : List Entry) (e : Entry)
    → find id es ≡ some e
    → p e ≡ true
    → total (filter p (drop id es)) + e.amount ≡ total (filter p es)
unfolding find drop
total-drop p id [] e h k = absurd (cc)
total-drop p id (x ∷ es) e h k = elim (Bool-cases (x.id == id)) [
  | inl same ↦
      let found : x ≡ e = some_inj (rw same at h) in
      let px : p x ≡ true = rw found k in
      rw same (rw (px, total) (omega (arith, ap (λ (y : Entry). y.amount) found)))
  | inr other ↦ let ih = total-drop p id es e (rw other at h) k in rw other (ground (arith, ih))
]

-- Dropping never raises the live total.
pub total-drop-le :
    (p : Entry → Bool) (id : String) (es : List Entry)
    → total (filter p (drop id es)) ≤ total (filter p es)
unfolding drop
total-drop-le p id [] = omega arith
total-drop-le p id (x ∷ es) = ground (arith, total-drop-le p id es)

-- Time only lowers what is live.
pub total-later :
    (window now later : ℕ) (es : List Entry)
    → now ≤ later
    → total (filter (is_live window later) es) ≤ total (filter (is_live window now) es)
total-later window now later [] h = omega arith
total-later window now later (e ∷ es) h = ground (arith, total-later window now later es h)

-- A new entry counts in full.
pub total-hold :
    (window now amount : ℕ) (id : String) (es : List Entry)
    → total (filter (is_live window now) (es ++ record { at = now; amount = amount; id = id } ∷ []))
      ≡ total (filter (is_live window now) es) + amount
total-hold window now amount id [] = ground arith
total-hold window now amount id (e ∷ es) = ground (arith, total-hold window now amount id es)

pub find-filter :
    (p : Entry → Bool) (id : String) (es : List Entry)
    → find id es ≡ none
    → find id (filter p es) ≡ none
unfolding find
find-filter p id [] h = refl
find-filter p id (e ∷ es) h = ground (arith, find-filter p id es)

pub find-append_absent :
    (id : String) (es : List Entry) (e : Entry)
    → find id es ≡ none
    → e.id ≡ id
    → find id (es ++ e ∷ []) ≡ some e
unfolding find
find-append_absent id [] e h k = ground (arith, eq_iff e.id id)
find-append_absent id (x ∷ es) e h k = ground (arith, find-append_absent id es e)

pub live-later : (l : Ledger) (u : String) (now t : ℕ) → now ≤ t → live l u t ≤ live l u now
unfolding live
live-later l u now t h = total-later l.window now t (entries l u) h
