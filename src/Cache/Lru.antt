-- ===== src/Cache/Lru.antt =====
-- app/cache.py: the bound, the order of eviction and the uniqueness of keys.
use llm_inference_autoscalin.Base.{
  ℕ, suc, ◌+◌, ◌≤◌, ◌<◌, String, ◌≡◌, refl, inl, inr, false, none, some, [], ◌∷◌, ◌++◌, arith,
  eq_iff, ltb, leb, ◌==◌, if◌then◌else◌, Bool-cases, Option-cases, length, length-append, Dict,
  lookup, erase, lookup-erase_self, lookup-erase_ne,
}
use llm_inference_autoscalin.Cache.{CacheEntry, Slot, InMemoryCache, init, touch, get, evict, set}

-- No key is listed twice.
abbrev pub IsDistinct : Dict Slot → Type 0
IsDistinct [] = Unit
IsDistinct (e ∷ es) = (lookup e.0 es ≡ none) × IsDistinct es

pub record IsValid (c : InMemoryCache) : Type 0 where
  pub positive : 1 ≤ c.max_entries
  pub bounded : length c.items ≤ c.max_entries
  pub distinct : IsDistinct c.items

pub length-evict : (n : ℕ) (es : Dict Slot) → length (evict n es) ≤ n
unfolding evict
length-evict n [] = omega arith
length-evict n (e ∷ es) = ground (arith, length-evict n es)

evict-le : (n : ℕ) (es : Dict Slot) → length es ≤ n → evict n es ≡ es
unfolding evict
evict-le n [] h = refl
evict-le n (e ∷ es) h = ground arith

-- The newest entry stays, and what is evicted is the oldest of the others.
pub evict-append :
    (n : ℕ) (es : Dict Slot) (e : String × Slot)
    → evict (suc n) (es ++ e ∷ []) ≡ evict n es ++ e ∷ []
unfolding evict
evict-append n [] e = ground arith
evict-append n (x ∷ es) e = ground (arith, evict-append n es e, length-append es (e ∷ []))

IsDistinct-evict : (n : ℕ) (es : Dict Slot) → IsDistinct es → IsDistinct (evict n es)
unfolding evict
IsDistinct-evict n [] h = tt
IsDistinct-evict n (e ∷ es) h = elim (Bool-cases (ltb n (length (e ∷ es)))) [
  | inl more ↦ rw more (IsDistinct-evict n es h.1)
  | inr fits ↦ rw fits h
]

pub lookup-append :
    (k : String) (es : Dict Slot) (e : String × Slot)
    → lookup k (es ++ e ∷ [])
      ≡ elim (lookup k es) [ some v ↦ some v | none ↦ if e.0 == k then some e.1 else none ]
unfolding lookup
lookup-append k [] e = refl
lookup-append k (x ∷ es) e = ground (arith, lookup-append k es e)

pub IsDistinct-erase : (k : String) (es : Dict Slot) → IsDistinct es → IsDistinct (erase k es)
unfolding erase
IsDistinct-erase k [] h = tt
IsDistinct-erase k (e ∷ es) h = elim (Bool-cases (e.0 == k)) [
  | inl same ↦ rw same (IsDistinct-erase k es h.1)
  | inr other ↦ rw other (
    rw (lookup-erase_ne k e.0 es (λ p. ground (arith, eq_iff e.0 k))) h.0,
    IsDistinct-erase k es h.1,
  )
]

IsDistinct-append :
    (es : Dict Slot) (e : String × Slot)
    → IsDistinct es
    → lookup e.0 es ≡ none
    → IsDistinct (es ++ e ∷ [])
unfolding lookup
IsDistinct-append [] e h k = (refl, tt)
IsDistinct-append (x ∷ es) e h k = elim (Bool-cases (x.0 == e.0)) [
  | inl same ↦ absurd (cc (rw same at k))
  | inr other ↦
      let back : (e.0 == x.0) ≡ false = ground (arith, eq_iff e.0 x.0, eq_iff x.0 e.0) in
      (
        ground (arith, lookup-append x.0 es e, h.0, back),
        IsDistinct-append es e h.1 (rw other at k),
      )
]

pub IsDistinct-touch :
    (k : String) (s : Slot) (es : Dict Slot) → IsDistinct es → IsDistinct (touch k s es)
IsDistinct-touch k s es h =
    IsDistinct-append (erase k es) (k, s) (IsDistinct-erase k es h) (lookup-erase_self k es)

length-erase : (k : String) (es : Dict Slot) → length (erase k es) ≤ length es
unfolding erase
length-erase k [] = omega arith
length-erase k (e ∷ es) = ground (arith, length-erase k es)

length-erase_found :
    (k : String) (es : Dict Slot) {s : Slot}
    → lookup k es ≡ some s
    → length (erase k es) < length es
unfolding erase lookup
length-erase_found k [] h = absurd (cc)
length-erase_found k (e ∷ es) {s} h =
    ground (arith, length-erase k es, length-erase_found k es {s = s})

pub init-IsValid : (n : ℕ) → IsValid (init n)
unfolding init
init-IsValid n = ground arith

-- `set` keeps a valid cache valid: never more entries than the bound, never a key twice.
pub set-IsValid :
    (c : InMemoryCache) (key : String) (e : CacheEntry) (ttl now : ℕ)
    → IsValid c
    → IsValid (set c key e ttl now)
unfolding set
set-IsValid c key e ttl now v = elim (Bool-cases (leb ttl 0)) [
  | inl never ↦ rw never v
  | inr store ↦ rw store (record {
    positive = v.positive;
    bounded = length-evict c.max_entries _;
    distinct =
        IsDistinct-evict c.max_entries _ (IsDistinct-touch key (e, now + ttl) c.items v.distinct);
  })
]

pub get-IsValid :
    (c : InMemoryCache) (key : String) (now : ℕ) → IsValid c → IsValid (get c key now).0
unfolding get
get-IsValid c key now v = elim (Option-cases (lookup key c.items)) [
  | inl missing ↦
      rw (missing, get)
        (record { positive = v.positive; bounded = v.bounded; distinct = v.distinct })
  | inr (s, found) ↦ elim (Bool-cases (leb s.1 now)) [
    | inl stale ↦
        rw (found, get)
          (rw (stale, get)
            (record {
              positive = v.positive;
              bounded = omega (arith, length-erase key c.items, v.bounded);
              distinct = IsDistinct-erase key c.items v.distinct;
            }))
    | inr fresh ↦
        rw (found, get)
          (rw (fresh, get)
            (record {
              positive = v.positive;
              bounded = omega (
                arith,
                length-append (erase key c.items) ((key, s) ∷ []),
                length-erase_found key c.items found,
                v.bounded,
              );
              distinct = IsDistinct-touch key s c.items v.distinct;
            }))
  ]
]
