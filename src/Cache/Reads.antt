-- ===== src/Cache/Reads.antt =====
-- app/cache.py: what a read returns after reads and writes.
use llm_inference_autoscalin.Base.{
  ℕ, suc, ◌+◌, ◌-◌, ◌≤◌, ◌<◌, String, ◌≡◌, refl, sym, ap, ◌∙◌, ◌≢◌, ◌⊎◌, inl, inr, Option, none,
  some, [], ◌∷◌, arith, eq_iff, eq_refl, ltb, leb, ◌==◌, if◌then◌else◌, lt→not_leb, ne→neb,
  Bool-cases, Option-cases, length, Dict, lookup, erase, lookup-erase_self, lookup-erase_ne,
}
use llm_inference_autoscalin.Cache.{CacheEntry, Slot, InMemoryCache, touch, get, evict, set}
use llm_inference_autoscalin.Cache.Lru.{
  IsDistinct, IsDistinct-erase, IsValid, evict-append, lookup-append, IsDistinct-touch,
}

-- What a read at a time returns.
abbrev pub answer : InMemoryCache → String → ℕ → Option CacheEntry
answer c key now = (get c key now).1

-- A slot, if it is there and has not expired.
unfoldable pub fresh : Option Slot → ℕ → Option CacheEntry
fresh none now = none
fresh (some (e, expires_at)) now = if leb expires_at now then none else some e

answer-fresh :
    (c : InMemoryCache) (key : String) (now : ℕ) → answer c key now ≡ fresh (lookup key c.items) now
unfolding get fresh
answer-fresh c key now = ground arith

lookup-touch_self : (k : String) (s : Slot) (es : Dict Slot) → lookup k (touch k s es) ≡ some s
lookup-touch_self k s es =
    lookup-append k (erase k es) (k, s) ∙ rw (lookup-erase_self k es) (rw (eq_refl k))

lookup-touch_ne :
    (k j : String) (s : Slot) (es : Dict Slot) → k ≢ j → lookup j (touch k s es) ≡ lookup j es
lookup-touch_ne k j s es h =
    ground (arith, lookup-append j (erase k es) (k, s), lookup-erase_ne k j es h, ne→neb k j h)

gone :
    (n : ℕ) (k : String) (es : Dict Slot)
    → lookup k es ≡ none
    → (lookup k (evict n es) ≡ lookup k es) ⊎ (lookup k (evict n es) ≡ none)
    → lookup k (evict n es) ≡ none
gone n k es h (inl e) = e ∙ h
gone n k es h (inr e) = e

-- Eviction loses whole slots and changes none.
lookup-evict :
    (n : ℕ) (k : String) (es : Dict Slot)
    → IsDistinct es
    → (lookup k (evict n es) ≡ lookup k es) ⊎ (lookup k (evict n es) ≡ none)
unfolding evict lookup
lookup-evict n k [] h = inl refl
lookup-evict n k (e ∷ es) h = elim (Bool-cases (ltb n (length (e ∷ es)))) [
  | inr fits ↦ rw fits (inl refl)
  | inl more ↦ elim (Bool-cases (e.0 == k)) [
    | inl same ↦
        rw more (inr (gone n k es (rw (← (eq_iff e.0 k).0 same) h.0) (lookup-evict n k es h.1)))
    | inr other ↦ rw more (rw other (lookup-evict n k es h.1))
  ]
]

lookup-set_self :
    (c : InMemoryCache) (key : String) (e : CacheEntry) (ttl now : ℕ)
    → IsValid c
    → 0 < ttl
    → lookup key (set c key e ttl now).items ≡ some (e, now + ttl)
unfolding set
lookup-set_self c key e ttl now v p =
    let n = c.max_entries - 1 in
    let room : c.max_entries ≡ suc n = omega arith in
    let kept = erase key c.items in
    rw (lt→not_leb ttl 0 p) (
      ap (λ m. lookup key (evict m (touch key (e, now + ttl) c.items))) room
      ∙ ap (lookup key) (evict-append n kept (key, (e, now + ttl)))
      ∙ lookup-append key (evict n kept) (key, (e, now + ttl))
      ∙ rw
          (gone n key kept (lookup-erase_self key c.items)
            (lookup-evict n key kept (IsDistinct-erase key c.items v.distinct)))
          (rw (eq_refl key)))

lookup-set_ne :
    (c : InMemoryCache) (key other : String) (e : CacheEntry) (ttl now : ℕ)
    → IsValid c
    → key ≢ other
    → (lookup other (set c key e ttl now).items ≡ lookup other c.items)
      ⊎ (lookup other (set c key e ttl now).items ≡ none)
unfolding set
lookup-set_ne c key other e ttl now v h = elim (Bool-cases (leb ttl 0)) [
  | inl never ↦ rw never (inl refl)
  | inr store ↦ rw store (
      rw (← lookup-touch_ne key other (e, now + ttl) c.items h) (
        lookup-evict c.max_entries other (touch key (e, now + ttl) c.items)
          (IsDistinct-touch key (e, now + ttl) c.items v.distinct)))
]

-- A read right after a write, and until the entry expires, returns what was written.
pub answer-set_self :
    (c : InMemoryCache) (key : String) (e : CacheEntry) (ttl now t : ℕ)
    → IsValid c
    → 0 < ttl
    → t < now + ttl
    → answer (set c key e ttl now) key t ≡ some e
answer-set_self c key e ttl now t v p q =
    answer-fresh (set c key e ttl now) key t
    ∙ rw (lookup-set_self c key e ttl now v p) (unfold fresh in ground arith)

-- A write to a valid cache changes the answer for another key at most to a miss.
pub answer-set_ne :
    (c : InMemoryCache) (key other : String) (e : CacheEntry) (ttl now t : ℕ)
    → IsValid c
    → key ≢ other
    → (answer (set c key e ttl now) other t ≡ answer c other t)
      ⊎ (answer (set c key e ttl now) other t ≡ none)
answer-set_ne c key other e ttl now t v h =
    rw (answer-fresh (set c key e ttl now) other t)
      (rw (answer-fresh c other t) (fresh-or t (lookup-set_ne c key other e ttl now v h)))
  where
    fresh-or :
        {a b : Option Slot} (t : ℕ)
        → (a ≡ b) ⊎ (a ≡ none)
        → (fresh a t ≡ fresh b t) ⊎ (fresh a t ≡ none)
    fresh-or t (inl p) = inl (ap (λ o. fresh o t) p)
    fresh-or t (inr p) = inr (ap (λ o. fresh o t) p ∙ unfold fresh in refl)

lookup-get_ne :
    (c : InMemoryCache) (key other : String) (now : ℕ)
    → key ≢ other
    → lookup other (get c key now).0.items ≡ lookup other c.items
unfolding get
lookup-get_ne c key other now h = elim (Option-cases (lookup key c.items)) [
  | inl missing ↦ rw (missing, get)
  | inr (s, found) ↦ elim (Bool-cases (leb s.1 now)) [
    | inl stale ↦ rw (found, get) (rw (stale, get) (lookup-erase_ne key other c.items h))
    | inr live ↦ rw (found, get) (rw (live, get) (lookup-touch_ne key other s c.items h))
  ]
]

fresh-get_self :
    (c : InMemoryCache) (key : String) (now t : ℕ)
    → now ≤ t
    → fresh (lookup key (get c key now).0.items) t ≡ fresh (lookup key c.items) t
unfolding get
fresh-get_self c key now t h = elim (Option-cases (lookup key c.items)) [
  | inl missing ↦ rw (missing, get) (rw missing)
  | inr (s, found) ↦ elim (Bool-cases (leb s.1 now)) [
    | inl stale ↦
        rw (found, get)
          (rw (stale, get) (rw (lookup-erase_self key c.items) (unfold fresh in ground arith)))
    | inr live ↦
        rw (found, get) (rw (live, get) (ap (λ o. fresh o t) (lookup-touch_self key s c.items)))
  ]
]

-- A read changes no answer, for its own key or another, from its time on: a hit only moves the
-- entry, and what an expired read deletes would be a miss for good.
pub answer-get :
    (c : InMemoryCache) (key other : String) (now t : ℕ)
    → now ≤ t
    → answer (get c key now).0 other t ≡ answer c other t
answer-get c key other now t h =
    answer-fresh (get c key now).0 other t
    ∙ elim (Bool-cases (key == other)) [
      | inl same ↦ rw (← (eq_iff key other).0 same) (fresh-get_self c key now t h)
      | inr different ↦
          ap (λ o. fresh o t)
            (lookup-get_ne c key other now (λ e. ground (arith, eq_iff key other)))
    ]
    ∙ sym (answer-fresh c other t)

-- Each read counts as exactly one hit or one miss, a hit when it returns an entry.
pub get-counts :
    (c : InMemoryCache) (key : String) (now : ℕ)
    → let hit : ℕ = elim (answer c key now) [ none ↦ 0 | some _ ↦ 1 ] in
      ((get c key now).0.hits ≡ c.hits + hit)
      × ((get c key now).0.hits + (get c key now).0.misses ≡ c.hits + c.misses + 1)
unfolding get
get-counts c key now = ground arith
