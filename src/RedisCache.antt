-- ===== src/RedisCache.antt =====
-- app/cache.py: the response cache that all replicas share. The server's two commands, and how JSON
-- writes and reads an entry, are parameters.
use Prim.Native.String.{◌++◌ as ◌<>◌}
use package.text.Mathlib.TextLemmas.{append_cancel_left}
use llm_inference_autoscalin.Base.{
  ℕ, ◌+◌, ◌/◌, ◌<◌, max, String, ◌≡◌, refl, ap, ◌∙◌, ◌≢◌, ◌⊎◌, inl, inr, Bool, true, false, Option,
  none, some, arith, leb, ◌==◌, if◌then◌else◌, Bool-cases, eq_iff,
}
use llm_inference_autoscalin.Cache.{CacheEntry}

-- `get` and `set(…, ex=…)`. A key's expiry is not modelled: an expired key is one that is missing.
pub record Store : Type 1 where
  pub State : Type 0
  pub get : State → String → Option String
  pub set : State → String → String → ℕ → State

-- `json.dumps(asdict(entry))`, and `CacheEntry(**json.loads(raw))`, where `none` is one of the
-- exceptions that the code catches.
pub record EntryCodec : Type 0 where
  pub dumps : CacheEntry → String
  pub loads : String → Option CacheEntry

pub record IsLawful (S : Store) : Type 0 where
  pub get-set : (s : S.State) (k v : String) (ex : ℕ) → S.get (S.set s k v ex) k ≡ some v
  pub get-set_ne :
      (s : S.State) (k j v : String) (ex : ℕ) → k ≢ j → S.get (S.set s k v ex) j ≡ S.get s j

pub record RedisCache : Type 0 where
  pub namespace : String
  pub hits : ℕ
  pub misses : ℕ

-- `_key`
unfoldable pub key : RedisCache → String → String
key c k = c.namespace <> ":" <> k

abbrev pub miss : RedisCache → RedisCache × Option CacheEntry
miss c = (record c { misses = c.misses + 1 }, none)

-- What `get` makes of the reply.
unfoldable pub read : EntryCodec → RedisCache → Option String → RedisCache × Option CacheEntry
read codec c none = miss c
read codec c (some raw) = if raw == "" then miss c else elim (codec.loads raw) [
  | none ↦ miss c
  | some entry ↦ (record c { hits = c.hits + 1 }, some entry)
]

module _ (S : Store) (codec : EntryCodec) where
  -- `get`; the flag says whether the server answers.
  unfoldable pub get : RedisCache → String → Bool → S.State → RedisCache × Option CacheEntry
  unfolding read
  get c k answers s = if answers then read codec c (S.get s (key c k)) else miss c

  -- `set`, of a time to live in ticks, `second` of which make a second; the flag says whether the
  -- server gets the command.
  unfoldable pub set : RedisCache → ℕ → String → CacheEntry → ℕ → Bool → S.State → S.State
  set c second k entry ttl arrives s =
      if leb ttl 0
      then s
      else if arrives
      then S.set s (key c k) (codec.dumps entry) (max 1 (ttl / second))
      else s

  -- What a `get` answers, over what the store has under its key.
  abbrev pub answer : Option String → Option CacheEntry
  answer none = none
  answer (some raw) = if raw == "" then none else codec.loads raw

  read-answer : (c : RedisCache) (x : Option String) → (read codec c x).1 ≡ answer x
  unfolding read
  read-answer c none = refl
  read-answer c (some raw) = elim (Bool-cases (raw == "")) [
    | inl empty ↦ rw (empty, read) refl
    | inr full ↦ rw (full, read) (by_entry (codec.loads raw))
  ]
    where
      by_entry :
          (x : Option CacheEntry)
          → let r : RedisCache × Option CacheEntry = elim x [
            | none ↦ miss c
            | some entry ↦ (record c { hits = c.hits + 1 }, some entry)
          ] in
            r.1 ≡ x
      by_entry none = refl
      by_entry (some e) = refl

  -- Whether the server answers or not, each `get` is counted once, and it is a hit exactly when it
  -- returns an entry.
  abbrev pub Counted : RedisCache → RedisCache × Option CacheEntry → Type 0
  Counted c (c', none) = c' ≡ record c { misses = c.misses + 1 }
  Counted c (c', some e) = c' ≡ record c { hits = c.hits + 1 }

  read-Counted : (c : RedisCache) (x : Option String) → Counted c (read codec c x)
  unfolding read
  read-Counted c none = refl
  read-Counted c (some raw) = elim (Bool-cases (raw == "")) [
    | inl empty ↦ rw (empty, read) refl
    | inr full ↦ rw (full, read) (by_entry (codec.loads raw))
  ]
    where
      by_entry :
          (x : Option CacheEntry)
          → Counted c
              (elim x [ none ↦ miss c | some entry ↦ (record c { hits = c.hits + 1 }, some entry) ])
      by_entry none = refl
      by_entry (some e) = refl

  set_unchanged :
      (c : RedisCache) (second : ℕ) (k : String) (entry : CacheEntry) (ttl : ℕ) (arrives : Bool)
      (s : S.State)
      → (leb ttl 0 ≡ true) ⊎ (arrives ≡ false)
      → set c second k entry ttl arrives s ≡ s
  unfolding set
  set_unchanged c second k entry ttl arrives s (inl never) = rw (never, set) refl
  set_unchanged c second k entry ttl arrives s (inr lost) = elim (Bool-cases (leb ttl 0)) [
    | inl never ↦ rw (never, set) refl
    | inr ever ↦ rw (ever, lost, set) refl
  ]

  set_stored :
      (c : RedisCache) (second : ℕ) (k : String) (entry : CacheEntry) (ttl : ℕ) (s : S.State)
      → leb ttl 0 ≡ false
      → set c second k entry ttl true s
        ≡ S.set s (key c k) (codec.dumps entry) (max 1 (ttl / second))
  unfolding set
  set_stored c second k entry ttl s h = rw (h, set) refl

  module _ (lawful : IsLawful S) where
    key-ne : (c : RedisCache) (k j : String) → k ≢ j → key c k ≢ key c j
    unfolding key
    key-ne c k j ne e =
        ne (append_cancel_left ":" k j (append_cancel_left c.namespace (":" <> k) (":" <> j) e))

    -- What is read of a key after a write, whichever the failures. A `get` that is not answered is a
    -- miss. One that is answered returns the entry written, if the time to live is positive and the
    -- command has arrived; and otherwise, or of another key, what it would have returned before. The
    -- entry is what is read of its JSON, which is not empty.
    pub get-set_lossy :
        (c : RedisCache) (second : ℕ) (k j : String) (entry : CacheEntry) (ttl : ℕ)
        (arrives answers : Bool) (s : S.State)
        → codec.loads (codec.dumps entry) ≡ some entry
        → (codec.dumps entry == "") ≡ false
        → let before = (get c j answers s).1 in
          let after = (get c j answers (set c second k entry ttl arrives s)).1 in
          ((answers ≡ false) × (after ≡ none))
          ⊎ ((k ≡ j) × (0 < ttl) × (arrives ≡ true) × (answers ≡ true) × (after ≡ some entry))
          ⊎ (((k ≢ j) ⊎ (ttl ≡ 0) ⊎ (arrives ≡ false)) × (after ≡ before))
    unfolding get set
    get-set_lossy c second k j entry ttl arrives false s h f = inl (refl, refl)
    get-set_lossy c second k j entry ttl false true s h f = inr (
        inr (
          inr (inr refl),
          ap (λ t. (read codec c (S.get t (key c j))).1)
              (set_unchanged c second k entry ttl false s (inr refl)),
        ))
    get-set_lossy c second k j entry ttl true true s h f = elim (Bool-cases (leb ttl 0)) [
      | inl zero_ ↦ inr (
          inr (
            inr (inl (ground arith)),
            ap (λ t. (read codec c (S.get t (key c j))).1)
                (set_unchanged c second k entry ttl true s (inl zero_)),
          ))
      | inr pos ↦
          let stored = set_stored c second k entry ttl s pos in
          elim (Bool-cases (k == j)) [
            | inl same ↦
                let e = (eq_iff k j).0 same in
                inr (
                  inl (
                    e,
                    ground arith,
                    refl,
                    refl,
                    read-answer c (S.get (set c second k entry ttl true s) (key c j))
                        ∙ ap (λ t. answer (S.get t (key c j))) stored
                        ∙ rw
                            (
                              ← e,
                              lawful.get-set s (key c k) (codec.dumps entry) (max 1 (ttl / second)),
                            )
                            (rw f h),
                  ))
            | inr other ↦
                let ne : k ≢ j = λ e. ground (arith, eq_iff k j) in
                inr (
                  inr (
                    inl ne,
                    ap (λ t. (read codec c (S.get t (key c j))).1) stored
                        ∙ ap (λ x. (read codec c x).1)
                            (lawful.get-set_ne s (key c k) (key c j) (codec.dumps entry)
                              (max 1 (ttl / second)) (key-ne c k j ne)),
                  ))
          ]
    ]
