-- ===== src/Cache.antt =====
-- app/cache.py: the in-memory response cache, an LRU with expiry. The OrderedDict is a list, least
-- recently used first. No method gives up control inside its lock, so a call is one step; the clock
-- reading is an argument.
pub mod Lru
pub mod Reads
pub mod Key
pub mod Flight
use llm_inference_autoscalin.Base.{
  ℕ, ◌+◌, max, String, Option, none, some, [], ◌∷◌, ◌++◌, ltb, leb, if◌then◌else◌, length, Dict,
  lookup, erase,
}

pub record CacheEntry : Type 0 where
  pub text : String
  pub input_tokens : ℕ
  pub output_tokens : ℕ
  pub model : String

-- An entry and the time at which it expires.
abbrev pub Slot : Type 0
Slot = CacheEntry × ℕ

pub record InMemoryCache : Type 0 where
  pub max_entries : ℕ
  pub items : Dict Slot
  pub hits : ℕ
  pub misses : ℕ

unfoldable pub init : ℕ → InMemoryCache
init max_entries = record { max_entries = max 1 max_entries; items = []; hits = 0; misses = 0 }

-- `d[key] = slot; d.move_to_end(key)`
abbrev pub touch : String → Slot → Dict Slot → Dict Slot
touch key slot items = erase key items ++ (key, slot) ∷ []

unfoldable pub get : InMemoryCache → String → ℕ → InMemoryCache × Option CacheEntry
get c key now = elim (lookup key c.items) [
  | none ↦ (record c { misses = c.misses + 1 }, none)
  | some (entry, expires_at) ↦
      if leb expires_at now
      then (record c { items = erase key c.items; misses = c.misses + 1 }, none)
      else (
        record c { items = touch key (entry, expires_at) c.items; hits = c.hits + 1 },
        some entry,
      )
]

-- `while len(data) > max_entries: data.popitem(last=False)`
unfoldable pub evict : ℕ → Dict Slot → Dict Slot
evict limit [] = []
evict limit (e ∷ es) = if ltb limit (length (e ∷ es)) then evict limit es else e ∷ es

unfoldable pub set : InMemoryCache → String → CacheEntry → ℕ → ℕ → InMemoryCache
set c key entry ttl now =
    if leb ttl 0
    then c
    else record c { items = evict c.max_entries (touch key (entry, now + ttl) c.items) }
