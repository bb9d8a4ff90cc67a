-- ===== src/Tests/Shared.antt =====
-- Tests of the parts that replicas share, app/cost/redis_ledger.py, app/ratelimit.py and app/cache.py,
-- and of app/factory.py and app/config.py.
use llm_inference_autoscalin.Base.{
  ℕ, ◌<◌, String, ◌≡◌, ◌≢◌, refl, ◌⊎◌, inl, true, false, Option, none, some, [], ◌∷◌, arith, ◌==◌,
  if◌then◌else◌, lookup, eq_refl, ne→neb,
}
use llm_inference_autoscalin.Config.Settings.{Environment}
use llm_inference_autoscalin.Ledger.{Reservation, Usage}
use llm_inference_autoscalin.Redis.{with_id}
use llm_inference_autoscalin.Redis.Memory.{Server, memory, memory-IsLawful}
use llm_inference_autoscalin.RedisLedger
use llm_inference_autoscalin.RedisLedger.{RedisLedger, spend_key}
use llm_inference_autoscalin.RedisLedger.Calls.{Wire, runs, fails, loses, noscript}
use llm_inference_autoscalin.RedisLedger.Fleet
use llm_inference_autoscalin.RedisLedger.Outages.{Metered, reserve-Metered}
use llm_inference_autoscalin.RateLimit
use llm_inference_autoscalin.RateLimit.{TokenBucketLimiter}
use llm_inference_autoscalin.Base.{insert}
use llm_inference_autoscalin.RedisLedger.{reserve_script, sum_members}
use llm_inference_autoscalin.RedisLedger.Calls.{eval}
use llm_inference_autoscalin.RedisLedger.Settling.{Settled, settle-Settled}
use llm_inference_autoscalin.RedisLimiter
use llm_inference_autoscalin.Base.{lua_number, unit_from, round_div}
use llm_inference_autoscalin.RedisLimiter.{stamped, RedisRateLimiter, Agrees, check-Agrees}
use llm_inference_autoscalin.RedisCache
use llm_inference_autoscalin.RedisCache.{Store, EntryCodec, RedisCache, get-set_lossy}
use llm_inference_autoscalin.Cache.{CacheEntry}
use llm_inference_autoscalin.Factory.{Packages}

abbrev ledger : RedisLedger
ledger = record {
  window = 86400;
  namespace = "llm";
  fail_closed = true;
  max_records = 1000;
  reserve_sha = none;
  settle_sha = none;
  release_sha = none;
  local_records = [];
}

-- The script is loaded and the server has forgotten it; or its answer is lost.
abbrev forgets : Wire
forgets = record { load = some "sha"; evalsha = noscript; eval_ = runs }

abbrev drops : Wire
drops = record { load = some "sha"; evalsha = loses; eval_ = fails }

abbrev server : Server
server = record { sets = []; totals = []; buckets = [] }

abbrev ann : String
ann = "llm:spend:ann"

ann-key : spend_key ledger "ann" ≡ ann
unfolding spend_key
ann-key = refl

ann-fresh : with_id "a" (memory.zset server ann) ≡ 0
unfolding lookup
ann-fresh = refl

ledger-fresh : with_id "a" (memory.zset server (spend_key ledger "ann")) ≡ 0
unfolding lookup spend_key
ledger-fresh = refl

abbrev positive : 0 < 86400
positive = omega arith

ann-IsWithin : Fleet.IsWithin memory memory-IsLawful ann 86400 5000000 positive 100 server
unfolding lookup
ann-IsWithin = omega arith

-- Two replicas reserve for ann, and the answer to the second is lost.
abbrev reserved : Server
reserved = (RedisLedger.reserve memory ledger "ann" 2000000 5000000 100 "a" forgets server).0

abbrev hold : Reservation
hold = record { user_id = "ann"; amount = 2000000; created_at = 100; id = "a"; closed = false }

reserve-Run : Fleet.Run memory memory-IsLawful ann 86400 5000000 positive server 100 reserved 100
reserve-Run =
    Fleet.then_ Fleet.start
      (Fleet.reserves server 100 ledger "ann" 2000000 "a" forgets ann-key refl ann-fresh)

Run-IsWithin_example :
    Fleet.IsWithin memory memory-IsLawful ann 86400 5000000 positive 150
      (RedisLedger.release memory ledger hold drops reserved).0
Run-IsWithin_example =
    Fleet.Run-IsWithin memory memory-IsLawful ann 86400 5000000 positive ann-IsWithin (
      Fleet.then_ (Fleet.then_ reserve-Run (Fleet.wait reserved 100 150 (omega arith)))
        (Fleet.releases reserved 150 ledger hold drops (inl ann-key)))

reserve-Metered_example :
    Metered memory memory-IsLawful
      (spend_key ledger "ann")
      100
      86400
      2000000
      5000000
      server
      (RedisLedger.reserve memory ledger "ann" 2000000 5000000 100 "a" drops server)
reserve-Metered_example =
    reserve-Metered memory memory-IsLawful ledger "ann" 2000000 5000000 100 "a" drops server refl
      positive ledger-fresh

abbrev used : Usage
used = record { model = "small"; input_tokens = 2; output_tokens = 12 }

hold-held : with_id "a" (memory.zset reserved (spend_key ledger "ann")) ≡ 1
unfolding lookup insert spend_key RedisLedger.reserve reserve_script sum_members eval
hold-held = refl

-- The server runs the script, and its answer is lost.
settle-Settled_example :
    Settled memory memory-IsLawful ledger hold 1500000 used 110 reserved
      (RedisLedger.settle memory ledger hold 1500000 used 110 drops reserved)
settle-Settled_example =
    settle-Settled memory memory-IsLawful ledger hold 1500000 used 110 drops reserved refl refl
      positive hold-held

abbrev limiter : RedisRateLimiter
limiter = record { capacity = 20; refill_rate = 5; namespace = "llm:rl"; sha = some "sha" }

abbrev bucket : TokenBucketLimiter
bucket = record { capacity = 20; refill_rate = 5; buckets = [] }

limiter-Agrees : Agrees memory limiter bucket server
unfolding lookup
limiter-Agrees = record { capacity = refl; refill_rate = refl; buckets = λ u. refl }

-- A time in microseconds has more than 14 digits.
check-Agrees_example :
    let x = RedisLimiter.check memory limiter "ann" 4 1764135876123456 60 forgets server in
    let y = RateLimit.check bucket "ann" 4 1764135876123456 in
    let left = stamped "ann" (lua_number 1764135876123456) y.0 in
    ((x.2 ≡ y.1) × Agrees memory limiter left x.0)
    ⊎ ((x.2 ≡ none) × (Agrees memory limiter bucket x.0 ⊎ Agrees memory limiter left x.0))
check-Agrees_example =
    check-Agrees memory memory-IsLawful limiter "ann" bucket server 4 1764135876123456 60 forgets
      (omega arith) limiter-Agrees

rounds_time : lua_number 1764135876123456 ≡ 1764135876123500
unfolding lua_number unit_from round_div
rounds_time = refl

-- A store of texts, and a codec that knows one entry.
abbrev texts : Store
texts = record {
  State = String → Option String;
  get = λ s k. s k;
  set = λ s k v ex j. if k == j then some v else s j;
}

texts-IsLawful : RedisCache.IsLawful texts
texts-IsLawful = record {
  get-set = λ s k v ex. rw (eq_refl k) refl;
  get-set_ne = λ s k j v ex ne. rw (ne→neb k j ne) refl;
}

abbrev answer : CacheEntry
answer = record { text = "hi"; input_tokens = 2; output_tokens = 1; model = "small" }

abbrev codec : EntryCodec
codec = record { dumps = λ e. "{}"; loads = λ s. if s == "{}" then some answer else none }

abbrev cache : RedisCache
cache = record { namespace = "llm:cache"; hits = 0; misses = 0 }

abbrev nothing : String → Option String
nothing k = none

abbrev name : String
name = "k"

get-set_lossy_example :
    let before = (RedisCache.get texts codec cache name true nothing).1 in
    let after =
      (RedisCache.get texts codec cache name true
        (RedisCache.set texts codec cache 1000 name answer 5 true nothing)).1 in
    ((true ≡ false) × (after ≡ none))
    ⊎ ((name ≡ name) × (0 < 5) × (true ≡ true) × (true ≡ true) × (after ≡ some answer))
    ⊎ (((name ≢ name) ⊎ (◌≡◌ {A = ℕ} 5 0) ⊎ (true ≡ false)) × (after ≡ before))
get-set_lossy_example =
    get-set_lossy texts codec texts-IsLawful cache 1000 name name answer 5 true true nothing refl
      refl

abbrev env : Environment
env = record {
  getenv = λ k. none;
  float_of = λ parts s. none;
  int_of = λ s. none;
  strip = λ s. s;
  lower = λ s. if s == "NONE" then "none" else s;
  split = λ s. s ∷ [];
  partition = λ s. none;
}

abbrev bare_packages : Packages
bare_packages = record { httpx = false; redis = false }
