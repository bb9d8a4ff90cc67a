-- ===== src/Tests/Caching.antt =====
-- Tests of app/cache.py.
use llm_inference_autoscalin.Base.{refl, [], ◌∷◌, arith, lookup}
use llm_inference_autoscalin.Cache.{CacheEntry, InMemoryCache}
use llm_inference_autoscalin.Cache.Flight
use llm_inference_autoscalin.Base.{◌==◌, if◌then◌else◌, insert}
use llm_inference_autoscalin.Cache.Lru.{IsValid}

abbrev entry : CacheEntry
entry = record { text = "hi"; input_tokens = 1; output_tokens = 2; model = "small" }

-- A full cache of two entries.
abbrev full : InMemoryCache
full = record {
  max_entries = 2;
  items = ("a", (entry, 100)) ∷ ("b", (entry, 200)) ∷ [];
  hits = 0;
  misses = 0;
}

full-IsValid : IsValid full
unfolding lookup
full-IsValid = record {
  positive = omega arith;
  bounded = omega arith;
  distinct = (refl, (refl, tt));
}

-- One caller leads, a second follows.
abbrev leading : Flight.Flights
leading = record {
  flights = record { inflight = ("a", 1) ∷ [] };
  executing = λ k. if "a" == k then 1 ∷ [] else [];
}

abbrev following : Flight.Flights
following = record leading { executing = Flight.at_key "a" (1 ∷ []) leading.executing }

flights-Run : Flight.Run Flight.none_yet following
unfolding Flight.run lookup insert
flights-Run =
    Flight.then_ (Flight.then_ Flight.start (Flight.arrives Flight.none_yet "a" 1))
      (Flight.arrives leading "a" 2)

Run-IsSingle_example : Flight.IsSingle following
Run-IsSingle_example = Flight.Run-IsSingle flights-Run
