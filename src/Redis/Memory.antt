-- ===== src/Redis/Memory.antt =====
-- A server that obeys the documented commands, as the one that the tests of the ledger fake.
use llm_inference_autoscalin.Base.{
  ℕ, ◌+◌, String, ◌≡◌, refl, ap, ◌∙◌, ◌≢◌, Bool, true, false, Option, none, some, List, [], ◌∷◌,
  ◌++◌, arith, if◌then◌else◌, filter, sum_by, sum_by-append, Dict, lookup, insert, lookup_or,
  lookup-insert_self, lookup-insert_ne,
}
use llm_inference_autoscalin.Redis.{
  Member, entry, bare, same_member, has_id, Scored, drop_member, with_id, members, is_above, Redis,
  IsLawful,
}

pub record Server : Type 0 where
  pub sets : Dict (List Scored)
  pub totals : Dict ℕ
  pub buckets : Dict (ℕ × ℕ)

abbrev or_empty : Option (List Scored) → List Scored
or_empty none = []
or_empty (some es) = es

abbrev pub zset : Server → String → List Scored
zset s k = or_empty (lookup k s.sets)

abbrev put : Server → String → List Scored → Server
put s k es = record s { sets = insert k es s.sets }

abbrev fields : Option (ℕ × ℕ) → Option ℕ × Option ℕ
fields none = (none, none)
fields (some (tokens, ts)) = (some tokens, some ts)

abbrev pub memory : Redis
memory = record {
  State = Server;
  zset = zset;
  zrange = λ s k. members (zset s k);
  zadd = λ s k n m. put s k (drop_member m (zset s k) ++ (n, m) ∷ []);
  zrem = λ s k m. put s k (drop_member m (zset s k));
  zremrangebyscore = λ s k now window. put s k (filter (is_above now window) (zset s k));
  expire = λ s k n. s;
  hincrby = λ s k n. record s { totals = insert k (lookup_or k 0 s.totals + n) s.totals };
  hmget = λ s k. fields (lookup k s.buckets);
  hset = λ s k tokens ts. record s { buckets = insert k (tokens, ts) s.buckets };
}

zset-put : (s : Server) (k : String) (es : List Scored) → zset (put s k es) k ≡ es
zset-put s k es = ap or_empty (lookup-insert_self k es s.sets)

zset-put_ne :
    (s : Server) (k j : String) (es : List Scored) → k ≢ j → zset (put s k es) j ≡ zset s j
zset-put_ne s k j es ne = ap or_empty (lookup-insert_ne k j es s.sets ne)

same_member-has_id :
    (id : String) (m : Member) (a : Option ℕ)
    → has_id id m ≡ false
    → same_member m (entry id a) ≡ false
same_member-has_id id (entry i x) a h = rw h refl
same_member-has_id id (bare s) a h = refl

drop_member-fresh :
    (id : String) (a : Option ℕ) (es : List Scored)
    → with_id id es ≡ 0
    → drop_member (entry id a) es ≡ es
drop_member-fresh id a [] h = refl
drop_member-fresh id a (e ∷ es) h = by_id (has_id id e.1) refl h (λ k. drop_member-fresh id a es k)
  where
    by_id :
        (b : Bool)
        → has_id id e.1 ≡ b
        → (if b then 1 else 0) + with_id id es ≡ 0
        → (with_id id es ≡ 0 → drop_member (entry id a) es ≡ es)
        → drop_member (entry id a) (e ∷ es) ≡ e ∷ es
    by_id true k n ih = absurd (omega (arith, n))
    by_id false k n ih =
        rw (same_member-has_id id e.1 a k) (ap (λ xs. e ∷ xs) (ih (omega (arith, n))))

pub memory-IsLawful : IsLawful memory
memory-IsLawful = record {
  zrange_members = λ s k. refl;
  zadd-sum = λ s k n id a f fresh.
      ap (sum_by f) (zset-put s k (drop_member (entry id a) (zset s k) ++ (n, entry id a) ∷ []))
      ∙ ap (λ es. sum_by f (es ++ (n, entry id a) ∷ [])) (drop_member-fresh id a (zset s k) fresh)
      ∙ omega (arith, sum_by-append f (zset s k) ((n, entry id a) ∷ []));
  zrem-sum = λ s k m f. ap (sum_by f) (zset-put s k (drop_member m (zset s k)));
  zremrangebyscore-sum =
      λ s k now window f. ap (sum_by f) (zset-put s k (filter (is_above now window) (zset s k)));
  zset-zadd_ne = λ s k j n m ne. zset-put_ne s k j (drop_member m (zset s k) ++ (n, m) ∷ []) ne;
  zset-zrem_ne = λ s k j m ne. zset-put_ne s k j (drop_member m (zset s k)) ne;
  zset-zremrangebyscore_ne =
      λ s k j now window ne. zset-put_ne s k j (filter (is_above now window) (zset s k)) ne;
  zset-expire = λ s k j n. refl;
  zset-hincrby = λ s k j n. refl;
  hmget-hset = λ s k tokens ts. ap fields (lookup-insert_self k (tokens, ts) s.buckets);
  hmget-hset_ne = λ s k j tokens ts ne. ap fields (lookup-insert_ne k j (tokens, ts) s.buckets ne);
  hmget-expire = λ s k j n. refl;
}
