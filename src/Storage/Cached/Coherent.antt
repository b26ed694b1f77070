-- ===== src/Storage/Cached/Coherent.antt =====
-- The cache of `CachedKVEngine` never shows another value than the engine below it.
use kv_raft_storage.Common.{ℕ, List, [], Option, none, some, ◌≡◌, refl, sym, ap, ◌∙◌, Bytes, arith}
use kv_raft_storage.Storage.SortedMap.{find, erase}
use kv_raft_storage.Storage.Lru.{Lru, cache_get, cache_put, clear}
use kv_raft_storage.Storage.Lru.Linked.{IsLinked}
use kv_raft_storage.Storage.Lru.Reads.{cache_get-Reads, value_of, Reads}
use kv_raft_storage.Storage.Lru.View.{view, find-view}
use kv_raft_storage.Storage.Lru.Writes.{cache_put-take, cache_delete-erase}
use kv_raft_storage.Storage.Engine.{KvEngine, IsMap, SameMap}
use kv_raft_storage.Storage.Engine.Runs.{Request, answers, answers-map_answers}
use kv_raft_storage.Storage.Cached.{
  Cached, new_cached, fill, serve, cached_get, cached_put, cached_delete, cached_restore,
  cached_engine,
}
use kv_raft_storage.Storage.Cached.Agree.{
  Agrees, Agrees-erase, Agrees-cache_put, Agrees-SameMap, written_same,
}

module _ {E : Type 0} (ops : KvEngine E) (laws : IsMap ops) where
  pub record IsCoherent (c : Cached E) : Type 0 where
    pub good : laws.IsGood c.base
    pub linked : IsLinked c.cache
    pub agrees : Agrees (view c.cache.items) (laws.shows c.base)

  -- What a read of the cached engine keeps.
  Served : Bytes → Cached E → Cached E × Option Bytes → Type 0
  Served key c r =
      (r.1 ≡ laws.shows c.base key)
      × IsCoherent r.0
      × SameMap (laws.shows r.0.base) (laws.shows c.base)

  fill-Served :
      (key : Bytes) (c : Cached E) (found : E × Option Bytes)
      → IsCoherent c
      → (found.1 ≡ laws.shows c.base key)
        × laws.IsGood found.0
        × SameMap (laws.shows found.0) (laws.shows c.base)
      → Served key c (fill key found c.cache)
  unfolding Served
  fill-Served key c (base, none) w (answer, good, same) = (
    answer,
    record {
      good = good;
      linked = w.linked;
      agrees = Agrees-SameMap (view c.cache.items) same w.agrees;
    },
    same,
  )
  fill-Served key c (base, some value) w (answer, good, same) =
      let here = written_same key value (laws.shows base) (same key ∙ sym answer) in
      (
        answer,
        record {
          good = good;
          linked = (cache_put-take key value c.cache w.linked).0;
          agrees = Agrees-SameMap (view (cache_put key value c.cache).items) here (
              Agrees-cache_put key value c.cache w.linked
                (Agrees-SameMap (view c.cache.items) same w.agrees));
        },
        same,
      )

  -- A read of the cache leaves the cached engine coherent.
  hit-IsCoherent :
      (key : Bytes) (c : Cached E) (cache : Lru) (answer : Option Bytes)
      → IsCoherent c
      → Reads key c.cache (cache, answer)
      → IsCoherent (record c { cache = cache })
  unfolding Reads
  hit-IsCoherent key c cache answer w (_, linked, same) = record {
    good = w.good;
    linked = linked;
    agrees = λ j v h. w.agrees j v (
        find-view j c.cache.items ∙ ap value_of (sym (same j)) ∙ sym (find-view j cache.items) ∙ h);
  }

  serve-Served :
      (key : Bytes) (c : Cached E) (looked : Lru × Option Bytes)
      → IsCoherent c
      → Reads key c.cache looked
      → Served key c (serve ops key looked c.base)
  unfolding Served Reads
  serve-Served key c (cache, some value) w r = (
    sym (w.agrees key value (find-view key c.cache.items ∙ sym r.0)),
    hit-IsCoherent key c cache (some value) w r,
    λ j. refl,
  )
  serve-Served key c (cache, none) w r =
      fill-Served key (record c { cache = cache }) (ops.get key c.base)
        (hit-IsCoherent key c cache none w r)
        (
          laws.get_answers key c.base w.good,
          laws.get_good key c.base w.good,
          laws.get_keeps key c.base w.good,
        )

  cached_get-Served :
      (key : Bytes) (c : Cached E) → IsCoherent c → Served key c (cached_get ops key c)
  unfolding cached_get
  cached_get-Served key c w =
      serve-Served key c (cache_get key c.cache) w (cache_get-Reads key c.cache w.linked)

  cached_put-IsCoherent :
      (key value : Bytes) (c : Cached E) → IsCoherent c → IsCoherent (cached_put ops key value c)
  unfolding cached_put
  cached_put-IsCoherent key value c w = record {
    good = laws.put_good key value c.base w.good;
    linked = (cache_put-take key value c.cache w.linked).0;
    agrees =
        Agrees-SameMap (view (cache_put key value c.cache).items)
          (laws.put_writes key value c.base w.good)
          (Agrees-cache_put key value c.cache w.linked w.agrees);
  }

  cached_delete-IsCoherent :
      (key : Bytes) (c : Cached E) → IsCoherent c → IsCoherent (cached_delete ops key c)
  unfolding cached_delete
  cached_delete-IsCoherent key c w =
      let (linked, shown) = cache_delete-erase key c.cache w.linked in
      record {
        good = laws.delete_good key c.base w.good;
        linked = linked;
        agrees = λ j v h.
            Agrees-SameMap (erase key (view c.cache.items)) (laws.delete_writes key c.base w.good)
              (Agrees-erase key c.cache.items w.linked.distinct w.agrees) j v
              (ap (find j) (sym shown) ∙ h);
      }

  cleared-IsLinked : (c : Lru) → IsLinked (clear c)
  unfolding clear find
  cleared-IsLinked c = record {
    distinct = tt;
    indexed = λ key. refl;
    ascends = tt;
    fresh = tt;
    bounded = omega arith;
  }

  cleared-Agrees : (m : Bytes → Option Bytes) → Agrees [] m
  unfolding find
  cleared-Agrees m j v h = absurd (cc)

  cached_restore-restores :
      (c other : Cached E)
      → IsCoherent c
      → laws.Fits c.base
      → IsCoherent other
      → (out : Cached E) × (cached_restore ops (ops.snapshot c.base) other ≡ some out)
        × IsCoherent out
        × SameMap (laws.shows out.base) (laws.shows c.base)
  unfolding cached_restore clear
  cached_restore-restores c other w f v =
      let (base, e, good, same) = laws.restores c.base other.base w.good f v.good in
      (
        record { base = base; cache = clear other.cache },
        rw e,
        record {
          good = good;
          linked = cleared-IsLinked other.cache;
          agrees = cleared-Agrees (laws.shows base);
        },
        same,
      )

  -- An engine that shows a map still does with the cache before it.
  pub cached_engine-IsMap : IsMap (cached_engine ops)
  unfolding Served cached_put cached_delete
  cached_engine-IsMap = record {
    IsGood = IsCoherent;
    Fits = λ c. laws.Fits c.base;
    shows = λ c. laws.shows c.base;
    get_answers = λ key c w. (cached_get-Served key c w).0;
    get_good = λ key c w. (cached_get-Served key c w).1;
    get_keeps = λ key c w. (cached_get-Served key c w).2;
    put_good = cached_put-IsCoherent;
    put_writes = λ key value c w. laws.put_writes key value c.base w.good;
    delete_good = cached_delete-IsCoherent;
    delete_writes = λ key c w. laws.delete_writes key c.base w.good;
    restores = cached_restore-restores;
  }

  new_cached-IsCoherent :
      (base : E) (capacity : ℕ) → laws.IsGood base → IsCoherent (new_cached base capacity)
  unfolding new_cached find
  new_cached-IsCoherent base capacity good = record {
    good = good;
    linked = record {
      distinct = tt;
      indexed = λ key. refl;
      ascends = tt;
      fresh = tt;
      bounded = omega arith;
    };
    agrees = cleared-Agrees (laws.shows base);
  }

  -- A cache of any capacity before an engine that shows a map is not seen: any sequence of reads, writes
  -- and deletes is answered as the engine without a cache answers it.
  pub answers-cached_engine :
      (requests : List Request) (base : E) (capacity : ℕ)
      → laws.IsGood base
      → answers (cached_engine ops) requests (new_cached base capacity) ≡ answers ops requests base
  unfolding new_cached cached_engine-IsMap
  answers-cached_engine requests base capacity good =
      answers-map_answers (cached_engine ops) cached_engine-IsMap requests
        (new_cached base capacity) (laws.shows base) (new_cached-IsCoherent base capacity good)
        (λ j. refl)
      ∙ sym (answers-map_answers ops laws requests base (laws.shows base) good (λ j. refl))
