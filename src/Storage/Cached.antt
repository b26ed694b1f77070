-- ===== src/Storage/Cached.antt =====
-- `CachedKVEngine` of storage/include/cached_kv_engine.h: an engine with an LRU cache before it.
pub mod Agree
pub mod Coherent
use kv_raft_storage.Common.{ℕ, Option, none, some, ◌>>=◌, Bytes}
use kv_raft_storage.Storage.Engine.{KvEngine}
use kv_raft_storage.Storage.Lru.{Lru, new_cache, cache_get, cache_put, cache_delete, clear}

pub record Cached (E : Type 0) : Type 0 where
  pub base : E
  pub cache : Lru

module _ {E : Type 0} where
  unfoldable pub new_cached : E → ℕ → Cached E
  unfolding new_cache
  new_cached base capacity = record { base = base; cache = new_cache capacity }

  -- A value that the base has is put in the cache.
  abbrev pub fill : Bytes → E × Option Bytes → Lru → Cached E × Option Bytes
  fill key (base, none) cache = (record { base = base; cache = cache }, none)
  fill key (base, some value) cache =
      (record { base = base; cache = cache_put key value cache }, some value)

  abbrev pub serve : KvEngine E → Bytes → Lru × Option Bytes → E → Cached E × Option Bytes
  serve ops key (cache, some value) base = (record { base = base; cache = cache }, some value)
  serve ops key (cache, none) base = fill key (ops.get key base) cache

  unfoldable pub cached_get : KvEngine E → Bytes → Cached E → Cached E × Option Bytes
  cached_get ops key c = serve ops key (cache_get key c.cache) c.base

  unfoldable pub cached_put : KvEngine E → Bytes → Bytes → Cached E → Cached E
  cached_put ops key value c = record {
    base = ops.put key value c.base;
    cache = cache_put key value c.cache;
  }

  unfoldable pub cached_delete : KvEngine E → Bytes → Cached E → Cached E
  cached_delete ops key c = record {
    base = ops.delete key c.base;
    cache = cache_delete key c.cache;
  }

  unfoldable pub cached_restore : KvEngine E → Bytes → Cached E → Option (Cached E)
  cached_restore ops text c = do
    base ← ops.restore text c.base
    some (record { base = base; cache = clear c.cache })

  abbrev pub cached_engine : KvEngine E → KvEngine (Cached E)
  cached_engine ops = record {
    get = cached_get ops;
    put = cached_put ops;
    delete = cached_delete ops;
    snapshot = λ c. ops.snapshot c.base;
    restore = cached_restore ops;
    size = λ c. ops.size c.base;
  }
