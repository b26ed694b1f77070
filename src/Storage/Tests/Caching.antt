-- ===== src/Storage/Tests/Caching.antt =====
-- Runs of the cache, and of an engine with a cache.
use kv_raft_storage.Common.{List, [], ◌∷◌, ◌≡◌, refl, arith, bytes_eq, Bool-cases, inl, inr, take}
use kv_raft_storage.Storage.SortedMap.{find, insert, erase}
use kv_raft_storage.Storage.KeyOrder.{key_lt}
use kv_raft_storage.Storage.Lru.{
  Lru, cache_get, cache_put, cache_delete, evict, new_cache, add_item, item_at,
}
use kv_raft_storage.Storage.Lru.Linked.{IsLinked}
use kv_raft_storage.Storage.Lru.Reads.{Reads, cache_get-Reads}
use kv_raft_storage.Storage.Lru.View.{view, touched}
use kv_raft_storage.Storage.Lru.Writes.{cache_put-take, cache_delete-erase}
use kv_raft_storage.Storage.Layers.{Lsm, blank_engine}
use kv_raft_storage.Storage.Lsm.History.{blank_engine-IsWf}
use kv_raft_storage.Storage.Engine.LsmEngine.{lsm_engine, lsm_engine-IsMap, IsWf-IsGood}
use kv_raft_storage.Storage.Engine.Runs.{Request, get_at, put_at, delete_at, answers}
use kv_raft_storage.Storage.Cached.{new_cached, cached_engine}
use kv_raft_storage.Storage.Cached.Coherent.{answers-cached_engine}
use kv_raft_storage.Storage.Tests.{sums}

-- A cache of two items.
abbrev cached : Lru
cached = record {
  capacity = 2;
  items =
      record { id = 1; key = 97 ∷ []; value = 5 ∷ [] }
      ∷ record { id = 0; key = 98 ∷ []; value = 6 ∷ [] }
      ∷ [];
  index = (97 ∷ [], 1) ∷ (98 ∷ [], 0) ∷ [];
  next_id = 2;
}

puts_cached : cache_put (97 ∷ []) (5 ∷ []) (cache_put (98 ∷ []) (6 ∷ []) (new_cache 2)) ≡ cached
unfolding cache_put new_cache add_item find insert key_lt bytes_eq
puts_cached = refl

cached-IsLinked : IsLinked cached
unfolding key_lt find item_at bytes_eq
cached-IsLinked = record {
  distinct = (refl, refl, (refl, refl, tt));
  indexed = λ key. elim (Bool-cases (bytes_eq key (97 ∷ []))) [
    | inl a ↦ rw a refl
    | inr b ↦ elim (Bool-cases (bytes_eq key (98 ∷ []))) [
      | inl c ↦ rw (b, c) refl
      | inr d ↦ rw (b, d) refl
    ]
  ];
  ascends = ((refl, tt), (tt, tt));
  fresh = (omega arith, (omega arith, tt));
  bounded = omega arith;
}

cache_get-Reads_example : Reads (98 ∷ []) cached (cache_get (98 ∷ []) cached)
cache_get-Reads_example = cache_get-Reads (98 ∷ []) cached cached-IsLinked

cache_put-take_example :
    IsLinked (cache_put (99 ∷ []) (7 ∷ []) cached)
    × (view (cache_put (99 ∷ []) (7 ∷ []) cached).items
        ≡ take 2 (touched (99 ∷ []) (7 ∷ []) (view cached.items)))
cache_put-take_example = cache_put-take (99 ∷ []) (7 ∷ []) cached cached-IsLinked

-- The least recent of the keys has gone.
evicted :
    view (cache_put (99 ∷ []) (7 ∷ []) cached).items ≡ (99 ∷ [], 7 ∷ []) ∷ (97 ∷ [], 5 ∷ []) ∷ []
unfolding cache_put add_item evict find insert erase key_lt bytes_eq
evicted = refl

cache_delete-erase_example :
    IsLinked (cache_delete (97 ∷ []) cached)
    × (view (cache_delete (97 ∷ []) cached).items ≡ erase (97 ∷ []) (view cached.items))
cache_delete-erase_example = cache_delete-erase (97 ∷ []) cached cached-IsLinked

abbrev blank : Lsm
blank = blank_engine 1 [] [] []

abbrev requests : List Request
requests =
    put_at (97 ∷ []) (5 ∷ [])
    ∷ put_at (98 ∷ []) (6 ∷ [])
    ∷ get_at (97 ∷ [])
    ∷ delete_at (97 ∷ [])
    ∷ get_at (97 ∷ [])
    ∷ []

answers-cached_engine_example :
    answers (cached_engine lsm_engine) requests (new_cached blank 1)
    ≡ answers lsm_engine requests blank
answers-cached_engine_example =
    answers-cached_engine lsm_engine lsm_engine-IsMap requests blank 1
      (IsWf-IsGood (blank_engine-IsWf 1 [] [] []))
