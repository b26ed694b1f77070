-- ===== src/Storage/Lsm/History.antt =====
-- A sequence of operations on the engine, against the same sequence on a map.
use kv_raft_storage.Storage.Layers.{Lsm, blank_engine}
use kv_raft_storage.Common.{
  ◌≡◌, refl, ◌∙◌, Bool, List, [], ◌∷◌, Option, none, some, if◌then◌else◌, Bytes, bytes_eq, ℕ,
}
use kv_raft_storage.Storage.SortedMap.{SortedMap}
use kv_raft_storage.Storage.Table.{Hasher}
use kv_raft_storage.Storage.Lsm.{
  get, find_entry, put, delete, flush, compact, background_round, enable_async_flush,
}
use kv_raft_storage.Storage.Lsm.Sound.{IsWf}
use kv_raft_storage.Storage.Lsm.Refine.{get-put, get-delete, flush-Keeps}
use kv_raft_storage.Storage.Lsm.Compact.{
  SameReads, Keeps-SameReads, compact-SameReads, background_round-SameReads,
}

-- The operations that a client and the background worker run.
pub data Operation : Type 0 where
  puts : Bytes → Bytes → Operation
  deletes : Bytes → Operation
  flushes compacts works : Operation
  sets_async : Bool → Operation

-- What an operation does to a map from keys to values.
abbrev pub spec_step : Operation → (Bytes → Option Bytes) → Bytes → Option Bytes
spec_step (puts key value) m j = if bytes_eq j key then some value else m j
spec_step (deletes key) m j = if bytes_eq j key then none else m j
spec_step _ m j = m j

abbrev pub spec_run : List Operation → (Bytes → Option Bytes) → Bytes → Option Bytes
spec_run [] m = m
spec_run (o ∷ os) m = spec_run os (spec_step o m)

module _ ⦃hasher : Hasher⦄ where
  abbrev pub step : Operation → Lsm → Lsm
  step (puts key value) e = put key value e
  step (deletes key) e = delete key e
  step flushes e = flush e
  step compacts e = compact e
  step works e = background_round e
  step (sets_async enabled) e = enable_async_flush enabled e

  abbrev pub run : List Operation → Lsm → Lsm
  run [] e = e
  run (o ∷ os) e = run os (step o e)

  enable_async_flush-SameReads :
      (enabled : Bool) (e : Lsm) → IsWf e → SameReads e (enable_async_flush enabled e)
  unfolding enable_async_flush get find_entry
  enable_async_flush-SameReads enabled e w = record { wf = assumption; reads = λ key. refl }

  step-refines :
      (o : Operation) (e : Lsm)
      → IsWf e
      → IsWf (step o e) × ((j : Bytes) → get j (step o e) ≡ spec_step o (λ k. get k e) j)
  step-refines (puts key value) e w =
      ((get-put [] key value e w).0, λ j. (get-put j key value e w).1)
  step-refines (deletes key) e w = ((get-delete [] key e w).0, λ j. (get-delete j key e w).1)
  step-refines flushes e w = let s = Keeps-SameReads w (flush-Keeps e w) in (s.wf, s.reads)
  step-refines compacts e w = let s = compact-SameReads e w in (s.wf, s.reads)
  step-refines works e w = let s = background_round-SameReads e w in (s.wf, s.reads)
  step-refines (sets_async enabled) e w =
      let s = enable_async_flush-SameReads enabled e w in (s.wf, s.reads)

  spec_step-ext :
      (o : Operation) (m n : Bytes → Option Bytes)
      → ((j : Bytes) → m j ≡ n j)
      → (j : Bytes) → spec_step o m j ≡ spec_step o n j
  spec_step-ext (puts key value) m n h j = rw (h j)
  spec_step-ext (deletes key) m n h j = rw (h j)
  spec_step-ext flushes m n h j = h j
  spec_step-ext compacts m n h j = h j
  spec_step-ext works m n h j = h j
  spec_step-ext (sets_async enabled) m n h j = h j

  pub spec_run-ext :
      (os : List Operation) (m n : Bytes → Option Bytes)
      → ((j : Bytes) → m j ≡ n j)
      → (j : Bytes) → spec_run os m j ≡ spec_run os n j
  spec_run-ext [] m n h j = h j
  spec_run-ext (o ∷ os) m n h j =
      spec_run-ext os (spec_step o m) (spec_step o n) (spec_step-ext o m n h) j

  -- After any sequence of puts, deletes, flushes, compactions, rounds of the background worker and
  -- switches of asynchronous flushing on a well-formed engine, the engine is well formed and `Get`
  -- returns what the same sequence of puts and deletes on a map leaves at the key.
  pub run-refines :
      (os : List Operation) (e : Lsm)
      → IsWf e
      → IsWf (run os e) × ((j : Bytes) → get j (run os e) ≡ spec_run os (λ k. get k e) j)
  run-refines [] e w = (w, λ j. refl)
  run-refines (o ∷ os) e w =
      let (w', first) = step-refines o e w in
      let (w'', rest) = run-refines os (step o e) w' in
      (
        w'',
        λ j. rest j ∙ spec_run-ext os (λ k. get k (step o e)) (spec_step o (λ k. get k e)) first j,
      )

  pub blank_engine-IsWf :
      (threshold : ℕ) (wal_path manifest_path : Bytes) (files : SortedMap Bytes)
      → IsWf (blank_engine threshold wal_path manifest_path files)
  unfolding blank_engine
  blank_engine-IsWf threshold wal_path manifest_path files = record {
    mem_ascends = tt;
    immutables_ascend = tt;
    tables_sound = tt;
  }
