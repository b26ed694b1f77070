-- ===== src/Storage/Engine/LsmEngine.antt =====
-- `LSMTreeEngine` as a `KVEngine`.
use kv_raft_storage.Common.{ℕ, none, ◌≡◌, refl, Bytes, length, ◌<◌, ◌^◌, All}
use kv_raft_storage.Storage.Table.{Hasher}
use kv_raft_storage.Storage.Layers.{
  Lsm, snapshot, size, export_visible, blank_engine, find_in_maps, live,
}
use kv_raft_storage.Storage.SortedMap.{SortedMap, find}
use kv_raft_storage.Storage.Lsm
use kv_raft_storage.Storage.Lsm.Sound.{IsWf}
use kv_raft_storage.Storage.Lsm.Refine.{get-put, get-delete}
use kv_raft_storage.Storage.Lsm.Transfer.{ShortPair, restore-snapshot}
use kv_raft_storage.Storage.Engine.{KvEngine, IsMap}

module _ ⦃hasher : Hasher⦄ where
  abbrev pub lsm_engine : KvEngine Lsm
  lsm_engine = record {
    get = λ key e. (e, Lsm.get key e);
    put = Lsm.put;
    delete = Lsm.delete;
    snapshot = snapshot;
    restore = Lsm.restore;
    size = size;
  }

  -- What can be written in a snapshot.
  abbrev pub Short : Lsm → Type 0
  Short e = (length (export_visible e) < 2 ^ 64) × All ShortPair (export_visible e)

  pub lsm_engine-IsMap : IsMap lsm_engine
  lsm_engine-IsMap = record {
    IsGood = IsWf;
    Fits = Short;
    shows = λ e key. Lsm.get key e;
    get_answers = λ key e w. refl;
    get_good = λ key e w. w;
    get_keeps = λ key e w j. refl;
    put_good = λ key value e w. (get-put key key value e w).0;
    put_writes = λ key value e w j. (get-put j key value e w).1;
    delete_good = λ key e w. (get-delete key key e w).0;
    delete_writes = λ key e w j. (get-delete j key e w).1;
    restores = λ e other w f _. restore-snapshot e other w f.0 f.1;
  }

  pub IsWf-IsGood : {e : Lsm} → IsWf e → lsm_engine-IsMap.IsGood e
  unfolding lsm_engine-IsMap
  IsWf-IsGood w = w

  pub Short-Fits : (e : Lsm) → Short e → lsm_engine-IsMap.Fits e
  unfolding lsm_engine-IsMap
  Short-Fits e f = f

  -- A new engine shows nothing.
  pub blank_engine-shows :
      (threshold : ℕ) (wal_path manifest_path : Bytes) (files : SortedMap Bytes) (key : Bytes)
      → lsm_engine-IsMap.shows (blank_engine threshold wal_path manifest_path files) key ≡ none
  unfolding lsm_engine-IsMap blank_engine Lsm.get Lsm.find_entry Lsm.find_in_tables find_in_maps
      find live
  blank_engine-shows threshold wal_path manifest_path files key = refl
