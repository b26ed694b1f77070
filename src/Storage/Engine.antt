-- ===== src/Storage/Engine.antt =====
-- `KVEngine` of storage/include/kv_engine.h, the interface of the storage engines, and what its clients
-- rely on: an engine shows one map from keys to values. A `get` may change the engine's own order of
-- things; `none` of `restore` is an exception that leaves the engine as it was.
pub mod Runs
pub mod LsmEngine
pub mod SkipListEngine
use kv_raft_storage.Common.{ℕ, Option, none, some, ◌≡◌, if◌then◌else◌, Bytes, bytes_eq}

pub record KvEngine (E : Type 0) : Type 0 where
  pub get : Bytes → E → E × Option Bytes
  pub put : Bytes → Bytes → E → E
  pub delete : Bytes → E → E
  pub snapshot : E → Bytes
  pub restore : Bytes → E → Option E
  pub size : E → ℕ

-- The same values for all keys.
abbrev pub SameMap : (Bytes → Option Bytes) → (Bytes → Option Bytes) → Type 0
SameMap m n = (key : Bytes) → m key ≡ n key

abbrev pub written : Bytes → Option Bytes → (Bytes → Option Bytes) → Bytes → Option Bytes
written key value m j = if bytes_eq j key then value else m j

-- `Fits` is what a snapshot needs of an engine to be restored.
pub record IsMap {E : Type 0} (ops : KvEngine E) : Type 1 where
  pub IsGood : E → Type 0
  pub Fits : E → Type 0
  pub shows : E → Bytes → Option Bytes
  pub get_answers : (key : Bytes) (e : E) → IsGood e → (ops.get key e).1 ≡ shows e key
  pub get_good : (key : Bytes) (e : E) → IsGood e → IsGood (ops.get key e).0
  pub get_keeps : (key : Bytes) (e : E) → IsGood e → SameMap (shows (ops.get key e).0) (shows e)
  pub put_good : (key value : Bytes) (e : E) → IsGood e → IsGood (ops.put key value e)
  pub put_writes :
      (key value : Bytes) (e : E)
      → IsGood e
      → SameMap (shows (ops.put key value e)) (written key (some value) (shows e))
  pub delete_good : (key : Bytes) (e : E) → IsGood e → IsGood (ops.delete key e)
  pub delete_writes :
      (key : Bytes) (e : E)
      → IsGood e
      → SameMap (shows (ops.delete key e)) (written key none (shows e))
  pub restores :
      (e other : E)
      → IsGood e
      → Fits e
      → IsGood other
      → (out : E) × (ops.restore (ops.snapshot e) other ≡ some out)
        × IsGood out
        × SameMap (shows out) (shows e)
