-- ===== src/Storage/Lsm/Recovery.antt =====
-- Recovery of `LSMTreeEngine`: table files, the manifest, the write-ahead log, and the constructor.
use kv_raft_storage.Storage.Layers.{Lsm, blank_engine}
use kv_raft_storage.Common.{
  ℕ, zero, suc, [], ◌∷◌, ◌++◌, Option, none, some, if◌then◌else◌, length, is_empty, Bytes, ◌>>=◌,
}
use kv_raft_storage.Storage.SortedMap.{SortedMap, find, insert}
use kv_raft_storage.Storage.Codec.{Entry, read_record, read_uint64, read_string}
use kv_raft_storage.Storage.Table.{Hasher, SsTable, rebuild_metadata}
use kv_raft_storage.Storage.Files.{read_table}
use kv_raft_storage.Storage.Lsm.{flush_if_needed}

module _ ⦃hasher : Hasher⦄ where
  -- `LoadSSTable`
  unfoldable pub load_table : ℕ → Bytes → SortedMap Bytes → Option SsTable
  load_table sequence path files = do
    input ← find path files
    entries ← read_table input
    some (
        rebuild_metadata (record {
          sequence = sequence;
          min_key = [];
          max_key = [];
          file_path = path;
          bloom_bits = [];
          blocks = [];
          entries = entries;
        }))

  -- The loop of `RecoverFromManifestLocked`, with `n` tables left.
  unfoldable pub load_tables : ℕ → Bytes → Lsm → Option Lsm
  load_tables zero input e = some e
  load_tables (suc n) input e = do
    (sequence, after_sequence) ← read_uint64 input
    (path, after_path) ← read_string after_sequence
    (_, after_min) ← read_string after_path
    (_, rest) ← read_string after_min
    table ← load_table sequence path e.files
    load_tables n rest (record e { tables = e.tables ++ table ∷ [] })

  unfoldable pub recover_manifest : Lsm → Option Lsm
  recover_manifest e =
      if is_empty e.manifest_path then some e else elim (find e.manifest_path e.files) [
        | none ↦ some e
        | some input ↦ do
          (next_sequence, after_sequence) ← read_uint64 input
          (count, rest) ← read_uint64 after_sequence
          load_tables count rest (record e { next_sequence = next_sequence })
      ]

  -- The loop of `RecoverFromWALLocked`, with `n` records left at most.
  unfoldable pub replay : ℕ → Bytes → Lsm → Option Lsm
  replay n [] e = some e
  replay zero (b ∷ input) e = none
  replay (suc n) (b ∷ input) e = do
    (item, rest) ← read_record (b ∷ input)
    let entry : Entry = record { entry_type = item.entry_type; value = item.value }
    replay n rest (flush_if_needed (record e { mem_table = insert item.key entry e.mem_table }))

  -- A log that cannot be opened is no log.
  abbrev pub replay_file : Option Bytes → Lsm → Option Lsm
  replay_file none e = some e
  replay_file (some input) e = replay (length input) input e

  unfoldable pub recover_wal : Lsm → Option Lsm
  recover_wal e = if is_empty e.wal_path then some e else replay_file (find e.wal_path e.files) e

  -- The constructor with both paths.
  unfoldable pub open_engine : ℕ → Bytes → Bytes → SortedMap Bytes → Option Lsm
  open_engine threshold wal_path manifest_path files =
      recover_manifest (blank_engine threshold wal_path manifest_path files) >>= recover_wal
