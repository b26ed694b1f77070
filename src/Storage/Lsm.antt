-- ===== src/Storage/Lsm.antt =====
-- `LSMTreeEngine` of storage/include/lsm_tree_engine.h. An operation runs under the engine's lock
-- and is a function from an engine to an engine; opening and writing a file succeeds.
pub mod Recovery
pub mod Collect
pub mod Sound
pub mod Refine
pub mod Compact
pub mod Compacted
pub mod Export
pub mod History
pub mod Replay
pub mod SameFiles
pub mod Logged
pub mod Transfer
use kv_raft_storage.Common.{
  ℕ, zero, suc, ◌+◌, Bool, true, false, not, List, [], ◌∷◌, ◌++◌, Option, none, some, ltb, leb,
  if◌then◌else◌, length, map, reverse, is_empty, Bytes, or_else, ◌>>=◌,
}
use kv_raft_storage.Storage.KeyOrder.{key_lt}
use kv_raft_storage.Storage.SortedMap.{SortedMap, find, insert, erase}
use kv_raft_storage.Storage.Codec.{
  EntryType, put_type, delete_type, Entry, put_entry, delete_entry, WalRecord, write_record,
  read_record, read_uint64, read_string,
}
use kv_raft_storage.Storage.Table.{bit_or_clear, Hasher, SsTable, find_in_table, rebuild_metadata}
use kv_raft_storage.Storage.Files.{
  sstable_path, item_record, write_items, write_table, write_manifest, read_table, write_snapshot,
  read_snapshot,
}
use kv_raft_storage.Storage.Layers.{
  blank_engine, find_in_maps, live, is_seen, is_put, content_or_empty, content_at, collect_item,
  collect_items, collect_maps, table_maps, layers, export_visible, snapshot, size, scan_range,
  range_scan, Lsm,
}

unfoldable pub append_wal : EntryType → Bytes → Bytes → Lsm → Lsm
append_wal entry_type key value e = if is_empty e.wal_path then e else record e {
  files =
      insert e.wal_path
        (content_at e.wal_path e.files
          ++ write_record (record { entry_type = entry_type; key = key; value = value }))
        e.files;
}

-- Only the visible data is left in the log.
unfoldable pub rewrite_wal : Lsm → Lsm
rewrite_wal e = if is_empty e.wal_path then e else record e {
  files =
      insert e.wal_path
        (write_items (map (λ (x : Bytes × Bytes). (x.0, put_entry x.1)) (export_visible e)))
        e.files;
}

unfoldable pub rewrite_manifest : Lsm → Lsm
rewrite_manifest e = if is_empty e.manifest_path then e else record e {
  files = insert e.manifest_path (write_manifest e.next_sequence e.tables) e.files;
}

-- `PersistSSTableLocked`: the table with its path, and the files.
unfoldable pub persist_table : SsTable → Lsm → SsTable × SortedMap Bytes
persist_table table e =
    if is_empty e.manifest_path
    then (table, e.files)
    else let path = sstable_path e.manifest_path table.sequence in
      (record table { file_path = path }, insert path (write_table table.entries) e.files)

unfoldable pub erase_files : List SsTable → SortedMap Bytes → SortedMap Bytes
erase_files [] files = files
erase_files (t ∷ tables) files =
    erase_files tables (if is_empty t.file_path then files else erase t.file_path files)

unfoldable pub delete_table_files : Lsm → Lsm
delete_table_files e =
    if is_empty e.manifest_path then e else record e { files = erase_files e.tables e.files }

unfoldable pub enable_async_flush : Bool → Lsm → Lsm
enable_async_flush enabled e = record e { async_flush = enabled }

unfoldable pub rotate : Lsm → Lsm
rotate e =
    if is_empty e.mem_table
    then e
    else record e { immutables = e.immutables ++ e.mem_table ∷ []; mem_table = [] }

module _ ⦃hasher : Hasher⦄ where
  unfoldable pub find_in_tables : Bytes → List SsTable → Option Entry
  find_in_tables key [] = none
  find_in_tables key (t ∷ tables) = or_else (find_in_table key t) (find_in_tables key tables)

  -- `FindEntryLocked`
  unfoldable pub find_entry : Bytes → Lsm → Option Entry
  find_entry key e =
      or_else (find key e.mem_table)
        (or_else (find_in_maps key (reverse e.immutables)) (find_in_tables key (reverse e.tables)))

  unfoldable pub get : Bytes → Lsm → Option Bytes
  get key e = live (find_entry key e)

  -- A new table of the next number over `entries`, its file written.
  unfoldable pub new_table : SortedMap Entry → Lsm → SsTable × SortedMap Bytes
  new_table entries e =
      persist_table
        (rebuild_metadata (record {
          sequence = e.next_sequence + 1;
          min_key = [];
          max_key = [];
          file_path = [];
          bloom_bits = [];
          blocks = [];
          entries = entries;
        }))
        e

  -- The loop of `FlushImmutableMemTablesLocked`, oldest first.
  unfoldable pub flush_each : List (SortedMap Entry) → Lsm → Lsm
  flush_each [] e = e
  flush_each (entries ∷ rest) e =
      let made = new_table entries e in
      flush_each rest (
        rewrite_manifest (record e {
          immutables = rest;
          next_sequence = e.next_sequence + 1;
          tables = e.tables ++ made.0 ∷ [];
          files = made.1;
        }))

  unfoldable pub flush_immutables : Lsm → Lsm
  flush_immutables e = flush_each e.immutables e

  -- `FlushMemTableLocked`, the operation `Flush`.
  unfoldable pub flush : Lsm → Lsm
  flush e = flush_immutables (rotate e)

  unfoldable pub flush_if_needed : Lsm → Lsm
  flush_if_needed e =
      if leb e.flush_threshold (length e.mem_table)
      then (if e.async_flush then record (rotate e) { work_pending = true } else flush e)
      else e

  unfoldable pub put : Bytes → Bytes → Lsm → Lsm
  put key value e =
      let e' = append_wal put_type key value e in
      flush_if_needed (record e' { mem_table = insert key (put_entry value) e'.mem_table })

  unfoldable pub delete : Bytes → Lsm → Lsm
  delete key e =
      let e' = append_wal delete_type key [] e in
      flush_if_needed (record e' { mem_table = insert key delete_entry e'.mem_table })

  -- `CompactSSTablesLocked`: the puts that are newest for their key become one table.
  unfoldable pub compact : Lsm → Lsm
  compact e =
      if leb (length e.tables) 1
      then e
      else let merged = (collect_maps (λ (x : Entry). x) (table_maps e.tables) ([], [])).0 in
        if is_empty merged
        then rewrite_manifest (record (delete_table_files e) { tables = [] })
        else let made = new_table merged e in
          let e' =
            delete_table_files (record e { next_sequence = e.next_sequence + 1; files = made.1 }) in
          rewrite_manifest (record e' { tables = made.0 ∷ [] })

  -- A round of `BackgroundWorkerLoop` that was woken.
  unfoldable pub background_round : Lsm → Lsm
  background_round e =
      let e' = flush (record e { work_pending = false }) in
      if ltb 1 (length e'.tables) then compact e' else e'

  -- `Restore`; `none` is the exception, which leaves the engine as it was.
  unfoldable pub restore : Bytes → Lsm → Option Lsm
  restore [] e = some (
      rewrite_manifest (
        rewrite_wal
          (record (delete_table_files e) { mem_table = []; immutables = []; tables = [] })))
  restore (c ∷ input) e = do
    restored ← read_snapshot (c ∷ input)
    some (
        flush_if_needed (
          rewrite_manifest (
            rewrite_wal (record (delete_table_files e) {
              mem_table = restored;
              immutables = [];
              tables = [];
            }))))
