-- ===== src/Storage/Tests.antt =====
-- Runs of the engines on small data.
pub mod Caching
use kv_raft_storage.Storage.Layers.{
  Lsm, blank_engine, range_scan, collect_maps, collect_items, collect_item, export_visible,
  snapshot,
}
use kv_raft_storage.Storage.Lsm.Recovery.{open_engine}
use kv_raft_storage.Common.{
  ℕ, List, [], ◌∷◌, ◌++◌, none, some, ◌≡◌, refl, ◌+◌, arith, Bytes, bytes_eq, if◌then◌else◌,
}
use kv_raft_storage.Storage.SortedMap.{SortedMap, find, insert, Ascending}
use kv_raft_storage.Storage.KeyOrder.{key_lt}
use kv_raft_storage.Storage.Lru.{Lru, cache_get, cache_put, new_cache, add_item, item_at}
use kv_raft_storage.Storage.Lru.Linked.{IsLinked}
use kv_raft_storage.Storage.Lru.Reads.{Reads, cache_get-Reads}
use kv_raft_storage.Common.{Bool-cases, inl, inr}
use kv_raft_storage.Storage.Codec.{
  Entry, put_entry, delete_entry, WalRecord, put_type, write_record, read_record,
}
use kv_raft_storage.Storage.Codec.RoundTrip.{read_record-write_record}
use kv_raft_storage.Storage.Table.{Hasher, SsTable, rebuild_metadata, find_in_table}
use kv_raft_storage.Storage.Table.Lookup.{find_in_table-rebuild_metadata}
use kv_raft_storage.Storage.Lsm.{get, put, delete, compact, background_round}
use kv_raft_storage.Storage.Lsm.Sound.{IsWf}
use kv_raft_storage.Storage.Lsm.Refine.{get-put, get-delete}
use kv_raft_storage.Storage.Lsm.Compacted.{Compacted, compact-Compacted}
use kv_raft_storage.Storage.Lsm.Export.{range_scan-get, is_between}
use kv_raft_storage.Common.{All}
use kv_raft_storage.Storage.Lsm.Replay.{Short}
use kv_raft_storage.Storage.Lsm.Logged.{history_records, logged_run, open_engine-get}
use kv_raft_storage.Common.{◌^◌, ◌<◌, false, length}
use kv_raft_storage.Storage.Lsm.{restore}
use kv_raft_storage.Storage.Lsm.Transfer.{ShortPair, restore-snapshot}
use kv_raft_storage.Storage.Lsm.History.{
  Operation, puts, deletes, flushes, run, spec_run, run-refines, blank_engine-IsWf,
}

-- The sum of the bytes.
abbrev pub sum : Bytes → ℕ
sum [] = 0
sum (b ∷ bytes) = b + sum bytes

instance pub sums : Hasher
sums = record { hash = sum }

abbrev items : SortedMap Entry
items = (1 ∷ [], put_entry (7 ∷ [])) ∷ (1 ∷ 2 ∷ [], delete_entry) ∷ (3 ∷ [], put_entry []) ∷ []

items-Ascending : Ascending items
unfolding key_lt
items-Ascending = ((refl, (refl, tt)), ((refl, tt), (tt, tt)))

abbrev table : SsTable
table = record {
  sequence = 1;
  min_key = [];
  max_key = [];
  file_path = [];
  bloom_bits = [];
  blocks = [];
  entries = items;
}

find_in_table-rebuild_metadata_example :
    find_in_table (1 ∷ 2 ∷ []) (rebuild_metadata table) ≡ find (1 ∷ 2 ∷ []) items
find_in_table-rebuild_metadata_example =
    find_in_table-rebuild_metadata (1 ∷ 2 ∷ []) table items-Ascending

abbrev wal_item : WalRecord
wal_item = record { entry_type = put_type; key = 1 ∷ 2 ∷ []; value = 3 ∷ [] }

read_record-write_record_example :
    read_record (write_record wal_item ++ 9 ∷ []) ≡ some (wal_item, 9 ∷ [])
read_record-write_record_example =
    read_record-write_record wal_item (9 ∷ []) (omega arith) (omega arith)

-- Two tables and a memtable, with an overwritten and a deleted key.
abbrev history : List Operation
history =
    puts (1 ∷ []) (5 ∷ [])
    ∷ puts (2 ∷ []) (6 ∷ [])
    ∷ flushes
    ∷ puts (1 ∷ []) (7 ∷ [])
    ∷ deletes (2 ∷ [])
    ∷ puts (3 ∷ []) (8 ∷ [])
    ∷ []

abbrev blank : Lsm
blank = blank_engine 2 (119 ∷ []) (109 ∷ []) []

history-Short : All Short (history_records history)
history-Short = (
  (omega arith, omega arith),
  (
    (omega arith, omega arith),
    ((omega arith, omega arith), ((omega arith, omega arith), ((omega arith, omega arith), tt))),
  ),
)

blank-IsWf : IsWf blank
blank-IsWf = blank_engine-IsWf 2 (119 ∷ []) (109 ∷ []) []

run-refines_example :
    IsWf (run history blank)
    × ((j : Bytes) → get j (run history blank) ≡ spec_run history (λ k. get k blank) j)
run-refines_example = run-refines history blank blank-IsWf

abbrev used : Lsm
used = run history blank

used-IsWf : IsWf used
used-IsWf = (run-refines history blank blank-IsWf).0

compact-Compacted_example : Compacted used (compact used)
compact-Compacted_example = compact-Compacted used used-IsWf

range_scan-get_example :
    (find (3 ∷ []) (range_scan (1 ∷ []) (3 ∷ []) used)
      ≡ (if is_between (1 ∷ []) (3 ∷ []) (3 ∷ []) then get (3 ∷ []) used else none))
    × Ascending (range_scan (1 ∷ []) (3 ∷ []) used)
range_scan-get_example = range_scan-get (1 ∷ []) (3 ∷ []) (3 ∷ []) used used-IsWf

open_engine-get_example :
    (e : Lsm) × (open_engine 5 (119 ∷ []) [] (logged_run 2 119 [] history).files ≡ some e)
    × IsWf e
    × ((j : Bytes) → get j e ≡ get j (logged_run 2 119 [] history))
open_engine-get_example = open_engine-get 2 5 119 [] history history-Short

-- An engine with the three items in its memtable.
abbrev filled : Lsm
filled = record {
  flush_threshold = 4;
  next_sequence = 0;
  wal_path = [];
  manifest_path = [];
  async_flush = false;
  mem_table = items;
  immutables = [];
  tables = [];
  work_pending = false;
  files = [];
}

filled-IsWf : IsWf filled
filled-IsWf = record { mem_ascends = items-Ascending; immutables_ascend = tt; tables_sound = tt }

filled-few : length (export_visible filled) < 2 ^ 64
unfolding export_visible collect_maps collect_items collect_item find insert key_lt bytes_eq
filled-few = omega arith

filled-Short : All ShortPair (export_visible filled)
unfolding export_visible collect_maps collect_items collect_item find insert key_lt bytes_eq
filled-Short = ((omega arith, omega arith), ((omega arith, omega arith), tt))

restore-snapshot_example :
    (out : Lsm) × (restore (snapshot filled) used ≡ some out)
    × IsWf out
    × ((key : Bytes) → get key out ≡ get key filled)
restore-snapshot_example = restore-snapshot filled used filled-IsWf filled-few filled-Short
