-- ===== src/Storage/Layers.antt =====
-- The state of `LSMTreeEngine` (storage/include/lsm_tree_engine.h): its maps and tables from newest to
-- oldest, and what is read from them.
use kv_raft_storage.Common.{
  ℕ, Bool, true, false, List, [], ◌∷◌, ◌++◌, Option, none, some, leb, if◌then◌else◌, length, map,
  reverse, Bytes, or_else,
}
use kv_raft_storage.Storage.KeyOrder.{key_lt}
use kv_raft_storage.Storage.SortedMap.{SortedMap, find, insert}
use kv_raft_storage.Storage.Codec.{put_type, delete_type, Entry}
use kv_raft_storage.Storage.Table.{bit_or_clear, SsTable}
use kv_raft_storage.Storage.Files.{write_snapshot}

-- `immutables` and `tables` are oldest first; `files` are the contents of the files by path, and
-- `work_pending` is `m_backgroundWorkPending`.
pub record Lsm : Type 0 where
  pub flush_threshold : ℕ
  pub next_sequence : ℕ
  pub wal_path : Bytes
  pub manifest_path : Bytes
  pub async_flush : Bool
  pub mem_table : SortedMap Entry
  pub immutables : List (SortedMap Entry)
  pub tables : List SsTable
  pub work_pending : Bool
  pub files : SortedMap Bytes

-- The engine before the constructor recovers anything.
unfoldable pub blank_engine : ℕ → Bytes → Bytes → SortedMap Bytes → Lsm
blank_engine threshold wal_path manifest_path files = record {
  flush_threshold = if leb threshold 0 then 1 else threshold;
  next_sequence = 0;
  wal_path = wal_path;
  manifest_path = manifest_path;
  async_flush = false;
  mem_table = [];
  immutables = [];
  tables = [];
  work_pending = false;
  files = files;
}

-- The two loops of `FindEntryLocked`, on the newest first.
unfoldable pub find_in_maps : Bytes → List (SortedMap Entry) → Option Entry
find_in_maps key [] = none
find_in_maps key (m ∷ maps) = or_else (find key m) (find_in_maps key maps)

-- What `Get` makes of an entry: a deletion mark hides the key.
unfoldable pub live : Option Entry → Option Bytes
live none = none
live (some e) = elim e.entry_type [ put_type ↦ some e.value | delete_type ↦ none ]

-- `seen[key]`, false where there is none.
abbrev pub is_seen : Bytes → SortedMap Bool → Bool
is_seen key seen = bit_or_clear (find key seen)

abbrev pub is_put : Entry → Bool
is_put e = elim e.entry_type [ put_type ↦ true | delete_type ↦ false ]

-- The content of a file, empty where there is none.
abbrev pub content_or_empty : Option Bytes → Bytes
content_or_empty none = []
content_or_empty (some content) = content

abbrev pub content_at : Bytes → SortedMap Bytes → Bytes
content_at path files = content_or_empty (find path files)

-- One item of `applyNewestFirst`, and of the loop of `CompactSSTablesLocked`: the keys that were
-- seen are passed over, and only puts are kept.
unfoldable pub collect_item :
    {A : Type 0}
    → (Entry → A)
    → Bytes × Entry
    → SortedMap A × SortedMap Bool
    → SortedMap A × SortedMap Bool
collect_item keep x (result, seen) =
    if is_seen x.0 seen
    then (result, seen)
    else (if is_put x.1 then insert x.0 (keep x.1) result else result, insert x.0 true seen)

unfoldable pub collect_items :
    {A : Type 0}
    → (Entry → A)
    → SortedMap Entry
    → SortedMap A × SortedMap Bool
    → SortedMap A × SortedMap Bool
collect_items keep [] acc = acc
collect_items keep (x ∷ items) acc = collect_items keep items (collect_item keep x acc)

unfoldable pub collect_maps :
    {A : Type 0}
    → (Entry → A)
    → List (SortedMap Entry)
    → SortedMap A × SortedMap Bool
    → SortedMap A × SortedMap Bool
collect_maps keep [] acc = acc
collect_maps keep (m ∷ maps) acc = collect_maps keep maps (collect_items keep m acc)

-- The maps of the tables, newest first.
abbrev pub table_maps : List SsTable → List (SortedMap Entry)
table_maps tables = map (λ (t : SsTable). t.entries) (reverse tables)

-- All maps of the engine, newest first.
abbrev pub layers : Lsm → List (SortedMap Entry)
layers e = e.mem_table ∷ (reverse e.immutables ++ table_maps e.tables)

-- `ExportVisibleDataLocked`
unfoldable pub export_visible : Lsm → SortedMap Bytes
export_visible e = (collect_maps (λ (x : Entry). x.value) (layers e) ([], [])).0

unfoldable pub snapshot : Lsm → Bytes
snapshot e = write_snapshot (export_visible e)

unfoldable pub size : Lsm → ℕ
size e = length (export_visible e)

-- From `lower_bound(startKey)` on, as long as the key is not past the end.
unfoldable pub scan_range : Bytes → Bytes → SortedMap Bytes → SortedMap Bytes
scan_range start_key end_key [] = []
scan_range start_key end_key (x ∷ data_) =
    let rest = scan_range start_key end_key data_ in
    if key_lt x.0 start_key then rest else if key_lt end_key x.0 then [] else x ∷ rest

unfoldable pub range_scan : Bytes → Bytes → Lsm → SortedMap Bytes
range_scan start_key end_key e =
    if key_lt end_key start_key then [] else scan_range start_key end_key (export_visible e)
