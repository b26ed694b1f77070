-- ===== src/Storage/Files.antt =====
-- The files of `LSMTreeEngine`: their names and what is written to them.
use kv_raft_storage.Common.{
  ℕ, zero, suc, ◌+◌, ◌/◌, ◌%◌, List, [], ◌∷◌, ◌++◌, ltb, is_empty, if◌then◌else◌, length, Bytes,
  Option, none, some, ◌>>=◌,
}
use kv_raft_storage.Storage.SortedMap.{SortedMap, insert}
use kv_raft_storage.Storage.Codec.{
  Entry, put_entry, WalRecord, write_uint64, write_string, write_record, read_uint64, read_string,
  read_record,
}
use kv_raft_storage.Storage.Table.{SsTable}

-- The digits of `std::to_string`, with `n` places left; a `uint64_t` has at most twenty.
unfoldable pub digits : ℕ → ℕ → Bytes → Bytes
digits zero value behind = behind
digits (suc n) value behind =
    let more = digits n (value / 10) ((48 + value % 10) ∷ behind) in
    if ltb value 10 then (48 + value) ∷ behind else more

-- `m_manifestPath + ".sst." + std::to_string(sequence)`
unfoldable pub sstable_path : Bytes → ℕ → Bytes
sstable_path [] sequence = []
sstable_path (c ∷ path) sequence = (c ∷ path) ++ (46 ∷ 115 ∷ 115 ∷ 116 ∷ 46 ∷ digits 20 sequence [])

-- A record of a table's file has the format of a record of the log.
abbrev pub item_record : Bytes × Entry → WalRecord
item_record x = record { entry_type = x.1.entry_type; key = x.0; value = x.1.value }

unfoldable pub write_items : SortedMap Entry → Bytes
write_items [] = []
write_items (x ∷ items) = write_record (item_record x) ++ write_items items

-- What `PersistSSTableLocked` writes.
unfoldable pub write_table : SortedMap Entry → Bytes
write_table items = write_uint64 (length items) ++ write_items items

unfoldable pub write_table_rows : List SsTable → Bytes
write_table_rows [] = []
write_table_rows (t ∷ tables) =
    write_uint64 t.sequence
    ++ (write_string t.file_path
        ++ (write_string t.min_key ++ (write_string t.max_key ++ write_table_rows tables)))

-- What `RewriteManifestLocked` writes.
unfoldable pub write_manifest : ℕ → List SsTable → Bytes
write_manifest next_sequence tables =
    write_uint64 next_sequence ++ (write_uint64 (length tables) ++ write_table_rows tables)

-- The loop of `LoadSSTable`, with `n` records left.
unfoldable pub read_items : ℕ → Bytes → SortedMap Entry → Option (SortedMap Entry)
read_items zero input entries = some entries
read_items (suc n) input entries = do
  (item, rest) ← read_record input
  let entry : Entry = record { entry_type = item.entry_type; value = item.value }
  read_items n rest (insert item.key entry entries)

-- The entries of a table's file; bytes behind the last record are not looked at.
unfoldable pub read_table : Bytes → Option (SortedMap Entry)
read_table input = do (count, rest) ← read_uint64 input; read_items count rest []

-- What `Snapshot` writes.
unfoldable pub write_pairs : SortedMap Bytes → Bytes
write_pairs [] = []
write_pairs (x ∷ data_) = write_string x.0 ++ (write_string x.1 ++ write_pairs data_)

unfoldable pub write_snapshot : SortedMap Bytes → Bytes
write_snapshot data_ = write_uint64 (length data_) ++ write_pairs data_

-- The loop of `Restore`, with `n` pairs left: what was read, and the bytes behind it.
unfoldable pub read_pairs : ℕ → Bytes → SortedMap Entry → Option (SortedMap Entry × Bytes)
read_pairs zero input restored = some (restored, input)
read_pairs (suc n) input restored = do
  (key, after_key) ← read_string input
  (value, rest) ← read_string after_key
  read_pairs n rest (insert key (put_entry value) restored)

-- Bytes behind the last pair are an error.
unfoldable pub read_snapshot : Bytes → Option (SortedMap Entry)
read_snapshot input = do
  (count, rest) ← read_uint64 input
  (restored, behind) ← read_pairs count rest []
  if is_empty behind then some restored else none
