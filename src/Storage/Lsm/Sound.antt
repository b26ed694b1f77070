-- ===== src/Storage/Lsm/Sound.antt =====
-- The invariant of `LSMTreeEngine`, and lookups by its layers.
use kv_raft_storage.Storage.Layers.{Lsm, layers, table_maps, find_in_maps}
use kv_raft_storage.Common.{
  ◌+◌, ◌≡◌, refl, sym, ap, ◌∙◌, inl, inr, List, [], ◌∷◌, ◌++◌, All, map, reverse, is_empty, Bytes,
  or_else, or_else_assoc, Bool-cases, subst, All-reverse,
}
use kv_raft_storage.Storage.SortedMap.{SortedMap, find, Ascending}
use kv_raft_storage.Storage.Codec.{EntryType, Entry}
use kv_raft_storage.Storage.Table.{
  Hasher, SsTable, find_in_table, rebuild_metadata, metadata_of, may_contain,
}
use kv_raft_storage.Storage.Table.Lookup.{find_in_table-rebuild_metadata}
use kv_raft_storage.Storage.Lsm.{
  find_in_tables, find_entry, append_wal, rewrite_wal, delete_table_files, rewrite_manifest,
  persist_table, new_table,
}

pub find_in_maps-append :
    (key : Bytes) (ms ns : List (SortedMap Entry))
    → find_in_maps key (ms ++ ns) ≡ or_else (find_in_maps key ms) (find_in_maps key ns)
unfolding find_in_maps
find_in_maps-append key [] ns = refl
find_in_maps-append key (m ∷ ms) ns =
    rw (find_in_maps-append key ms ns)
      (sym (or_else_assoc (find key m) (find_in_maps key ms) (find_in_maps key ns)))

module _ ⦃hasher : Hasher⦄ where
  -- The table's entries ascend, and a search in the table finds what they hold.
  abbrev pub IsSound : SsTable → Type 0
  IsSound t = Ascending t.entries × ((key : Bytes) → find_in_table key t ≡ find key t.entries)

  pub record IsWf (e : Lsm) : Type 0 where
    pub mem_ascends : Ascending e.mem_table
    pub immutables_ascend : All Ascending e.immutables
    pub tables_sound : All IsSound e.tables

  metadata_of-entries :
      (entries : SortedMap Entry) (t : SsTable) → (metadata_of entries t).entries ≡ t.entries
  unfolding metadata_of
  metadata_of-entries [] t = refl
  metadata_of-entries (x ∷ items) t = refl

  rebuild_metadata-entries : (t : SsTable) → (rebuild_metadata t).entries ≡ t.entries
  unfolding rebuild_metadata
  rebuild_metadata-entries t = metadata_of-entries t.entries t

  pub rebuilt-IsSound : (t : SsTable) → Ascending t.entries → IsSound (rebuild_metadata t)
  rebuilt-IsSound t a =
      let same = rebuild_metadata-entries t in
      (
        subst Ascending (sym same) a,
        λ key. find_in_table-rebuild_metadata key t a ∙ ap (λ m. find key m) (sym same),
      )

  moved-IsSound : (t : SsTable) (path : Bytes) → IsSound t → IsSound (record t { file_path = path })
  unfolding find_in_table may_contain
  moved-IsSound t path s = s

  persist_table-IsSound :
      (t : SsTable) (e : Lsm)
      → IsSound t
      → IsSound (persist_table t e).0 × ((persist_table t e).0.entries ≡ t.entries)
  unfolding persist_table
  persist_table-IsSound t e s = elim (Bool-cases (is_empty e.manifest_path)) [
    | inl none_ ↦ rw none_ (s, refl)
    | inr path ↦ rw path (moved-IsSound t _ s, refl)
  ]

  pub new_table-IsSound :
      (entries : SortedMap Entry) (e : Lsm)
      → Ascending entries
      → IsSound (new_table entries e).0 × ((new_table entries e).0.entries ≡ entries)
  unfolding new_table
  new_table-IsSound entries e a =
      let t : SsTable = record {
        sequence = e.next_sequence + 1;
        min_key = [];
        max_key = [];
        file_path = [];
        bloom_bits = [];
        blocks = [];
        entries = entries;
      } in
      let (s, same) = persist_table-IsSound (rebuild_metadata t) e (rebuilt-IsSound t a) in
      (s, same ∙ rebuild_metadata-entries t)

  find_in_tables-eq :
      (key : Bytes) (tables : List SsTable)
      → All IsSound tables
      → find_in_tables key tables ≡ find_in_maps key (map (λ (t : SsTable). t.entries) tables)
  unfolding find_in_tables find_in_maps
  find_in_tables-eq key [] h = refl
  find_in_tables-eq key (t ∷ tables) h = rw (h.0.1 key, find_in_tables-eq key tables h.1)

  -- A lookup finds the entry of the newest map that has the key.
  pub find_entry-eq :
      (key : Bytes) (e : Lsm) → IsWf e → find_entry key e ≡ find_in_maps key (layers e)
  unfolding find_entry find_in_maps
  find_entry-eq key e w =
      ap (λ o. or_else (find key e.mem_table) o)
        (ap (λ o. or_else (find_in_maps key (reverse e.immutables)) o)
            (find_in_tables-eq key (reverse e.tables) (All-reverse IsSound e.tables w.tables_sound))
          ∙ sym (find_in_maps-append key (reverse e.immutables) (table_maps e.tables)))

-- An engine that differs in its files only.
abbrev pub with_files : SortedMap Bytes → Lsm → Lsm
with_files files e = record e { files = files }

pub append_wal-eq :
    (entry_type : EntryType) (key value : Bytes) (e : Lsm)
    → append_wal entry_type key value e ≡ with_files (append_wal entry_type key value e).files e
unfolding append_wal
append_wal-eq entry_type key value e = elim (Bool-cases (is_empty e.wal_path)) [
  | inl none_ ↦ rw none_
  | inr path ↦ rw path
]

pub rewrite_wal-eq : (e : Lsm) → rewrite_wal e ≡ with_files (rewrite_wal e).files e
unfolding rewrite_wal
rewrite_wal-eq e = elim (Bool-cases (is_empty e.wal_path)) [
  | inl none_ ↦ rw none_
  | inr path ↦ rw path
]

pub rewrite_manifest-eq : (e : Lsm) → rewrite_manifest e ≡ with_files (rewrite_manifest e).files e
unfolding rewrite_manifest
rewrite_manifest-eq e = elim (Bool-cases (is_empty e.manifest_path)) [
  | inl none_ ↦ rw none_
  | inr path ↦ rw path
]

pub delete_table_files-eq :
    (e : Lsm) → delete_table_files e ≡ with_files (delete_table_files e).files e
unfolding delete_table_files
delete_table_files-eq e = elim (Bool-cases (is_empty e.manifest_path)) [
  | inl none_ ↦ rw none_
  | inr path ↦ rw path
]
