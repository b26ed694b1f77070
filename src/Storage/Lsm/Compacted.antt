-- ===== src/Storage/Lsm/Compacted.antt =====
-- What `Compact` of `LSMTreeEngine` makes of the tables.
use kv_raft_storage.Common.{
  ◌+◌, ◌≤◌, ◌<◌, ◌≡◌, refl, sym, ap, ◌∙◌, inl, inr, List, [], ◌∷◌, Option, none, some, is_empty,
  length, leb, if◌then◌else◌, Bytes, or_else-none, Bool-cases, arith,
}
use kv_raft_storage.Storage.SortedMap.{SortedMap, find}
use kv_raft_storage.Storage.Codec.{Entry}
use kv_raft_storage.Storage.Table.{Hasher}
use kv_raft_storage.Storage.Layers.{Lsm, table_maps, find_in_maps, is_put}
use kv_raft_storage.Storage.Lsm.{rewrite_manifest, delete_table_files, new_table, compact}
use kv_raft_storage.Storage.Lsm.Collect.{flatten, kept_of, find-collect_maps}
use kv_raft_storage.Storage.Lsm.Sound.{IsWf, new_table-IsSound, delete_table_files-eq}
use kv_raft_storage.Storage.Lsm.Compact.{
  SameReads, merged, collect_maps-Ascending, is_empty-nil, compact-SameReads,
}

-- A newest entry that is a put; a deletion mark is dropped.
abbrev pub put_only : Option Entry → Option Entry
put_only none = none
put_only (some e) = if is_put e then some e else none

find-merged_puts :
    (key : Bytes) (maps : List (SortedMap Entry))
    → find key (merged maps) ≡ put_only (find_in_maps key maps)
find-merged_puts key maps =
    find-collect_maps (λ (x : Entry). x) key maps ∙ puts (find_in_maps key maps)
  where
    puts : (o : Option Entry) → flatten (kept_of (λ (x : Entry). x) o) ≡ put_only o
    puts none = refl
    puts (some e) = refl

-- The layers that a rewrite of the manifest leaves alone.
manifest_keeps :
    (e : Lsm)
    → ((rewrite_manifest e).mem_table ≡ e.mem_table)
      × ((rewrite_manifest e).immutables ≡ e.immutables)
      × ((rewrite_manifest e).tables ≡ e.tables)
unfolding rewrite_manifest
manifest_keeps e = elim (Bool-cases (is_empty e.manifest_path)) [
  | inl none_ ↦ rw none_ (refl, refl, refl)
  | inr path ↦ rw path (refl, refl, refl)
]

module _ ⦃hasher : Hasher⦄ where
  -- `out` is `e` after a compaction.
  pub record Compacted (e out : Lsm) : Type 0 where
    pub same : SameReads e out
    pub memory_kept : out.mem_table ≡ e.mem_table
    pub waiting_kept : out.immutables ≡ e.immutables
    pub one_table : length out.tables ≤ 1
    pub newest_puts :
        1 < length e.tables
        → (key : Bytes)
        → find_in_maps key (table_maps out.tables)
          ≡ put_only (find_in_maps key (table_maps e.tables))

  -- The engine behind the deletion of the files, with other tables.
  abbrev Replaced : Lsm → Lsm → Type 0
  Replaced e e' =
      (e'.mem_table ≡ e.mem_table)
      × (e'.immutables ≡ e.immutables)
      × (length e'.tables ≤ 1)
      × ((key : Bytes)
          → find_in_maps key (table_maps e'.tables)
            ≡ put_only (find_in_maps key (table_maps e.tables)))

  Replaced-Compacted :
      (e e' : Lsm)
      → SameReads e (rewrite_manifest e')
      → Replaced e e'
      → Compacted e (rewrite_manifest e')
  Replaced-Compacted e e' same (mem, im, few, puts) =
      let (mem', im', tables) = manifest_keeps e' in
      record {
        same = same;
        memory_kept = mem' ∙ mem;
        waiting_kept = im' ∙ im;
        one_table = rw tables few;
        newest_puts = λ many key. rw tables (puts key);
      }

  -- On a well-formed engine `Compact` leaves one table at most, the memtables as they were, and the
  -- result of every `Get`. If there were several tables, what the tables hold for a key after it is the
  -- newest entry that they held if that is a put, and nothing if it is a deletion mark or there is none.
  pub compact-Compacted : (e : Lsm) → IsWf e → Compacted e (compact e)
  unfolding compact find find_in_maps
  compact-Compacted e w =
      let same = compact-SameReads e w in
      let maps = table_maps e.tables in
      elim (Bool-cases (leb (length e.tables) 1)) [
        | inl few ↦
            let same' = rw few at same in
            rw few (record {
              same = same';
              memory_kept = refl;
              waiting_kept = refl;
              one_table = ground arith;
              newest_puts = λ many key. absurd (ground arith);
            })
        | inr many ↦ elim (Bool-cases (is_empty (merged maps))) [
          | inl nothing ↦
              let cleared = delete_table_files-eq e in
              let same' = rw (many, nothing) at same in
              let gone = is_empty-nil (merged maps) nothing in
              rw (many, nothing)
                (Replaced-Compacted e (record (delete_table_files e) { tables = [] }) same'
                  (
                    ap (λ (x : Lsm). x.mem_table) cleared,
                    ap (λ (x : Lsm). x.immutables) cleared,
                    omega arith,
                    λ key. ap (find key) (sym gone) ∙ find-merged_puts key maps,
                  ))
          | inr some_ ↦
              let made = new_table (merged maps) e in
              let numbered : Lsm = record e {
                next_sequence = e.next_sequence + 1;
                files = made.1;
              } in
              let cleared = delete_table_files-eq numbered in
              let (sound, entries) =
                new_table-IsSound (merged maps) e
                  (collect_maps-Ascending (λ (x : Entry). x) maps ([], []) tt) in
              let same' = rw (many, some_) at same in
              rw (many, some_)
                (Replaced-Compacted e
                  (record (delete_table_files numbered) { tables = made.0 ∷ [] }) same'
                  (
                    ap (λ (x : Lsm). x.mem_table) cleared,
                    ap (λ (x : Lsm). x.immutables) cleared,
                    omega arith,
                    λ key.
                        or_else-none (find key made.0.entries)
                        ∙ ap (find key) entries
                        ∙ find-merged_puts key maps,
                  ))
        ]
      ]
