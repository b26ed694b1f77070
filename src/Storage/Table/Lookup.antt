-- ===== src/Storage/Table/Lookup.antt =====
-- `MayContain` and `FindInIndexedBlock` together, on a table with rebuilt metadata.
use kv_raft_storage.Common.{
  ◌≡◌, refl, sym, inl, inr, true, false, ◌&&◌, if◌then◌else◌, [], ◌∷◌, none, length, Bytes, arith,
  Bool-cases, Option-cases,
}
use kv_raft_storage.Storage.KeyOrder.{
  key_le, key_lt, key_lt_irrefl, key_le-lt, key_lt-le, key_lt-ne_sym,
}
use kv_raft_storage.Storage.SortedMap.{SortedMap, find, Ascending, Behind-find, Behind-trans}
use kv_raft_storage.Storage.Codec.{Entry}
use kv_raft_storage.Storage.Table.{
  Hasher, SsTable, last_key, bloom_may_contain, add_bloom_keys, build_blocks, metadata_of,
  rebuild_metadata, may_contain, find_in_table, find_in_blocks,
}
use kv_raft_storage.Storage.Table.Blocks.{find_in_blocks-eq}
use kv_raft_storage.Storage.Table.Bloom.{bloom_may_contain-add_bloom_keys}

-- The last key is not before the first.
last_key-not_before :
    (x : Bytes × Entry) (items : SortedMap Entry)
    → Ascending (x ∷ items)
    → key_lt (last_key x.0 items) x.0 ≡ false
unfolding last_key
last_key-not_before x [] a = key_lt_irrefl x.0
last_key-not_before x (y ∷ items) a =
    key_lt-le x.0 y.0 (last_key y.0 items) a.0.0 (last_key-not_before y items a.1)

past_last :
    (key : Bytes) (x : Bytes × Entry) (items : SortedMap Entry)
    → Ascending (x ∷ items)
    → key_lt (last_key x.0 items) key ≡ true
    → find key (x ∷ items) ≡ none
unfolding last_key find
past_last key x [] a h = rw (key_lt-ne_sym x.0 key h)
past_last key x (y ∷ items) a h =
    let behind = key_le-lt x.0 (last_key y.0 items) key (last_key-not_before x (y ∷ items) a) h in
    rw (key_lt-ne_sym x.0 key behind) (past_last key y items a.1 h)

module _ ⦃hasher : Hasher⦄ where
  -- The bounds, the filter and the blocks that are built from ascending entries.
  search-eq :
      (key : Bytes) (x : Bytes × Entry) (items : SortedMap Entry)
      → Ascending (x ∷ items)
      → (if key_le x.0 key
            && key_le key (last_key x.0 items)
            && bloom_may_contain key (add_bloom_keys (x ∷ items) [])
          then find_in_blocks key (build_blocks (length (x ∷ items)) (x ∷ items))
          else none)
        ≡ find key (x ∷ items)
  search-eq key x items a = elim (Bool-cases (key_lt key x.0)) [
    | inl before ↦
        rw before
          (sym (Behind-find key (x ∷ items) (before, Behind-trans key x.0 items before a.0)))
    | inr from ↦ elim (Bool-cases (key_lt (last_key x.0 items) key)) [
      | inl past ↦ rw (from, past) (sym (past_last key x items a past))
      | inr upto ↦ elim (Option-cases (find key (x ∷ items))) [
        | inl absent ↦ elim (Bool-cases (bloom_may_contain key (add_bloom_keys (x ∷ items) []))) [
          | inl maybe ↦ rw (from, upto, maybe) blocks
          | inr clear ↦ rw (from, upto, clear) (sym absent)
        ]
        | inr (e, found) ↦
            rw (from, upto, bloom_may_contain-add_bloom_keys key (x ∷ items) found) blocks
      ]
    ]
  ]
    where
      blocks :
          find_in_blocks key (build_blocks (length (x ∷ items)) (x ∷ items)) ≡ find key (x ∷ items)
      blocks = find_in_blocks-eq (length (x ∷ items)) key (x ∷ items) a (omega arith)

  metadata_of-eq :
      (key : Bytes) (entries : SortedMap Entry) (table : SsTable)
      → table.entries ≡ entries
      → Ascending entries
      → find_in_table key (metadata_of entries table) ≡ find key entries
  unfolding find_in_table may_contain metadata_of find
  metadata_of-eq key [] table e a = rw e
  metadata_of-eq key (x ∷ items) table e a = rw e (search-eq key x items a)

  -- For a table whose metadata was rebuilt from its entries in ascending order, a lookup through
  -- the bounds, the Bloom filter and the index of blocks gives exactly what the entries hold at the
  -- key, whatever the hash function is: no entry is missed, and none is made up.
  pub find_in_table-rebuild_metadata :
      (key : Bytes) (table : SsTable)
      → Ascending table.entries
      → find_in_table key (rebuild_metadata table) ≡ find key table.entries
  unfolding rebuild_metadata
  find_in_table-rebuild_metadata key table a = metadata_of-eq key table.entries table refl a
