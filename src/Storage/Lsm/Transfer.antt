-- ===== src/Storage/Lsm/Transfer.antt =====
-- `Snapshot` of one engine, and `Restore` of it into another.
use kv_raft_storage.Storage.Layers.{Lsm, live, export_visible, snapshot, find_in_maps}
use kv_raft_storage.Common.{
  ◌^◌, ◌≤◌, ◌<◌, ◌≡◌, refl, sym, ap, ◌∙◌, inl, inr, Bool-cases, [], ◌∷◌, ◌++◌, Option, none, some,
  All, length, Bytes, bytes_eq, bytes_eq_iff, or_else, or_else-none, append_assoc, append-nil,
  length-append, arith,
}
use kv_raft_storage.Storage.SortedMap.{
  SortedMap, find, insert, Ascending, Behind-find, insert-Ascending, find-insert_self,
  find-insert_ne,
}
use kv_raft_storage.Storage.Codec.{Entry, put_entry, write_uint64, write_string}
use kv_raft_storage.Storage.Codec.RoundTrip.{
  read_uint64-write_uint64, read_string-write_string, length-write_uint64,
}
use kv_raft_storage.Storage.Files.{write_pairs, write_snapshot, read_pairs, read_snapshot}
use kv_raft_storage.Storage.Table.{Hasher}
use kv_raft_storage.Storage.Lsm.{
  get, restore, delete_table_files, rewrite_wal, rewrite_manifest, flush_if_needed,
}
use kv_raft_storage.Storage.Lsm.Sound.{IsWf, rewrite_wal-eq}
use kv_raft_storage.Storage.Lsm.Refine.{
  visible, Keeps, Keeps-trans, get-visible, with_files-IsWf, rewrite_manifest-Keeps,
  flush_if_needed-Keeps,
}
use kv_raft_storage.Storage.Lsm.Export.{export_visible-Ascending, find-export_visible}

-- Lengths that eight bytes can hold.
abbrev pub ShortPair : Bytes × Bytes → Type 0
ShortPair x = (length x.0 < 2 ^ 64) × (length x.1 < 2 ^ 64)

-- The pairs, inserted one after the other.
abbrev inserted : SortedMap Bytes → SortedMap Entry → SortedMap Entry
inserted [] restored = restored
inserted (x ∷ data_) restored = inserted data_ (insert x.0 (put_entry x.1) restored)

abbrev put_of : Option Bytes → Option Entry
put_of none = none
put_of (some value) = some (put_entry value)

inserted-Ascending :
    (data_ : SortedMap Bytes) (restored : SortedMap Entry)
    → Ascending restored
    → Ascending (inserted data_ restored)
inserted-Ascending [] restored a = a
inserted-Ascending (x ∷ data_) restored a =
    inserted-Ascending data_ (insert x.0 (put_entry x.1) restored)
      (insert-Ascending x.0 (put_entry x.1) restored a)

find-inserted :
    (key : Bytes) (data_ : SortedMap Bytes) (restored : SortedMap Entry)
    → Ascending data_
    → find key (inserted data_ restored) ≡ or_else (put_of (find key data_)) (find key restored)
unfolding find
find-inserted key [] restored a = refl
find-inserted key (x ∷ data_) restored a =
    find-inserted key data_ (insert x.0 (put_entry x.1) restored) a.1
    ∙ elim (Bool-cases (bytes_eq key x.0)) [
      | inl here ↦
          let same : key ≡ x.0 = (bytes_eq_iff key x.0).0 here in
          rw (here, same, Behind-find x.0 data_ a.0, find-insert_self x.0 (put_entry x.1) restored)
      | inr away ↦ rw (away, find-insert_ne key x.0 (put_entry x.1) restored away)
    ]

read_pairs-write_pairs :
    (data_ : SortedMap Bytes) (rest : Bytes) (restored : SortedMap Entry)
    → All ShortPair data_
    → read_pairs (length data_) (write_pairs data_ ++ rest) restored
      ≡ some (inserted data_ restored, rest)
unfolding read_pairs write_pairs
read_pairs-write_pairs [] rest restored s = refl
read_pairs-write_pairs (x ∷ data_) rest restored s =
    let tail = write_pairs data_ ++ rest in
    rw
      (
        append_assoc (write_string x.0) (write_string x.1 ++ write_pairs data_) rest
            ∙ ap (λ l. write_string x.0 ++ l)
                (append_assoc (write_string x.1) (write_pairs data_) rest),
        read_string-write_string x.0 (write_string x.1 ++ tail) s.0.0,
        read_string-write_string x.1 tail s.0.1,
      )
      (read_pairs-write_pairs data_ rest (insert x.0 (put_entry x.1) restored) s.1)

read_snapshot-write_snapshot :
    (data_ : SortedMap Bytes)
    → length data_ < 2 ^ 64
    → All ShortPair data_
    → read_snapshot (write_snapshot data_) ≡ some (inserted data_ [])
unfolding read_snapshot write_snapshot
read_snapshot-write_snapshot data_ few s =
    let pairs =
      ap (λ l. read_pairs (length data_) l []) (sym (append-nil (write_pairs data_)))
      ∙ read_pairs-write_pairs data_ [] [] s in
    rw (read_uint64-write_uint64 (length data_) (write_pairs data_) few, pairs) refl

module _ ⦃hasher : Hasher⦄ where
  -- The engine that holds the restored entries only.
  emptied : SortedMap Entry → Lsm → Lsm
  emptied restored e = record (delete_table_files e) {
    mem_table = restored;
    immutables = [];
    tables = [];
  }

  restore-read :
      (input : Bytes) (restored : SortedMap Entry) (e : Lsm)
      → 1 ≤ length input
      → read_snapshot input ≡ some restored
      → restore input e
        ≡ some (flush_if_needed (rewrite_manifest (rewrite_wal (emptied restored e))))
  unfolding restore emptied
  restore-read [] restored e h r = absurd (omega arith)
  restore-read (c ∷ input) restored e h r = rw r

  emptied-IsWf :
      (restored : SortedMap Entry) (e : Lsm) → Ascending restored → IsWf (emptied restored e)
  unfolding emptied
  emptied-IsWf restored e a = record { mem_ascends = a; immutables_ascend = tt; tables_sound = tt }

  emptied-visible :
      (key : Bytes) (restored : SortedMap Entry) (e : Lsm)
      → visible key (emptied restored e) ≡ find key restored
  unfolding emptied find_in_maps
  emptied-visible key restored e = or_else-none (find key restored)

  rewrite_wal-Keeps : (e : Lsm) → IsWf e → Keeps e (rewrite_wal e)
  rewrite_wal-Keeps e w =
      rw (rewrite_wal-eq e) (record { wf = with_files-IsWf w; shows = λ key. refl })

  emptied-Keeps : (e : Lsm) → IsWf e → Keeps e (flush_if_needed (rewrite_manifest (rewrite_wal e)))
  emptied-Keeps e w =
      let k = rewrite_wal-Keeps e w in
      let l = rewrite_manifest-Keeps (rewrite_wal e) k.wf in
      Keeps-trans (Keeps-trans k l) (flush_if_needed-Keeps (rewrite_manifest (rewrite_wal e)) l.wf)

  live-put_of : (o : Option Bytes) → live (or_else (put_of o) none) ≡ o
  unfolding live
  live-put_of none = refl
  live-put_of (some value) = refl

  length-write_snapshot : (data_ : SortedMap Bytes) → 1 ≤ length (write_snapshot data_)
  unfolding write_snapshot
  length-write_snapshot data_ = omega (
    arith,
    length-append (write_uint64 (length data_)) (write_pairs data_),
    length-write_uint64 (length data_),
  )

  -- A snapshot of a well-formed engine, whose visible data has fewer than 2^64 pairs and shorter
  -- keys and values than 2^64 bytes, is restored without an exception into any engine, whatever
  -- that held: the result is well formed and returns for every key what the first engine returns.
  pub restore-snapshot :
      (e other : Lsm)
      → IsWf e
      → length (export_visible e) < 2 ^ 64
      → All ShortPair (export_visible e)
      → (out : Lsm) × (restore (snapshot e) other ≡ some out)
        × IsWf out
        × ((key : Bytes) → get key out ≡ get key e)
  unfolding snapshot find
  restore-snapshot e other w few s =
      let data_ = export_visible e in
      let ascend = export_visible-Ascending e in
      let restored = inserted data_ [] in
      let base = emptied restored other in
      let k = emptied-Keeps base (emptied-IsWf restored other (inserted-Ascending data_ [] tt)) in
      (
        flush_if_needed (rewrite_manifest (rewrite_wal base)),
        restore-read (write_snapshot data_) restored other (length-write_snapshot data_)
            (read_snapshot-write_snapshot data_ few s),
        k.wf,
        λ key.
            get-visible key _ k.wf
            ∙ ap live (
                k.shows key
                ∙ emptied-visible key restored other
                ∙ find-inserted key data_ [] ascend)
            ∙ live-put_of (find key data_)
            ∙ find-export_visible key e
            ∙ sym (get-visible key e w),
      )
