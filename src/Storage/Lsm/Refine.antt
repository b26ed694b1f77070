-- ===== src/Storage/Lsm/Refine.antt =====
-- `Put`, `Delete`, flushing and rotating of `LSMTreeEngine`, against `Get`.
use kv_raft_storage.Storage.Layers.{Lsm, layers, table_maps, find_in_maps, live}
use kv_raft_storage.Common.{
  ◌+◌, ◌≡◌, refl, sym, ap, subst, ◌∙◌, inl, inr, Bool, true, false, List, [], ◌∷◌, ◌++◌, Option,
  none, some, All, map, reverse, is_empty, length, leb, if◌then◌else◌, Bytes, bytes_eq,
  bytes_eq_iff, append_assoc, reverse-append, Bool-cases, All-append,
}
use kv_raft_storage.Storage.SortedMap.{
  SortedMap, find, insert, Ascending, insert-Ascending, find-insert_self, find-insert_ne,
}
use kv_raft_storage.Storage.Codec.{Entry, put_entry, delete_entry, put_type, delete_type}
use kv_raft_storage.Storage.Table.{Hasher, SsTable}
use kv_raft_storage.Storage.Lsm.{
  get, rewrite_manifest, append_wal, rotate, new_table, flush_each, flush_immutables, flush,
  flush_if_needed, put, delete,
}
use kv_raft_storage.Storage.Lsm.Sound.{
  IsSound, IsWf, new_table-IsSound, find_entry-eq, with_files, rewrite_manifest-eq, append_wal-eq,
}

-- The newest entry of a key.
abbrev pub visible : Bytes → Lsm → Option Entry
visible key e = find_in_maps key (layers e)

module _ ⦃hasher : Hasher⦄ where
  -- `e'` is well formed, and shows the entries of `e`.
  pub record Keeps (e e' : Lsm) : Type 0 where
    pub wf : IsWf e'
    pub shows : (key : Bytes) → visible key e' ≡ visible key e

  pub Keeps-trans : {a b c : Lsm} → Keeps a b → Keeps b c → Keeps a c
  Keeps-trans k l = record { wf = l.wf; shows = λ key. l.shows key ∙ k.shows key }

  pub Keeps-refl : {e : Lsm} → IsWf e → Keeps e e
  Keeps-refl w = record { wf = w; shows = λ key. refl }

  pub if-Keeps : {e a b : Lsm} (c : Bool) → Keeps e a → Keeps e b → Keeps e (if c then a else b)
  if-Keeps true k l = k
  if-Keeps false k l = l

  pub get-visible : (key : Bytes) (e : Lsm) → IsWf e → get key e ≡ live (visible key e)
  unfolding get
  get-visible key e w = ap live (find_entry-eq key e w)

  pub with_files-IsWf : {files : SortedMap Bytes} {e : Lsm} → IsWf e → IsWf (with_files files e)
  with_files-IsWf w = assumption

  pub rewrite_manifest-Keeps : (e : Lsm) → IsWf e → Keeps e (rewrite_manifest e)
  rewrite_manifest-Keeps e w =
      rw (rewrite_manifest-eq e) (record { wf = with_files-IsWf w; shows = λ key. refl })

  rotate-Keeps : (e : Lsm) → IsWf e → Keeps e (rotate e)
  unfolding rotate find_in_maps find
  rotate-Keeps e w = elim (Bool-cases (is_empty e.mem_table)) [
    | inl nothing ↦ rw nothing (Keeps-refl w)
    | inr some_ ↦ rw some_ (record {
      wf = record {
        mem_ascends = tt;
        immutables_ascend =
            All-append Ascending e.immutables (e.mem_table ∷ []) w.immutables_ascend
              (w.mem_ascends, tt);
        tables_sound = w.tables_sound;
      };
      shows = λ key. rw (reverse-append e.immutables e.mem_table);
    })
  ]

  -- One round of the loop that flushes.
  abbrev flushed : SortedMap Entry → List (SortedMap Entry) → Lsm → Lsm
  flushed entries rest e =
      let made = new_table entries e in
      record e {
        immutables = rest;
        next_sequence = e.next_sequence + 1;
        tables = e.tables ++ made.0 ∷ [];
        files = made.1;
      }

  flushed-layers :
      (entries : SortedMap Entry) (rest : List (SortedMap Entry)) (e : Lsm)
      → e.immutables ≡ entries ∷ rest
      → (new_table entries e).0.entries ≡ entries
      → layers (flushed entries rest e) ≡ layers e
  flushed-layers entries rest e im made =
      ap (λ l. e.mem_table ∷ l)
        (ap (λ ts. reverse rest ++ map (λ (t : SsTable). t.entries) ts)
            (reverse-append e.tables (new_table entries e).0)
          ∙ ap (λ m. reverse rest ++ m ∷ table_maps e.tables) made
          ∙ sym (append_assoc (reverse rest) (entries ∷ []) (table_maps e.tables))
          ∙ ap (λ ms. reverse ms ++ table_maps e.tables) (sym im))

  flush_each-Keeps :
      (pending : List (SortedMap Entry)) (e : Lsm)
      → IsWf e
      → e.immutables ≡ pending
      → Keeps e (flush_each pending e)
  unfolding flush_each
  flush_each-Keeps [] e w im = Keeps-refl w
  flush_each-Keeps (entries ∷ rest) e w im =
      let ascend = subst (All Ascending) im w.immutables_ascend in
      let (sound, same) = new_table-IsSound entries e ascend.0 in
      let step : Keeps e (flushed entries rest e) = record {
        wf = record {
          mem_ascends = w.mem_ascends;
          immutables_ascend = ascend.1;
          tables_sound =
              All-append IsSound e.tables ((new_table entries e).0 ∷ []) w.tables_sound (sound, tt);
        };
        shows = λ key. ap (find_in_maps key) (flushed-layers entries rest e im same);
      } in
      let noted = rewrite_manifest-Keeps (flushed entries rest e) step.wf in
      let rest_ =
        flush_each-Keeps rest (rewrite_manifest (flushed entries rest e)) noted.wf
          (ap (λ (x : Lsm). x.immutables) (rewrite_manifest-eq (flushed entries rest e))) in
      Keeps-trans (Keeps-trans step noted) rest_

  pub flush-Keeps : (e : Lsm) → IsWf e → Keeps e (flush e)
  unfolding flush flush_immutables
  flush-Keeps e w =
      let r = rotate-Keeps e w in
      Keeps-trans r (flush_each-Keeps (rotate e).immutables (rotate e) r.wf refl)

  pub flush_if_needed-Keeps : (e : Lsm) → IsWf e → Keeps e (flush_if_needed e)
  unfolding flush_if_needed
  flush_if_needed-Keeps e w =
      let k = rotate-Keeps e w in
      if-Keeps (leb e.flush_threshold (length e.mem_table))
        (if-Keeps e.async_flush (record { wf = (let v = k.wf in assumption); shows = k.shows })
          (flush-Keeps e w))
        (Keeps-refl w)

  -- Both writers put one entry into the memtable and flush if it is full.
  write-Keeps :
      (key : Bytes) (entry : Entry) (e : Lsm)
      → IsWf e
      → Keeps
          (record e { mem_table = insert key entry e.mem_table })
          (flush_if_needed (record e { mem_table = insert key entry e.mem_table }))
  write-Keeps key entry e w =
      flush_if_needed-Keeps (record e { mem_table = insert key entry e.mem_table })
        (record {
          mem_ascends = insert-Ascending key entry e.mem_table w.mem_ascends;
          immutables_ascend = w.immutables_ascend;
          tables_sound = w.tables_sound;
        })

  -- The entry that is shown at `j` once `key` is written.
  pub write-visible :
      (j key : Bytes) (entry : Entry) (e : Lsm)
      → IsWf e
      → IsWf (flush_if_needed (record e { mem_table = insert key entry e.mem_table }))
        × (visible j (flush_if_needed (record e { mem_table = insert key entry e.mem_table }))
            ≡ (if bytes_eq j key then some entry else visible j e))
  unfolding find_in_maps
  write-visible j key entry e w =
      let k = write-Keeps key entry e w in
      (
        k.wf,
        k.shows j ∙ elim (Bool-cases (bytes_eq j key)) [
          | inl here ↦
              let same : j ≡ key = (bytes_eq_iff j key).0 here in
              rw (here, same, find-insert_self key entry e.mem_table)
          | inr away ↦ rw (away, find-insert_ne j key entry e.mem_table away)
        ],
      )

  pub live-if :
      (b : Bool) (o p : Option Entry) → live (if b then o else p) ≡ (if b then live o else live p)
  live-if true o p = refl
  live-if false o p = refl

  -- On a well-formed engine `Put` gives a well-formed engine in which the key has the value and every
  -- other key what it had, whether or not the memtable was flushed or rotated.
  pub get-put :
      (j key value : Bytes) (e : Lsm)
      → IsWf e
      → IsWf (put key value e)
        × (get j (put key value e) ≡ (if bytes_eq j key then some value else get j e))
  unfolding put live
  get-put j key value e w =
      let e' = append_wal put_type key value e in
      let same = append_wal-eq put_type key value e in
      let (wf, shown) =
        write-visible j key (put_entry value) (with_files e'.files e) (with_files-IsWf w) in
      rw same (
        wf,
        get-visible j _ wf
            ∙ ap live shown
            ∙ live-if (bytes_eq j key) (some (put_entry value)) (visible j e)
            ∙ ap (λ o. if bytes_eq j key then some value else o) (sym (get-visible j e w)),
      )

  -- On a well-formed engine `Delete` gives a well-formed engine in which the key is absent and every
  -- other key has what it had.
  pub get-delete :
      (j key : Bytes) (e : Lsm)
      → IsWf e
      → IsWf (delete key e) × (get j (delete key e) ≡ (if bytes_eq j key then none else get j e))
  unfolding delete live
  get-delete j key e w =
      let e' = append_wal delete_type key [] e in
      let same = append_wal-eq delete_type key [] e in
      let (wf, shown) =
        write-visible j key delete_entry (with_files e'.files e) (with_files-IsWf w) in
      rw same (
        wf,
        get-visible j _ wf
            ∙ ap live shown
            ∙ live-if (bytes_eq j key) (some delete_entry) (visible j e)
            ∙ ap (λ o. if bytes_eq j key then none else o) (sym (get-visible j e w)),
      )
