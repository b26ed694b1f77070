-- ===== src/Storage/Lsm/Compact.antt =====
-- `Compact` and the background worker of `LSMTreeEngine`, against `Get`.
use kv_raft_storage.Storage.Layers.{
  Lsm, table_maps, find_in_maps, live, is_seen, is_put, collect_item, collect_items, collect_maps,
}
use kv_raft_storage.Common.{
  ◌+◌, ◌≡◌, refl, sym, ap, subst, ◌∙◌, inl, inr, Bool, true, false, List, [], ◌∷◌, ◌++◌, Option,
  none, some, All, reverse, is_empty, length, leb, ltb, if◌then◌else◌, Bytes, or_else, or_else-none,
  Bool-cases,
}
use kv_raft_storage.Storage.SortedMap.{SortedMap, find, Ascending, insert-Ascending}
use kv_raft_storage.Storage.Codec.{Entry, EntryType, put_type, delete_type}
use kv_raft_storage.Storage.Table.{Hasher}
use kv_raft_storage.Storage.Lsm.{
  get, find_entry, rewrite_manifest, delete_table_files, new_table, flush, compact,
  background_round,
}
use kv_raft_storage.Storage.Lsm.Collect.{kept_of, flatten, find-collect_maps}
use kv_raft_storage.Storage.Lsm.Sound.{
  IsSound, IsWf, new_table-IsSound, find_in_maps-append, delete_table_files-eq,
}
use kv_raft_storage.Storage.Lsm.Refine.{Keeps, get-visible, flush-Keeps, rewrite_manifest-Keeps}

-- The newest puts of the maps, as one map.
abbrev pub merged : List (SortedMap Entry) → SortedMap Entry
merged maps = (collect_maps (λ (x : Entry). x) maps ([], [])).0

collect_item-Ascending :
    {A : Type 0} (keep : Entry → A) (x : Bytes × Entry) (acc : SortedMap A × SortedMap Bool)
    → Ascending acc.0
    → Ascending (collect_item keep x acc).0
unfolding collect_item
collect_item-Ascending keep x (result, seen) a = elim (Bool-cases (is_seen x.0 seen)) [
  | inl known ↦ rw known a
  | inr fresh ↦ elim (Bool-cases (is_put x.1)) [
    | inl p ↦ rw (fresh, p) (insert-Ascending x.0 (keep x.1) result a)
    | inr d ↦ rw (fresh, d) a
  ]
]

collect_items-Ascending :
    {A : Type 0} (keep : Entry → A) (items : SortedMap Entry) (acc : SortedMap A × SortedMap Bool)
    → Ascending acc.0
    → Ascending (collect_items keep items acc).0
unfolding collect_items
collect_items-Ascending keep [] acc a = a
collect_items-Ascending keep (x ∷ items) acc a =
    collect_items-Ascending keep items (collect_item keep x acc)
      (collect_item-Ascending keep x acc a)

-- What is collected is in ascending order.
pub collect_maps-Ascending :
    {A : Type 0} (keep : Entry → A) (maps : List (SortedMap Entry))
    (acc : SortedMap A × SortedMap Bool)
    → Ascending acc.0
    → Ascending (collect_maps keep maps acc).0
unfolding collect_maps
collect_maps-Ascending keep [] acc a = a
collect_maps-Ascending keep (m ∷ maps) acc a =
    collect_maps-Ascending keep maps (collect_items keep m acc)
      (collect_items-Ascending keep m acc a)

pub is_empty-nil : (m : SortedMap Entry) → is_empty m ≡ true → m ≡ []
is_empty-nil [] h = refl
is_empty-nil (x ∷ m) h = absurd (cc)

live-merged : (o : Option Entry) → live (flatten (kept_of (λ (x : Entry). x) o)) ≡ live o
unfolding live
live-merged none = refl
live-merged (some e) = by_type e.entry_type e refl
  where
    by_type :
        (t : EntryType) (e : Entry)
        → e.entry_type ≡ t
        → live (flatten (kept_of (λ (x : Entry). x) (some e))) ≡ live (some e)
    by_type put_type e h = rw h refl
    by_type delete_type e h = rw h refl

live-or_else : (o p q : Option Entry) → live p ≡ live q → live (or_else o p) ≡ live (or_else o q)
live-or_else none p q h = h
live-or_else (some e) p q h = refl

module _ ⦃hasher : Hasher⦄ where
  -- `e'` is well formed and returns what `e` returns.
  pub record SameReads (e e' : Lsm) : Type 0 where
    pub wf : IsWf e'
    pub reads : (key : Bytes) → get key e' ≡ get key e

  pub Keeps-SameReads : {e e' : Lsm} → IsWf e → Keeps e e' → SameReads e e'
  Keeps-SameReads {e} {e'} w k = record {
    wf = k.wf;
    reads = λ key. get-visible key e' k.wf ∙ ap live (k.shows key) ∙ sym (get-visible key e w);
  }

  pub SameReads-trans : {a b c : Lsm} → SameReads a b → SameReads b c → SameReads a c
  SameReads-trans k l = record { wf = l.wf; reads = λ key. l.reads key ∙ k.reads key }

  -- Replacing the tables by sound ones that show the same live values.
  replaced-SameReads :
      (e e' : Lsm)
      → IsWf e
      → e'.mem_table ≡ e.mem_table
      → e'.immutables ≡ e.immutables
      → All IsSound e'.tables
      → ((key : Bytes)
          → live (find_in_maps key (table_maps e'.tables))
            ≡ live (find_in_maps key (table_maps e.tables)))
      → SameReads e e'
  unfolding find_in_maps
  replaced-SameReads e e' w mem im sound same = record {
    wf = wf;
    reads = λ key.
        get-visible key e' wf
        ∙ ap live (
            ap
              (λ m.
                or_else (find key m)
                  (find_in_maps key (reverse e'.immutables ++ table_maps e'.tables)))
              mem
            ∙ ap
                (λ ms.
                  or_else (find key e.mem_table)
                    (find_in_maps key (reverse ms ++ table_maps e'.tables)))
                im)
        ∙ live-or_else (find key e.mem_table) _ _ (
            ap live (find_in_maps-append key (reverse e.immutables) (table_maps e'.tables))
            ∙ live-or_else (find_in_maps key (reverse e.immutables)) _ _ (same key)
            ∙ ap live (sym (find_in_maps-append key (reverse e.immutables) (table_maps e.tables))))
        ∙ sym (get-visible key e w);
  }
    where
      wf : IsWf e'
      wf = record {
        mem_ascends = subst Ascending (sym mem) w.mem_ascends;
        immutables_ascend = subst (All Ascending) (sym im) w.immutables_ascend;
        tables_sound = sound;
      }

  find-merged :
      (key : Bytes) (maps : List (SortedMap Entry))
      → live (find key (merged maps)) ≡ live (find_in_maps key maps)
  find-merged key maps =
      ap live (find-collect_maps (λ (x : Entry). x) key maps) ∙ live-merged (find_in_maps key maps)

  -- All tables dropped, where they show nothing live.
  dropped-SameReads :
      (e : Lsm)
      → IsWf e
      → merged (table_maps e.tables) ≡ []
      → SameReads e (rewrite_manifest (record (delete_table_files e) { tables = [] }))
  unfolding find find_in_maps
  dropped-SameReads e w nothing =
      let e' : Lsm = record (delete_table_files e) { tables = [] } in
      let k =
        replaced-SameReads e e' w (ap (λ (x : Lsm). x.mem_table) (delete_table_files-eq e))
          (ap (λ (x : Lsm). x.immutables) (delete_table_files-eq e)) tt
          (λ key.
            ap (λ m. live (find key m)) (sym nothing) ∙ find-merged key (table_maps e.tables)) in
      SameReads-trans k (Keeps-SameReads k.wf (rewrite_manifest-Keeps e' k.wf))

  -- All tables replaced by one with their newest puts.
  single-SameReads :
      (e e' : Lsm)
      → IsWf e
      → e'.mem_table ≡ e.mem_table
      → e'.immutables ≡ e.immutables
      → e'.tables ≡ (new_table (merged (table_maps e.tables)) e).0 ∷ []
      → SameReads e (rewrite_manifest e')
  unfolding find_in_maps
  single-SameReads e e' w mem im one =
      let maps = table_maps e.tables in
      let (sound, made) =
        new_table-IsSound (merged maps) e
          (collect_maps-Ascending (λ (x : Entry). x) maps ([], []) tt) in
      let k = replaced-SameReads e e' w mem im (subst (All IsSound) (sym one) (sound, tt)) (λ key.
        ap (λ ts. live (find_in_maps key (table_maps ts))) one
        ∙ ap live (or_else-none (find key (new_table (merged maps) e).0.entries))
        ∙ ap (λ m. live (find key m)) made
        ∙ find-merged key maps) in
      SameReads-trans k (Keeps-SameReads k.wf (rewrite_manifest-Keeps e' k.wf))

  -- `Compact` on a well-formed engine gives a well-formed engine and changes the result of no `Get`.
  pub compact-SameReads : (e : Lsm) → IsWf e → SameReads e (compact e)
  unfolding compact
  compact-SameReads e w = elim (Bool-cases (leb (length e.tables) 1)) [
    | inl few ↦ rw few (record { wf = w; reads = λ key. refl })
    | inr many ↦ elim (Bool-cases (is_empty (merged (table_maps e.tables)))) [
      | inl nothing ↦
          rw (many, nothing)
            (dropped-SameReads e w (is_empty-nil (merged (table_maps e.tables)) nothing))
      | inr some_ ↦
          let made = new_table (merged (table_maps e.tables)) e in
          let numbered : Lsm = record e { next_sequence = e.next_sequence + 1; files = made.1 } in
          let cleared = delete_table_files-eq numbered in
          rw (many, some_)
            (single-SameReads e (record (delete_table_files numbered) { tables = made.0 ∷ [] }) w
              (ap (λ (x : Lsm). x.mem_table) cleared) (ap (λ (x : Lsm). x.immutables) cleared) refl)
    ]
  ]

  if-SameReads :
      {e a b : Lsm} (c : Bool) → SameReads e a → SameReads e b → SameReads e (if c then a else b)
  if-SameReads true k l = k
  if-SameReads false k l = l

  woken-IsWf : (e : Lsm) → IsWf e → IsWf (record e { work_pending = false })
  woken-IsWf e w = assumption

  woken-get : (key : Bytes) (e : Lsm) → get key (record e { work_pending = false }) ≡ get key e
  unfolding get find_entry
  woken-get key e = refl

  -- A round of the background worker changes the result of no `Get`.
  pub background_round-SameReads : (e : Lsm) → IsWf e → SameReads e (background_round e)
  unfolding background_round
  background_round-SameReads e w =
      let woken : Lsm = record e { work_pending = false } in
      let f = Keeps-SameReads (woken-IsWf e w) (flush-Keeps woken (woken-IsWf e w)) in
      let f' : SameReads e (flush woken) = record {
        wf = f.wf;
        reads = λ key. f.reads key ∙ woken-get key e;
      } in
      if-SameReads (ltb 1 (length (flush woken).tables))
        (SameReads-trans f' (compact-SameReads (flush woken) f.wf)) f'
