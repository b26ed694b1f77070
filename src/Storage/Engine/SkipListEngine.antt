-- ===== src/Storage/Engine/SkipListEngine.antt =====
-- `SkipListEngine` of storage/include/skiplist_engine.h as a `KVEngine`. Its state is `none` when it has
-- followed a wrong pointer.
use kv_raft_storage.Common.{
  ℕ, ◌+◌, ◌≡◌, refl, sym, ap, ◌∙◌, subst, Option, none, some, [], ◌>>=◌, if◌then◌else◌, Bytes,
  bytes_eq, List,
}
use kv_raft_storage.Storage.SortedMap.{find}
use kv_raft_storage.Storage.SortedMap.Erase.{find-erase}
use kv_raft_storage.Storage.SkipList.{
  SkipList, new_skip_list, search_element, insert_set_element, delete_element,
}
use kv_raft_storage.Storage.SkipList.Find.{IsList, pairs, search_element-find}
use kv_raft_storage.Storage.SkipList.Writes.{
  delete_element-erase, insert_set_element-written, new_skip_list-Shows,
}
use kv_raft_storage.Storage.SkipList.Dump.{DumpText, no_bytes, dump_lists, load_lists}
use kv_raft_storage.Storage.SkipList.Dump.Reload.{load_lists-dump_lists}
use kv_raft_storage.Storage.Engine.{KvEngine, IsMap}
use kv_raft_storage.Storage.Engine.Runs.{Request, answers, map_answers, answers-map_answers}

-- `drawn` levels were drawn so far.
pub record SkipListEngine : Type 0 where
  pub list : SkipList
  pub drawn : ℕ

-- `rand n` is the number of odd values before the first even one in the `n`th draw of a level.
module _ (rand : ℕ → ℕ) (text : DumpText) where
  abbrev pub new_engine : ℕ → Option SkipListEngine
  new_engine max_level = some (record { list = new_skip_list max_level; drawn = 0 })

  abbrev pub answer_of :
      SkipListEngine → Option (Option Bytes) → Option SkipListEngine × Option Bytes
  answer_of e none = (none, none)
  answer_of e (some value) = (some e, value)

  unfoldable pub skip_get : Bytes → Option SkipListEngine → Option SkipListEngine × Option Bytes
  skip_get key none = (none, none)
  skip_get key (some e) = answer_of e (search_element key e.list)

  unfoldable pub skip_put : Bytes → Bytes → Option SkipListEngine → Option SkipListEngine
  skip_put key value state = do
    e ← state
    list ← insert_set_element (rand e.drawn) key value e.list
    some (record { list = list; drawn = e.drawn + 1 })

  unfoldable pub skip_delete : Bytes → Option SkipListEngine → Option SkipListEngine
  skip_delete key state = do
    e ← state
    (list, _) ← delete_element key e.list
    some (record e { list = list })

  abbrev pub dumped : Option (List Bytes × List Bytes) → Bytes
  dumped none = []
  dumped (some (keys, values)) = text.write keys values

  unfoldable pub skip_snapshot : Option SkipListEngine → Bytes
  skip_snapshot none = []
  skip_snapshot (some e) = dumped (dump_lists e.list)

  abbrev pub read_lists : Bytes → Option (List Bytes × List Bytes)
  read_lists bytes = if no_bytes bytes then some ([], []) else text.read bytes

  abbrev pub loaded : List Bytes × List Bytes → SkipListEngine → Option SkipListEngine
  loaded lists e = do
    (list, drawn) ← load_lists rand e.drawn lists e.list
    some (record { list = list; drawn = drawn })

  -- `none` is an exception of the archive.
  unfoldable pub skip_restore : Bytes → Option SkipListEngine → Option (Option SkipListEngine)
  skip_restore bytes state = do lists ← read_lists bytes; some (state >>= loaded lists)

  abbrev pub skip_size : Option SkipListEngine → ℕ
  skip_size none = 0
  skip_size (some e) = e.list.count

  abbrev pub skip_list_engine : KvEngine (Option SkipListEngine)
  skip_list_engine = record {
    get = skip_get;
    put = skip_put;
    delete = skip_delete;
    snapshot = skip_snapshot;
    restore = skip_restore;
    size = skip_size;
  }

  abbrev pub IsWf : Option SkipListEngine → Type 0
  IsWf state = (e : SkipListEngine) × (state ≡ some e) × IsList e.list

  -- What a good engine answers.
  get_shows :
      (key : Bytes) (e : SkipListEngine) (w : IsList e.list)
      → skip_get key (some e) ≡ (some e, find key (pairs w.towers))
  unfolding skip_get
  get_shows key e w = ap (answer_of e) (search_element-find key e.list w)

  shown_at :
      (key : Bytes) (state : Option SkipListEngine) (w : IsWf state)
      → (skip_get key state).1 ≡ find key (pairs w.2.towers)
  shown_at key state (e, at, w) =
      ap (λ s. (skip_get key s).1) at
      ∙ ap (λ (r : Option SkipListEngine × Option Bytes). r.1) (get_shows key e w)

  put_shows :
      (key value : Bytes) (state : Option SkipListEngine) (w : IsWf state)
      → (w' : IsWf (skip_put key value state)) × ((j : Bytes)
          → (skip_get j (skip_put key value state)).1
            ≡ (if bytes_eq j key then some value else (skip_get j state).1))
  unfolding skip_put
  put_shows key value state (e, at, w) =
      let (out, step, w1, shows) = insert_set_element-written (rand e.drawn) key value e.list w in
      let e1 : SkipListEngine = record { list = out; drawn = e.drawn + 1 } in
      let done : skip_put key value state ≡ some e1 = rw (at, step) in
      (
        (e1, done, w1),
        λ j.
            shown_at j (skip_put key value state) (e1, done, w1)
            ∙ shows j
            ∙ ap (λ o. if bytes_eq j key then some value else o)
                (sym (shown_at j state (e, at, w))),
      )

  delete_shows :
      (key : Bytes) (state : Option SkipListEngine) (w : IsWf state)
      → (w' : IsWf (skip_delete key state)) × ((j : Bytes)
          → (skip_get j (skip_delete key state)).1
            ≡ (if bytes_eq j key then none else (skip_get j state).1))
  unfolding skip_delete
  delete_shows key state (e, at, w) =
      let (out, step, deleted) = delete_element-erase key e.list w in
      let (w1, shows) = deleted in
      let e1 : SkipListEngine = record e { list = out } in
      let done : skip_delete key state ≡ some e1 = rw (at, step) in
      (
        (e1, done, w1),
        λ j.
            shown_at j (skip_delete key state) (e1, done, w1)
            ∙ ap (find j) shows
            ∙ find-erase j key (pairs w.towers) w.sorted
            ∙ ap (λ o. if bytes_eq j key then none else o) (sym (shown_at j state (e, at, w))),
      )

  restore_shows :
      (state other : Option SkipListEngine)
      → (w : IsWf state) → IsWf other
      → (out : Option SkipListEngine) × (skip_restore (skip_snapshot state) other ≡ some out)
        × (w' : IsWf out) × ((j : Bytes) → (skip_get j out).1 ≡ (skip_get j state).1)
  unfolding skip_restore skip_snapshot
  restore_shows state other (e, at, w) (e2, at2, w2) =
      let (lists, dump, list, drawn, load, shows) =
        load_lists-dump_lists rand e2.drawn e.list e2.list w w2 in
      let (w3, shown) = shows in
      let (keys, values) = lists in
      let e3 : SkipListEngine = record { list = list; drawn = drawn } in
      let read : read_lists (skip_snapshot state) ≡ some lists =
        rw (at, dump, text.write_nonempty keys values) (text.read-write keys values) in
      let done : (other >>= loaded lists) ≡ some e3 = rw (at2, load) in
      (
        other >>= loaded lists,
        rw read,
        (e3, done, w3),
        λ j.
            shown_at j (other >>= loaded lists) (e3, done, w3)
            ∙ ap (find j) shown
            ∙ sym (shown_at j state (e, at, w)),
      )

  -- The skip list engine keeps the laws of the storage engines: from a good state no operation follows a
  -- wrong pointer or runs out of rounds, a `get` answers what the map at its key has, a `put` and a
  -- `delete` change the map at their key only, and a restored snapshot shows the map that it was taken of.
  pub skip_list_engine-IsMap : IsMap skip_list_engine
  unfolding skip_get
  skip_list_engine-IsMap = record {
    IsGood = IsWf;
    Fits = λ state. Unit {0};
    shows = λ state key. (skip_get key state).1;
    get_answers = λ key state w. refl;
    get_good = λ key state w. get_good key state w;
    get_keeps = λ key state w j. ap (λ s. (skip_get j s).1) (get_same key state w);
    put_good = λ key value state w. (put_shows key value state w).0;
    put_writes = λ key value state w. (put_shows key value state w).1;
    delete_good = λ key state w. (delete_shows key state w).0;
    delete_writes = λ key state w. (delete_shows key state w).1;
    restores = λ state other w f w_other. restore_shows state other w w_other;
  }
    where
      get_same :
          (key : Bytes) (state : Option SkipListEngine)
          → IsWf state
          → (skip_get key state).0 ≡ state
      get_same key state (e, at, w) =
          ap (λ s. (skip_get key s).0) at
          ∙ ap (λ (r : Option SkipListEngine × Option Bytes). r.0) (get_shows key e w)
          ∙ sym at

      get_good :
          (key : Bytes) (state : Option SkipListEngine) → IsWf state → IsWf (skip_get key state).0
      get_good key state w = subst IsWf (sym (get_same key state w)) w

  -- A new engine is good and shows nothing.
  pub new_engine-IsWf : (max_level : ℕ) → IsWf (new_engine max_level)
  new_engine-IsWf max_level = (
    record { list = new_skip_list max_level; drawn = 0 },
    refl,
    (new_skip_list-Shows max_level).0,
  )

  new_engine-shows : (max_level : ℕ) (key : Bytes) → (skip_get key (new_engine max_level)).1 ≡ none
  unfolding find
  new_engine-shows max_level key =
      let (w, shown) = new_skip_list-Shows max_level in
      shown_at key (new_engine max_level)
        (record { list = new_skip_list max_level; drawn = 0 }, refl, w)
      ∙ ap (find key) shown

  -- From a new engine on, any sequence of reads, writes and deletes is answered as a map answers it that
  -- was empty at first, whatever number of levels the list may have and whatever levels are drawn: the
  -- engine follows no wrong pointer, and its loops end.
  pub answers-new_engine :
      (max_level : ℕ) (requests : List Request)
      → answers skip_list_engine requests (new_engine max_level)
        ≡ map_answers requests (λ key. none)
  unfolding skip_list_engine-IsMap skip_get search_element
  answers-new_engine max_level requests =
      answers-map_answers skip_list_engine skip_list_engine-IsMap requests (new_engine max_level)
        (λ key. none) (new_engine-IsWf max_level) (new_engine-shows max_level)
