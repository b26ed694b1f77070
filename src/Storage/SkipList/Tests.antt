-- ===== src/Storage/SkipList/Tests.antt =====
-- Runs of the skip list, and the theorems at a list of one key.
use kv_raft_storage.Common.{
  zero, suc, Option, none, length, ◌%◌, ◌>>=◌, ℕ, ◌≡◌, refl, sym, ap, ◌∙◌, subst, true, List, [],
  ◌∷◌, none, some, some_inj, Bytes, bytes_eq,
}
use kv_raft_storage.Storage.KeyOrder.{key_lt}
use kv_raft_storage.Storage.SortedMap.{find, erase}
use kv_raft_storage.Storage.Engine.{SameMap, written}
use kv_raft_storage.Storage.SkipList.{
  SkipList, new_skip_list, node_at, forward_at, set_forward, walk, descend, locate, search_element,
  get_random_level, link, insert_new, insert_element, unlink_levels, lower_level, delete_element,
  insert_set_element,
}
use kv_raft_storage.Storage.SkipList.Find.{IsList, pairs, search_element-find}
use kv_raft_storage.Storage.SkipList.Writes.{
  Shows, kept, code_of, present, new_skip_list-Shows, insert_element-insert, delete_element-erase,
  insert_set_element-written,
}
use kv_raft_storage.Storage.Packed.{pack, unpack, unpack-pack}
use kv_raft_storage.Storage.Engine.Runs.{get_at, put_at, delete_at, answers, map_answers}
use kv_raft_storage.Storage.Engine.SkipListEngine.{new_engine, skip_list_engine, answers-new_engine}
use kv_raft_storage.Storage.SkipList.Dump.{DumpText, dump_lists, collect, load_lists}
use kv_raft_storage.Storage.SkipList.Dump.Reload.{load_lists-dump_lists}

abbrev apple : Bytes
apple = 97 ∷ []

abbrev berry : Bytes
berry = 98 ∷ []

-- A list with the key `apple` on two levels.
abbrev one : SkipList
one = record {
  max_level = 2;
  level = 1;
  count = 1;
  nodes =
      some (record { key = []; value = []; forward = some 1 ∷ some 1 ∷ none ∷ [] })
      ∷ some (record { key = apple; value = berry; forward = none ∷ none ∷ [] })
      ∷ [];
}

one_made : insert_element 0 apple berry (new_skip_list 2) ≡ some (one, 0)
unfolding insert_element locate descend walk forward_at node_at set_forward insert_new link
    get_random_level new_skip_list
one_made = refl

one_searched : search_element apple one ≡ some (some berry)
unfolding search_element locate descend walk forward_at node_at key_lt bytes_eq
one_searched = refl

one_missed : search_element berry one ≡ some none
unfolding search_element locate descend walk forward_at node_at key_lt bytes_eq
one_missed = refl

-- A deletion takes the node out of both levels and lowers the level of the list.
one_deleted :
    delete_element apple one
    ≡ some (
      record {
        max_level = 2;
        level = 0;
        count = 0;
        nodes =
            some (record { key = []; value = []; forward = none ∷ none ∷ none ∷ [] }) ∷ none ∷ [];
      },
      true,
    )
unfolding delete_element locate descend walk forward_at node_at set_forward unlink_levels
    lower_level key_lt bytes_eq
one_deleted = refl

one_dumped : dump_lists one ≡ some (apple ∷ [], berry ∷ [])
unfolding dump_lists collect forward_at node_at
one_dumped = refl

one-IsList : IsList one
one-IsList =
    let (out, e, shows) =
      insert_element-insert 0 apple berry (new_skip_list 2) (new_skip_list-Shows 2).0 in
    subst IsList (ap (λ (r : SkipList × ℕ). r.0) (some_inj (sym e ∙ one_made))) shows.0

search_element-find_example : search_element apple one ≡ some (find apple (pairs one-IsList.towers))
search_element-find_example = search_element-find apple one one-IsList

insert_element-insert_example :
    (out : SkipList) × (insert_element 1 berry apple one
      ≡ some (out, code_of (find berry (pairs one-IsList.towers))))
    × Shows out (kept (find berry (pairs one-IsList.towers)) berry apple (pairs one-IsList.towers))
insert_element-insert_example = insert_element-insert 1 berry apple one one-IsList

delete_element-erase_example :
    (out : SkipList) × (delete_element apple one
      ≡ some (out, present (find apple (pairs one-IsList.towers))))
    × Shows out (erase apple (pairs one-IsList.towers))
delete_element-erase_example = delete_element-erase apple one one-IsList

insert_set_element-written_example :
    (out : SkipList) × (insert_set_element 5 apple apple one ≡ some out)
    × (w' : IsList out) × SameMap
        (λ j. find j (pairs w'.towers))
        (written apple (some apple) (λ j. find j (pairs one-IsList.towers)))
insert_set_element-written_example = insert_set_element-written 5 apple apple one one-IsList

load_lists-dump_lists_example :
    (lists : List Bytes × List Bytes) × (dump_lists one ≡ some lists)
    × (out : SkipList) × (d' : ℕ) × (load_lists (λ n. n) 3 lists (new_skip_list 2) ≡ some (out, d'))
    × Shows out (pairs one-IsList.towers)
load_lists-dump_lists_example =
    load_lists-dump_lists (λ n. n) 3 one (new_skip_list 2) one-IsList (new_skip_list-Shows 2).0

-- The vectors of a dump, each behind its length.
pack_all : List Bytes → Bytes → Bytes
pack_all [] rest = rest
pack_all (key ∷ keys) rest = pack key (pack_all keys rest)

unpack_all : ℕ → Bytes → Option (List Bytes × Bytes)
unpack_all zero xs = some ([], xs)
unpack_all (suc n) xs = do
  (key, rest) ← unpack xs
  (keys, left) ← unpack_all n rest
  some (key ∷ keys, left)

unpack_all-pack_all :
    (keys : List Bytes) (rest : Bytes)
    → unpack_all (length keys) (pack_all keys rest) ≡ some (keys, rest)
unfolding unpack_all pack_all
unpack_all-pack_all [] rest = refl
unpack_all-pack_all (key ∷ keys) rest =
    rw (unpack-pack key (pack_all keys rest), unpack_all-pack_all keys rest)

write_dump : List Bytes → List Bytes → Bytes
write_dump keys values = length keys ∷ length values ∷ pack_all keys (pack_all values [])

read_dump : Bytes → Option (List Bytes × List Bytes)
read_dump (n ∷ k ∷ xs) = do
  (keys, rest) ← unpack_all n xs
  (values, _) ← unpack_all k rest
  some (keys, values)
read_dump _ = none

dump_text : DumpText
unfolding read_dump write_dump
dump_text = record {
  write = write_dump;
  read = read_dump;
  write_nonempty = λ keys values. refl;
  read-write = λ keys values.
      rw (unpack_all-pack_all keys (pack_all values []), unpack_all-pack_all values []) refl;
}

answers-new_engine_example :
    answers
      (skip_list_engine (λ n. n % 3) dump_text)
      (put_at berry apple ∷ put_at apple berry ∷ delete_at berry ∷ get_at apple ∷ get_at berry ∷ [])
      (new_engine (λ n. n % 3) dump_text 6)
    ≡ map_answers
        (put_at berry apple
          ∷ put_at apple berry
          ∷ delete_at berry
          ∷ get_at apple
          ∷ get_at berry
          ∷ [])
        (λ key. none)
answers-new_engine_example =
    answers-new_engine (λ n. n % 3) dump_text 6
      (put_at berry apple ∷ put_at apple berry ∷ delete_at berry ∷ get_at apple ∷ get_at berry ∷ [])
