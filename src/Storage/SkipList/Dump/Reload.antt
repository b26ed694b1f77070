-- ===== src/Storage/SkipList/Dump/Reload.antt =====
-- A list that is loaded with what another one dumped shows the same map.
use kv_raft_storage.Common.{
  ℕ, zero, suc, ◌+◌, ◌<◌, ◌≡◌, refl, sym, ap, ◌∙◌, subst, true, List, [], ◌∷◌, ◌++◌, Option, none,
  some, length, All, arith, append-nil, append_assoc, map, Bytes,
}
use kv_raft_storage.Storage.KeyOrder.{key_lt, key_lt_asym, key_lt-ne_sym}
use kv_raft_storage.Storage.SortedMap.{SortedMap, find, insert, Ascending}
use kv_raft_storage.Storage.SkipList.{SkipList, Heap, insert_element}
use kv_raft_storage.Storage.SkipList.Towers.{Tower, next_at, AtRest, IsTower, Rep, forward-IsTower}
use kv_raft_storage.Storage.SkipList.Seek.{covers-AtRest}
use kv_raft_storage.Storage.SkipList.Find.{header_tower, pairs, IsList}
use kv_raft_storage.Storage.SkipList.Writes.{Shows, kept, code_of, insert_element-insert}
use kv_raft_storage.Storage.SkipList.Dump.{collect, dump_lists, insert_all, load_lists}
use kv_raft_storage.Storage.SkipList.Dump.Emptied.{empty_list-Shows}

abbrev pub keys_of : SortedMap Bytes → List Bytes
keys_of m = map (λ (x : Bytes × Bytes). x.0) m

abbrev pub values_of : SortedMap Bytes → List Bytes
values_of m = map (λ (x : Bytes × Bytes). x.1) m

collect-pairs :
    (fuel : ℕ) (xs : List Tower) (h : Heap)
    → length xs < fuel
    → Rep h xs []
    → All AtRest xs
    → collect fuel (next_at 0 xs) h ≡ some (keys_of (pairs xs), values_of (pairs xs))
unfolding collect
collect-pairs fuel [] h lt r a = refl
collect-pairs zero (x ∷ xs) h lt r a = absurd (omega arith)
collect-pairs (suc fuel) (x ∷ xs) h lt r a =
    let t = r.0 in
    let next = forward-IsTower x (subst (IsTower h x) (append-nil xs) t) 0 a.0.2 in
    let on = covers-AtRest 0 x a.0 a.0.2 in
    rw (on, t.at, next, collect-pairs fuel xs h (omega arith) r.1 a.1)
      (ap some (entries t.has_key t.has_value))
  where
    entries :
        {k v : Bytes}
        → k ≡ x.key
        → v ≡ x.value
        → ◌≡◌ {A = List Bytes × List Bytes}
            (k ∷ keys_of (pairs xs), v ∷ values_of (pairs xs))
            (x.key ∷ keys_of (pairs xs), x.value ∷ values_of (pairs xs))
    entries p q = cc

-- `dump_file` of a well-formed list ends and reads all its pairs, in the order of their keys.
pub dump_lists-pairs :
    (s : SkipList) (w : IsList s)
    → dump_lists s ≡ some (keys_of (pairs w.towers), values_of (pairs w.towers))
unfolding dump_lists
dump_lists-pairs s w =
    let x = header_tower s.max_level in
    let next =
      forward-IsTower x (subst (IsTower s.nodes x) (append-nil w.towers) w.linked.0) 0
        (omega arith) in
    rw next (collect-pairs (length s.nodes) w.towers s.nodes w.fits w.linked.1 w.at_rest)

-- The key is behind all of the map.
abbrev Beyond : Bytes → SortedMap Bytes → Type 0
Beyond key m = All (λ (x : Bytes × Bytes). key_lt x.0 key ≡ true) m

insert-last :
    (key value : Bytes) (m : SortedMap Bytes)
    → Beyond key m
    → (insert key value m ≡ m ++ (key, value) ∷ []) × (find key m ≡ none)
unfolding insert find
insert-last key value [] b = (refl, refl)
insert-last key value (x ∷ m) b =
    let (e, gone) = insert-last key value m b.1 in
    let after = key_lt_asym x.0 key b.0 in
    let other = key_lt-ne_sym x.0 key b.0 in (rw (after, other) (ap (λ l. x ∷ l) e), rw other gone)

All-at :
    (P : Bytes × Bytes → Type 0) (m ps : SortedMap Bytes) (x : Bytes × Bytes)
    → All P (m ++ x ∷ ps)
    → P x
All-at P [] ps x a = a.0
All-at P (y ∷ m) ps x a = All-at P m ps x a.1

Ascending-Beyond :
    (m ps : SortedMap Bytes) (x : Bytes × Bytes) → Ascending (m ++ x ∷ ps) → Beyond x.0 m
Ascending-Beyond [] ps x a = tt
Ascending-Beyond (y ∷ m) ps x a =
    (All-at (λ (z : Bytes × Bytes). key_lt y.0 z.0 ≡ true) m ps x a.0, Ascending-Beyond m ps x a.1)

insert_all-append :
    (rand : ℕ → ℕ) (d : ℕ) (ps m : SortedMap Bytes) (s : SkipList)
    → Shows s m
    → Ascending (m ++ ps)
    → (out : SkipList) × (d' : ℕ) × (insert_all rand d (keys_of ps) (values_of ps) s
        ≡ some (out, d'))
      × Shows out (m ++ ps)
unfolding insert_all
insert_all-append rand d [] m s (w, shown) a = (s, d, refl, (w, shown ∙ sym (append-nil m)))
insert_all-append rand d ((key, value) ∷ ps) m s (w, shown) a =
    let (put_last, gone) = insert-last key value m (Ascending-Beyond m ps (key, value) a) in
    let absent : find key (pairs w.towers) ≡ none = ap (find key) shown ∙ gone in
    let (s1, e1, shows1) = insert_element-insert (rand d) key value s w in
    let (w1, shown1) = shows1 in
    let e1' : insert_element (rand d) key value s ≡ some (s1, 0) =
      e1 ∙ ap (λ (o : Option Bytes). some (s1, code_of o)) absent in
    let all : pairs w1.towers ≡ m ++ (key, value) ∷ [] =
      shown1
      ∙ ap (λ (o : Option Bytes). kept o key value (pairs w.towers)) absent
      ∙ ap (insert key value) shown
      ∙ put_last in
    let whole = append_assoc m ((key, value) ∷ []) ps in
    let (out, d', e2, shows2) =
      insert_all-append rand (d + 1) ps (m ++ (key, value) ∷ []) s1 (w1, all)
        (subst Ascending (sym whole) a) in
    (out, d', rw e1' e2, subst (Shows out) whole shows2)

-- What a well-formed list dumped, loaded into a well-formed list, leaves a well-formed list with the same
-- pairs, whatever that list held and whatever levels are drawn.
pub load_lists-dump_lists :
    (rand : ℕ → ℕ) (d : ℕ) (s other : SkipList) (w : IsList s)
    → IsList other
    → (lists : List Bytes × List Bytes) × (dump_lists s ≡ some lists)
      × (out : SkipList) × (d' : ℕ) × (load_lists rand d lists other ≡ some (out, d'))
      × Shows out (pairs w.towers)
unfolding load_lists
load_lists-dump_lists rand d s other w w_other =
    let (s1, e1, shows1) = empty_list-Shows other w_other in
    let (out, d', e2, shows2) = insert_all-append rand d (pairs w.towers) [] s1 shows1 w.sorted in
    (
      (keys_of (pairs w.towers), values_of (pairs w.towers)),
      dump_lists-pairs s w,
      out,
      d',
      rw e1 e2,
      shows2,
    )
