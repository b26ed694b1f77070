-- ===== src/Storage/SkipList/Writes.antt =====
-- The operations of a well-formed list: they end, follow no wrong pointer, and do what a `std::map` does.
use kv_raft_storage.Common.{
  ℕ, zero, suc, ◌+◌, ◌<◌, get_elem?, ◌≡◌, refl, sym, ap, ◌∙◌, subst, inl, inr, Bool, true, false,
  List, [], ◌∷◌, ◌++◌, Option, none, some, arith, Bytes, bytes_eq, bytes_eq_iff, Bool-cases,
  Option-cases, length-replicate, some_inj, replicate,
}
use kv_raft_storage.Storage.SortedMap.{
  SortedMap, find, insert, erase, find-insert_self, find-insert_ne,
}
use kv_raft_storage.Storage.SortedMap.Erase.{find-erase, erase_absent}
use kv_raft_storage.Storage.Engine.{SameMap, written}
use kv_raft_storage.Storage.SkipList.{
  SkipNode, SkipList, node_at, create_node, new_skip_list, get_random_level, value_found,
  insert_found, insert_element, delete_found, delete_element, insert_set_element,
}
use kv_raft_storage.Storage.SkipList.Towers.{Tower}
use kv_raft_storage.Storage.SkipList.Descent.{tops}
use kv_raft_storage.Storage.SkipList.Find.{
  header_tower, pairs, IsList, Split, split_towers, here_at, address, address_found, value_at,
  locate-here, find-here,
}
use kv_raft_storage.Storage.SkipList.Grow.{get_random_level-le, insert_new-IsList}
use kv_raft_storage.Storage.SkipList.Shrink.{delete_found-IsList}

-- A list with the pairs `m`.
abbrev pub Shows : SkipList → SortedMap Bytes → Type 0
Shows s m = (w : IsList s) × (pairs w.towers ≡ m)

-- What an insertion leaves and returns: a key that is there keeps its value.
abbrev pub kept : Option Bytes → Bytes → Bytes → SortedMap Bytes → SortedMap Bytes
kept none key value m = insert key value m
kept (some old) key value m = m

abbrev pub code_of : Option Bytes → ℕ
code_of none = 0
code_of (some old) = 1

abbrev pub present : Option Bytes → Bool
present none = false
present (some old) = true

module _ (s : SkipList) (w : IsList s) (key : Bytes) where
  abbrev before : Split key w.towers
  before = split_towers key w.towers w.sorted

  abbrev update : List ℕ
  update = tops (suc s.level) (header_tower s.max_level) before.pre

  -- What is found is the node of the tower that has the key.
  found-none :
      address_found none ≡ address (here_at key before.post) → here_at key before.post ≡ none
  found-none a = elim (Option-cases (here_at key before.post)) [
    | inl e ↦ e
    | inr (y, e) ↦ absurd (let a' = rw e at a in cc)
  ]

  find-found :
      (found : Option (ℕ × SkipNode))
      → value_found found ≡ value_at (here_at key before.post)
      → find key (pairs w.towers) ≡ value_found found
  find-found found v = find-here key w.towers before w.sorted ∙ sym v

  insert_at :
      (odds : ℕ) (value : Bytes) (found : Option (ℕ × SkipNode))
      → address_found found ≡ address (here_at key before.post)
      → value_found found ≡ value_at (here_at key before.post)
      → (out : SkipList) × (insert_found odds key value found update s
          ≡ some (out, code_of (find key (pairs w.towers))))
        × Shows out (kept (find key (pairs w.towers)) key value (pairs w.towers))
  insert_at odds value none a v =
      let (out, e, w', shown) =
        insert_new-IsList s w key value before (get_random_level odds s.max_level)
          (get_random_level-le odds s.max_level) odds refl (found-none a) in
      rw (find-found none v) (out, rw e, (w', shown))
  insert_at odds value (some (q, n)) a v = rw (find-found (some (q, n)) v) (s, refl, (w, refl))

  at_key :
      (post : List Tower) (q : ℕ)
      → some q ≡ address (here_at key post)
      → (y : Tower) × (rest : List Tower) × (post ≡ y ∷ rest)
        × (y.addr ≡ q)
        × (bytes_eq y.key key ≡ true)
  at_key [] q a = absurd (cc)
  at_key (y ∷ rest) q a = elim (Bool-cases (bytes_eq y.key key)) [
    | inl e ↦ let a' = rw e at a in (y, rest, refl, sym (some_inj a'), e)
    | inr e ↦ absurd (let a' = rw e at a in cc)
  ]

  delete_at :
      (found : Option (ℕ × SkipNode))
      → address_found found ≡ address (here_at key before.post)
      → value_found found ≡ value_at (here_at key before.post)
      → (out : SkipList) × (delete_found found update s
          ≡ some (out, present (find key (pairs w.towers))))
        × Shows out (erase key (pairs w.towers))
  delete_at none a v =
      let gone = find-found none v in
      rw gone (s, refl, (w, sym (erase_absent key (pairs w.towers) gone)))
  delete_at (some (q, n)) a v =
      let (y, rest, whole, at_q, same) = at_key before.post q a in
      let (out, e, w', shown) =
        delete_found-IsList s w before.pre y rest (before.whole ∙ ap (λ l. before.pre ++ l) whole)
          key n before.less same in
      rw (find-found (some (q, n)) v) (
        out,
        subst (λ p. delete_found (some (p, n)) update s ≡ some (out, true)) at_q e,
        (w', shown),
      )

-- `insert_element` of a well-formed list, at whatever level the new node is drawn, gives a well-formed
-- list. A new key is put in with the value and 0 is returned; for a key that is there nothing changes
-- and 1 is returned.
pub insert_element-insert :
    (odds : ℕ) (key value : Bytes) (s : SkipList) (w : IsList s)
    → (out : SkipList) × (insert_element odds key value s
        ≡ some (out, code_of (find key (pairs w.towers))))
      × Shows out (kept (find key (pairs w.towers)) key value (pairs w.towers))
unfolding insert_element
insert_element-insert odds key value s w =
    let (found, e, a, v) = locate-here s w key (split_towers key w.towers w.sorted) in
    let (out, e2, shown) = insert_at s w key odds value found a v in (out, rw e e2, shown)

-- `delete_element` of a well-formed list gives a well-formed list without the key and with the other
-- pairs, and tells whether the key was there.
pub delete_element-erase :
    (key : Bytes) (s : SkipList) (w : IsList s)
    → (out : SkipList) × (delete_element key s ≡ some (out, present (find key (pairs w.towers))))
      × Shows out (erase key (pairs w.towers))
unfolding delete_element
delete_element-erase key s w =
    let (found, e, a, v) = locate-here s w key (split_towers key w.towers w.sorted) in
    let (out, e2, shown) = delete_at s w key found a v in (out, rw e e2, shown)

-- `insert_set_element` of a well-formed list gives a well-formed list that shows the value at the key,
-- and at the other keys what was there.
pub insert_set_element-written :
    (odds : ℕ) (key value : Bytes) (s : SkipList) (w : IsList s)
    → (out : SkipList) × (insert_set_element odds key value s ≡ some out)
      × (w' : IsList out) × SameMap
          (λ j. find j (pairs w'.towers))
          (written key (some value) (λ j. find j (pairs w.towers)))
unfolding insert_set_element
insert_set_element-written odds key value s w =
    let (s1, e1, deleted) = delete_element-erase key s w in
    let (w1, shown1) = deleted in
    let (s2, e2, inserted) = insert_element-insert odds key value s1 w1 in
    let (w2, shown2) = inserted in
    let gone : find key (pairs w1.towers) ≡ none =
      ap (find key) shown1
      ∙ find-erase key key (pairs w.towers) w.sorted
      ∙ (rw ((bytes_eq_iff key key).1 refl)) in
    let all : pairs w2.towers ≡ insert key value (erase key (pairs w.towers)) =
      shown2
      ∙ ap (λ (o : Option Bytes). kept o key value (pairs w1.towers)) gone
      ∙ ap (insert key value) shown1 in
    (s2, rw (e1, e2), w2, λ j. ap (find j) all ∙ at_keys j)
  where
    at_keys :
        (j : Bytes)
        → find j (insert key value (erase key (pairs w.towers)))
          ≡ written key (some value) (λ j. find j (pairs w.towers)) j
    at_keys j = elim (Bool-cases (bytes_eq j key)) [
      | inl same ↦ rw same (
          ap (λ k. find k (insert key value (erase key (pairs w.towers))))
            ((bytes_eq_iff j key).0 same)
          ∙ find-insert_self key value (erase key (pairs w.towers)))
      | inr other ↦
          let kept_there : find j (erase key (pairs w.towers)) ≡ find j (pairs w.towers) =
            find-erase j key (pairs w.towers) w.sorted ∙ (rw other) in
          rw other (find-insert_ne j key value (erase key (pairs w.towers)) other ∙ kept_there)
    ]

no_pointers : (i n : ℕ) → i < n → get_elem? (replicate {A = Option ℕ} n none) i ≡ some none
no_pointers i zero lt = absurd (omega arith)
no_pointers zero (suc n) lt = refl
no_pointers (suc i) (suc n) lt = no_pointers i n (omega arith)

-- A new list is well-formed and shows nothing.
pub new_skip_list-Shows : (max_level : ℕ) → Shows (new_skip_list max_level) []
unfolding new_skip_list node_at
new_skip_list-Shows max_level = (
  record {
    towers = [];
    level_le = omega arith;
    linked = (
      record {
        node = create_node [] [] max_level;
        at = refl;
        has_key = refl;
        has_value = refl;
        sized = length-replicate (max_level + 1) none ∙ (omega arith);
        links = λ i lt. no_pointers i (max_level + 1) (omega arith);
      },
      tt,
    );
    at_rest = tt;
    under = tt;
    distinct = (tt, tt);
    sorted = tt;
    fits = omega arith;
    counted = refl;
  },
  refl,
)
