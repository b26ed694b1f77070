-- ===== src/Storage/Lru/Grown.antt =====
-- A new item of `LRUCache` comes first, and the last one goes if there is one too many: the invariant.
use kv_raft_storage.Common.{
  ℕ, ◌+◌, ◌<◌, ◌≡◌, refl, sym, ap, ◌∙◌, inl, inr, false, List, [], ◌∷◌, none, ◌==◌, if◌then◌else◌,
  length, Bytes, bytes_eq, Bool-cases, arith, All,
}
use kv_raft_storage.Storage.SortedMap.{find, insert, insert-Ascending}
use kv_raft_storage.Storage.SortedMap.Erase.{find-erase, erase-Ascending, find-insert}
use kv_raft_storage.Storage.Lru.{Item, Lru, item_at, last_item, evict}
use kv_raft_storage.Storage.Lru.Linked.{keyed, Distinct, id_of, IsLinked}
use kv_raft_storage.Storage.Lru.View.{
  keyed-drop_last, drop_last-Distinct, drop_last-All, length-drop_last,
}

fresh-item_at :
    (n : ℕ) (items : List Item) → All (λ (x : Item). x.id < n) items → item_at n items ≡ none
unfolding item_at
fresh-item_at n [] a = refl
fresh-item_at n (x ∷ items) a =
    let apart : (n == x.id) ≡ false = let l = a.0 in ground arith in
    rw apart (fresh-item_at n items a.1)

All-later :
    (n : ℕ) (items : List Item)
    → All (λ (x : Item). x.id < n) items
    → All (λ (x : Item). x.id < n + 1) items
All-later n [] a = tt
All-later n (x ∷ items) a = (let l = a.0 in omega arith, All-later n items a.1)

-- The item that `emplace_front` makes.
abbrev pub made : Bytes → Bytes → Lru → Item
made key value c = record { id = c.next_id; key = key; value = value }

-- The items and the index after `emplace_front`; one more item than fits is allowed here.
abbrev pub grown : Bytes → Bytes → Lru → Lru
grown key value c = record c {
  items = made key value c ∷ c.items;
  index = insert key c.next_id c.index;
  next_id = c.next_id + 1;
}

grown-Distinct :
    (key value : Bytes) (c : Lru)
    → IsLinked c
    → keyed key c.items ≡ none
    → Distinct (made key value c ∷ c.items)
grown-Distinct key value c wf h = (h, fresh-item_at c.next_id c.items wf.fresh, wf.distinct)

grown-indexed :
    (key value : Bytes) (c : Lru)
    → IsLinked c
    → (j : Bytes)
    → find j (insert key c.next_id c.index) ≡ id_of (keyed j (made key value c ∷ c.items))
grown-indexed key value c wf j =
    find-insert j key c.next_id c.index
    ∙ elim (Bool-cases (bytes_eq j key)) [ inl b ↦ rw b | inr b ↦ rw b (wf.indexed j) ]

pub evict-IsLinked :
    (key value : Bytes) (c : Lru)
    → IsLinked c
    → keyed key c.items ≡ none
    → IsLinked (evict (made key value c ∷ c.items) (grown key value c))
unfolding evict
evict-IsLinked key value c wf h =
    let x = made key value c in
    let d = grown-Distinct key value c wf h in
    let last = (last_item x c.items).key in
    let ascends = insert-Ascending key c.next_id c.index wf.ascends in
    record {
      distinct = drop_last-Distinct x c.items d;
      indexed = λ j.
          find-erase j last (insert key c.next_id c.index) ascends
          ∙ out j
          ∙ ap id_of (sym (keyed-drop_last j x c.items d));
      ascends = erase-Ascending last (insert key c.next_id c.index) ascends;
      fresh =
          drop_last-All (λ (n : Item). n.id < c.next_id + 1) x c.items
            (omega arith, All-later c.next_id c.items wf.fresh);
      bounded = let size = length-drop_last x c.items in let b = wf.bounded in ground arith;
    }
  where
    out :
        (j : Bytes)
        → (if bytes_eq j (last_item (made key value c) c.items).key
            then none
            else find j (insert key c.next_id c.index))
          ≡ id_of (
              if bytes_eq j (last_item (made key value c) c.items).key
              then none
              else keyed j (made key value c ∷ c.items))
    out j = elim (Bool-cases (bytes_eq j (last_item (made key value c) c.items).key)) [
      | inl b ↦ rw b
      | inr b ↦ rw b (grown-indexed key value c wf j)
    ]

pub grown-IsLinked :
    (key value : Bytes) (c : Lru)
    → IsLinked c
    → keyed key c.items ≡ none
    → length c.items < c.capacity
    → IsLinked (grown key value c)
grown-IsLinked key value c wf h room = record {
  distinct = grown-Distinct key value c wf h;
  indexed = grown-indexed key value c wf;
  ascends = insert-Ascending key c.next_id c.index wf.ascends;
  fresh = (omega arith, All-later c.next_id c.items wf.fresh);
  bounded = omega arith;
}
