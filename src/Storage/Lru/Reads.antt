-- ===== src/Storage/Lru/Reads.antt =====
-- `LRUCache::Get` in the terms of the item with a key.
use kv_raft_storage.Common.{
  ◌≤◌, ◌≡◌, refl, sym, ap, ◌∙◌, inl, inr, List, [], ◌∷◌, Option, none, some, ◌==◌, length, Bytes,
  bytes_eq, bytes_eq_iff, Bool-cases, arith, if◌then◌else◌,
}
use kv_raft_storage.Storage.Lru.{Item, Lru, look, cache_get}
use kv_raft_storage.Storage.Lru.Linked.{keyed, id_of, IsLinked, keyed-item_at}
use kv_raft_storage.Storage.Lru.Front.{front-keyed, front-IsLinked}

abbrev pub value_of : Option Item → Option Bytes
value_of none = none
value_of (some x) = some x.value

front_same :
    (key j : Bytes) (items : List Item) {x : Item}
    → keyed key items ≡ some x
    → (if bytes_eq j key then some x else keyed j items) ≡ keyed j items
front_same key j items h = elim (Bool-cases (bytes_eq j key)) [
  | inl here ↦ rw here (sym h ∙ ap (λ k. keyed k items) (sym ((bytes_eq_iff j key).0 here)))
  | inr away ↦ rw away
]

-- What a read does to a cache: the answer, the invariant and the items that are left.
unfoldable pub Reads : Bytes → Lru → Lru × Option Bytes → Type 0
Reads key c r =
    (r.1 ≡ value_of (keyed key c.items))
    × IsLinked r.0
    × ((j : Bytes) → keyed j r.0.items ≡ keyed j c.items)

look-Reads :
    (key : Bytes) (c : Lru) (found : Option Item)
    → IsLinked c
    → keyed key c.items ≡ found
    → Reads key c (look (id_of found) c)
unfolding Reads
look-Reads key c none wf h = (ap value_of (sym h), wf, λ j. refl)
look-Reads key c (some x) wf h =
    let at = keyed-item_at key c.items wf.distinct h in
    rw at (
      ap value_of (sym h),
      front-IsLinked key x.value c wf h,
      λ j. front-keyed key j x.value c.items wf.distinct h ∙ front_same key j c.items h,
    )

empty-keyed : (key : Bytes) (items : List Item) → length items ≤ 0 → keyed key items ≡ none
empty-keyed key [] h = refl
empty-keyed key (x ∷ items) h = absurd (ground arith)

-- On a cache whose items and index agree, `Get` answers the value of the item with the key, and nothing
-- where there is none. The items and the index agree after it, and every key keeps its item.
pub cache_get-Reads : (key : Bytes) (c : Lru) → IsLinked c → Reads key c (cache_get key c)
unfolding cache_get Reads
cache_get-Reads key c wf = elim (Bool-cases (c.capacity == 0)) [
  | inl off ↦
      let size : length c.items ≤ 0 = let b = wf.bounded in ground arith in
      rw off (ap value_of (sym (empty-keyed key c.items size)), wf, λ j. refl)
  | inr on ↦ rw (on, wf.indexed key) (look-Reads key c (keyed key c.items) wf refl)
]
