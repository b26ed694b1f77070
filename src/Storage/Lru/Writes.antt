-- ===== src/Storage/Lru/Writes.antt =====
-- `Put` and `Delete` of `LRUCache`: what they make of the keys and values, and the invariant.
use kv_raft_storage.Common.{
  ℕ, suc, ◌≤◌, ◌<◌, ◌≡◌, refl, sym, ap, ◌∙◌, inl, inr, List, [], ◌∷◌, Option, none, some, ◌==◌,
  if◌then◌else◌, length, take, Bytes, ltb, bytes_eq, Bool-cases, arith, take_of_length-le,
}
use kv_raft_storage.Storage.SortedMap.{find, erase}
use kv_raft_storage.Storage.SortedMap.Erase.{find-erase, erase-Ascending, erase_absent}
use kv_raft_storage.Storage.Lru.{
  Item, Lru, without, evict, add_item, write, cache_put, unlink, cache_delete, cache_get, look,
}
use kv_raft_storage.Storage.Lru.Linked.{
  keyed, id_of, IsLinked, keyed-item_at, keyed-without, without-Distinct, without-All,
  length-without,
}
use kv_raft_storage.Storage.Lru.Front.{front-IsLinked, keyed-key}
use kv_raft_storage.Storage.Lru.Reads.{value_of}
use kv_raft_storage.Storage.Lru.View.{
  view, touched, after_get, find-view, view-without, view-drop_last, length-view,
}
use kv_raft_storage.Storage.Lru.Grown.{made, grown, evict-IsLinked, grown-IsLinked}

none_of_length : (l : List (Bytes × Bytes)) → length l ≤ 0 → l ≡ []
none_of_length [] h = refl
none_of_length (x ∷ l) h = absurd (ground arith)

nothing_after : (key : Bytes) (l : List (Bytes × Bytes)) → l ≡ [] → l ≡ after_get (find key l) key l
unfolding find
nothing_after key [] e = refl
nothing_after key (x ∷ l) e = absurd (cc)

-- `m_items.erase` and `m_index.erase` of one item.
unlink-IsLinked :
    (key : Bytes) (c : Lru) {x : Item}
    → IsLinked c
    → keyed key c.items ≡ some x
    → IsLinked (record c { items = without x.id c.items; index = erase key c.index })
unlink-IsLinked key c {x} wf h =
    let at = keyed-item_at key c.items wf.distinct h in
    record {
      distinct = without-Distinct x.id c.items wf.distinct;
      indexed = λ j.
          find-erase j key c.index wf.ascends
          ∙ id_of-without j
          ∙ ap id_of (sym (keyed-without key j c.items wf.distinct h));
      ascends = erase-Ascending key c.index wf.ascends;
      fresh = without-All (λ (n : Item). n.id < c.next_id) x.id c.items wf.fresh;
      bounded = let size = length-without x.id c.items at in let b = wf.bounded in ground arith;
    }
  where
    id_of-without :
        (j : Bytes)
        → (if bytes_eq j key then none else find j c.index)
          ≡ id_of (if bytes_eq j key then none else keyed j c.items)
    id_of-without j = elim (Bool-cases (bytes_eq j key)) [
      | inl here ↦ rw here
      | inr away ↦ rw away (wf.indexed j)
    ]

-- A delete takes out the key, and nothing else.
unlink-Deletes :
    (key : Bytes) (c : Lru) (found : Option Item)
    → IsLinked c
    → keyed key c.items ≡ found
    → IsLinked (unlink (id_of found) key c)
      × (view (unlink (id_of found) key c).items ≡ erase key (view c.items))
unlink-Deletes key c none wf h =
    (wf, sym (erase_absent key (view c.items) (find-view key c.items ∙ ap value_of h)))
unlink-Deletes key c (some x) wf h =
    (unlink-IsLinked key c wf h, view-without key c.items wf.distinct h)

-- On a cache whose items and index agree, `Delete` takes out the key's item if there is one; the order
-- and the values of the others stay, and items and index agree after it.
pub cache_delete-erase :
    (key : Bytes) (c : Lru)
    → IsLinked c
    → IsLinked (cache_delete key c) × (view (cache_delete key c).items ≡ erase key (view c.items))
unfolding cache_delete
cache_delete-erase key c wf = rw (wf.indexed key) (unlink-Deletes key c (keyed key c.items) wf refl)

-- What a write leaves: the key first, the others in their order, as many as fit.
abbrev Writes : Bytes → Bytes → Lru → Lru → Type 0
Writes key value c out =
    IsLinked out × (view out.items ≡ take c.capacity (touched key value (view c.items)))

add_item-Writes :
    (key value : Bytes) (c : Lru)
    → IsLinked c
    → keyed key c.items ≡ none
    → Writes key value c (add_item key value c)
unfolding add_item evict
add_item-Writes key value c wf h =
    let absent = erase_absent key (view c.items) (find-view key c.items ∙ ap value_of h) in
    elim (Bool-cases (ltb c.capacity (suc (length c.items)))) [
      | inl full ↦
          let e : length c.items ≡ c.capacity = let b = wf.bounded in ground arith in
          rw (full, absent) (evict-IsLinked key value c wf h, view-evict key value c e)
      | inr room ↦
          let b : length c.items < c.capacity = ground arith in
          rw (room, absent) (grown-IsLinked key value c wf h b, sym (fits c b))
    ]
  where
    view-evict :
        (key value : Bytes) (c : Lru)
        → length c.items ≡ c.capacity
        → view (evict (made key value c ∷ c.items) (grown key value c)).items
          ≡ take c.capacity ((key, value) ∷ view c.items)
    view-evict key value c e = view-drop_last c.capacity (made key value c) c.items e

    fits :
        (c : Lru)
        → length c.items < c.capacity
        → take c.capacity ((key, value) ∷ view c.items) ≡ (key, value) ∷ view c.items
    fits c b =
        take_of_length-le c.capacity ((key, value) ∷ view c.items) (rw (length-view c.items) b)

write-Writes :
    (key value : Bytes) (c : Lru) (found : Option Item)
    → IsLinked c
    → keyed key c.items ≡ found
    → Writes key value c (write (id_of found) key value c)
write-Writes key value c none wf h = add_item-Writes key value c wf h
write-Writes key value c (some x) wf h =
    let at = keyed-item_at key c.items wf.distinct h in
    let after = front-IsLinked key value c wf h in
    let k = keyed-key key c.items h in
    let shown = ap (λ l. (key, value) ∷ l) (view-without key c.items wf.distinct h) in
    rw at (
      after,
      ap (λ j. (j, value) ∷ view (without x.id c.items)) (sym k)
          ∙ shown
          ∙ sym (
              take_of_length-le c.capacity (touched key value (view c.items))
                (fits x.id after.bounded shown)),
    )
  where
    fits :
        (id : ℕ)
        → suc (length (without id c.items)) ≤ c.capacity
        → (key, value) ∷ view (without id c.items) ≡ touched key value (view c.items)
        → length (touched key value (view c.items)) ≤ c.capacity
    fits id b shown =
        let e = ap length shown in let f = length-view (without id c.items) in ground arith

-- On a cache whose items and index agree, `Put` makes the key the most recent one, with the value; the
-- other keys follow in their order, as many as the capacity allows, so that it is the least recent
-- that is dropped. Items and index agree after it.
pub cache_put-take :
    (key value : Bytes) (c : Lru)
    → IsLinked c
    → IsLinked (cache_put key value c)
      × (view (cache_put key value c).items ≡ take c.capacity (touched key value (view c.items)))
unfolding cache_put
cache_put-take key value c wf = elim (Bool-cases (c.capacity == 0)) [
  | inl off ↦
      let none_fits : c.capacity ≡ 0 = ground arith in
      let b : length (view c.items) ≤ 0 =
        rw (length-view c.items) (let l = wf.bounded in omega arith) in
      rw off (
        wf,
        none_of_length (view c.items) b
            ∙ ap (λ n. take n (touched key value (view c.items))) (sym none_fits),
      )
  | inr on ↦ rw (on, wf.indexed key) (write-Writes key value c (keyed key c.items) wf refl)
]

look-after_get :
    (key : Bytes) (c : Lru) (found : Option Item)
    → IsLinked c
    → keyed key c.items ≡ found
    → view (look (id_of found) c).0.items ≡ after_get (value_of found) key (view c.items)
look-after_get key c none wf h = refl
look-after_get key c (some x) wf h =
    let at = keyed-item_at key c.items wf.distinct h in
    rw at (
      ap (λ j. (j, x.value) ∷ view (without x.id c.items)) (sym (keyed-key key c.items h))
      ∙ ap (λ l. (key, x.value) ∷ l) (view-without key c.items wf.distinct h))

-- What a read leaves: a key that was found comes first, and without one nothing moves.
pub cache_get-after_get :
    (key : Bytes) (c : Lru)
    → IsLinked c
    → view (cache_get key c).0.items ≡ after_get (find key (view c.items)) key (view c.items)
unfolding cache_get
cache_get-after_get key c wf = elim (Bool-cases (c.capacity == 0)) [
  | inl off ↦
      let b : length (view c.items) ≤ 0 =
        rw (length-view c.items) (let l = wf.bounded in ground arith) in
      let e = none_of_length (view c.items) b in rw off (nothing_after key (view c.items) e)
  | inr on ↦
      rw (on, wf.indexed key, find-view key c.items)
        (look-after_get key c (keyed key c.items) wf refl)
]
