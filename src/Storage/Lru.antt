-- ===== src/Storage/Lru.antt =====
-- `LRUCache` of storage/include/lru_cache.h: a list of items, and an index of iterators into it. An
-- item has an identity, which is what an iterator to it holds.
pub mod Linked
pub mod Front
pub mod Reads
pub mod View
pub mod Grown
pub mod Writes
use kv_raft_storage.Common.{
  ℕ, zero, suc, ◌+◌, List, [], ◌∷◌, Option, none, some, ltb, ◌==◌, if◌then◌else◌, length, Bytes,
}
use kv_raft_storage.Storage.SortedMap.{SortedMap, find, insert, erase}

pub record Item : Type 0 where
  pub id : ℕ
  pub key : Bytes
  pub value : Bytes

-- `items` are the most recent first; `next_id` is the identity of the next item that is made.
pub record Lru : Type 0 where
  pub capacity : ℕ
  pub items : List Item
  pub index : SortedMap ℕ
  pub next_id : ℕ

unfoldable pub new_cache : ℕ → Lru
new_cache capacity = record { capacity = capacity; items = []; index = []; next_id = 0 }

-- The item that an iterator points to.
unfoldable pub item_at : ℕ → List Item → Option Item
item_at id [] = none
item_at id (x ∷ items) = let rest = item_at id items in if id == x.id then some x else rest

-- `m_items.erase(it)`
unfoldable pub without : ℕ → List Item → List Item
without id [] = []
without id (x ∷ items) = let rest = without id items in if id == x.id then items else x ∷ rest

-- Setting an item's value and moving it to the front; `splice` keeps its identity.
abbrev pub to_front : Option Item → Bytes → Lru → Lru
to_front none value c = c
to_front (some x) value c = record c { items = (record x { value = value }) ∷ without x.id c.items }

-- `it->second` is followed; `none` is an iterator to no item, which `IsLinked` excludes.
abbrev pub hit : Option Item → Lru → Lru × Option Bytes
hit none c = (c, none)
hit (some x) c = (record c { items = x ∷ without x.id c.items }, some x.value)

abbrev pub look : Option ℕ → Lru → Lru × Option Bytes
look none c = (c, none)
look (some id) c = hit (item_at id c.items) c

unfoldable pub cache_get : Bytes → Lru → Lru × Option Bytes
cache_get key c = if c.capacity == 0 then (c, none) else look (find key c.index) c

-- `std::prev(m_items.end())`, and the list without it.
abbrev pub last_item : Item → List Item → Item
last_item x [] = x
last_item x (y ∷ items) = last_item y items

abbrev pub drop_last : List Item → List Item
drop_last [] = []
drop_last (x ∷ []) = []
drop_last (x ∷ y ∷ items) = x ∷ drop_last (y ∷ items)

unfoldable pub evict : List Item → Lru → Lru
evict [] c = c
evict (x ∷ items) c = record c {
  items = drop_last (x ∷ items);
  index = erase (last_item x items).key c.index;
}

unfoldable pub add_item : Bytes → Bytes → Lru → Lru
add_item key value c =
    let x : Item = record { id = c.next_id; key = key; value = value } in
    let c' : Lru = record c {
      items = x ∷ c.items;
      index = insert key c.next_id c.index;
      next_id = c.next_id + 1;
    } in
    if ltb c'.capacity (length c'.items) then evict c'.items c' else c'

abbrev pub write : Option ℕ → Bytes → Bytes → Lru → Lru
write none key value c = add_item key value c
write (some id) key value c = to_front (item_at id c.items) value c

unfoldable pub cache_put : Bytes → Bytes → Lru → Lru
cache_put key value c = if c.capacity == 0 then c else write (find key c.index) key value c

abbrev pub unlink : Option ℕ → Bytes → Lru → Lru
unlink none key c = c
unlink (some id) key c = record c { items = without id c.items; index = erase key c.index }

unfoldable pub cache_delete : Bytes → Lru → Lru
cache_delete key c = unlink (find key c.index) key c

unfoldable pub clear : Lru → Lru
clear c = record c { items = []; index = [] }

unfoldable pub cache_size : Lru → ℕ
cache_size c = length c.items
