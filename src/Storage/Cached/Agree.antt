-- ===== src/Storage/Cached/Agree.antt =====
-- A list of pairs agrees with a map: what the operations of the cache keep of it.
use kv_raft_storage.Common.{
  List, Option, none, some, ◌≡◌, refl, sym, ap, ◌∙◌, Bytes, bytes_eq, inl, inr, Bool-cases,
  Option-cases, bytes_eq_iff, true,
}
use kv_raft_storage.Storage.SortedMap.{find, erase}
use kv_raft_storage.Storage.SortedMap.Erase.{find-erase_ne, find-take, erase_absent}
use kv_raft_storage.Storage.Lru.{Lru, Item, cache_put}
use kv_raft_storage.Storage.Lru.Linked.{IsLinked, keyed, Distinct, keyed-without}
use kv_raft_storage.Storage.Lru.Reads.{value_of}
use kv_raft_storage.Storage.Lru.View.{view, touched, find-view, view-without}
use kv_raft_storage.Storage.Lru.Writes.{cache_put-take}
use kv_raft_storage.Storage.Engine.{SameMap, written}

-- What a list of pairs shows is what the map has.
abbrev pub Agrees : List (Bytes × Bytes) → (Bytes → Option Bytes) → Type 0
Agrees l m = (key value : Bytes) → find key l ≡ some value → m key ≡ some value

-- No value is left where the key was taken out.
erase-view :
    (key : Bytes) (items : List Item) → Distinct items → find key (erase key (view items)) ≡ none
erase-view key items d = elim (Option-cases (keyed key items)) [
  | inl away ↦
      let absent = find-view key items ∙ ap value_of away in
      ap (find key) (erase_absent key (view items) absent) ∙ absent
  | inr (x, here) ↦
      let same : bytes_eq key key ≡ true = (bytes_eq_iff key key).1 refl in
      let gone = keyed-without key key items d here in
      ap (find key) (sym (view-without key items d here))
      ∙ find-view key _
      ∙ ap value_of (rw same at gone)
]

pub Agrees-erase :
    (key : Bytes) (items : List Item) {m : Bytes → Option Bytes}
    → Distinct items
    → Agrees (view items) m
    → Agrees (erase key (view items)) (written key none m)
Agrees-erase key items d a j v h = elim (Bool-cases (bytes_eq j key)) [
  | inl here ↦
      let e : j ≡ key = (bytes_eq_iff j key).0 here in
      let gone = ap (λ k. find k (erase key (view items))) e ∙ erase-view key items d in absurd (cc)
  | inr away ↦ rw away (a j v (sym (find-erase_ne j key (view items) away) ∙ h))
]

Agrees-touched :
    (key value : Bytes) (l : List (Bytes × Bytes)) {m : Bytes → Option Bytes}
    → Agrees l m
    → Agrees (touched key value l) (written key (some value) m)
unfolding find
Agrees-touched key value l a j v h = elim (Bool-cases (bytes_eq j key)) [
  | inl here ↦ rw here (rw here at h)
  | inr away ↦ rw away (a j v (sym (find-erase_ne j key l away) ∙ rw away at h))
]

-- A write of the cache agrees with the map after the same write.
pub Agrees-cache_put :
    (key value : Bytes) (c : Lru) {m : Bytes → Option Bytes}
    → IsLinked c
    → Agrees (view c.items) m
    → Agrees (view (cache_put key value c).items) (written key (some value) m)
Agrees-cache_put key value c w a j v h =
    let shown = (cache_put-take key value c w).1 in
    Agrees-touched key value (view c.items) a j v
      (find-take j c.capacity (touched key value (view c.items)) (ap (find j) (sym shown) ∙ h))

pub Agrees-SameMap :
    (l : List (Bytes × Bytes)) {m n : Bytes → Option Bytes} → SameMap n m → Agrees l m → Agrees l n
Agrees-SameMap l same a j v h = same j ∙ a j v h

-- A key with its own value written again.
pub written_same :
    (key value : Bytes) (m : Bytes → Option Bytes)
    → m key ≡ some value
    → SameMap m (written key (some value) m)
written_same key value m h j = elim (Bool-cases (bytes_eq j key)) [
  | inl here ↦ rw here (ap m ((bytes_eq_iff j key).0 here) ∙ h)
  | inr away ↦ rw away
]
