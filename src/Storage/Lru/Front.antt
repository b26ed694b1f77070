-- ===== src/Storage/Lru/Front.antt =====
-- Moving an item of `LRUCache` to the front of the list.
use kv_raft_storage.Common.{
  ◌<◌, ◌≡◌, sym, ap, ◌∙◌, inl, inr, true, false, List, [], ◌∷◌, some, Bytes, bytes_eq, bytes_eq_iff,
  Bool-cases, arith, All, some_inj, if◌then◌else◌,
}
use kv_raft_storage.Storage.Lru.{Item, Lru, without}
use kv_raft_storage.Storage.Lru.Linked.{
  keyed, Distinct, id_of, IsLinked, keyed-item_at, keyed-without, without-Distinct, without_self,
  without-All, length-without,
}

pub keyed-key :
    (key : Bytes) (items : List Item) {x : Item} → keyed key items ≡ some x → key ≡ x.key
keyed-key key [] h = absurd (cc)
keyed-key key (y ∷ items) {x} h = elim (Bool-cases (bytes_eq key y.key)) [
  | inl here ↦
      let e : y ≡ x = some_inj (rw here at h) in
      (bytes_eq_iff key y.key).0 here ∙ ap (λ (n : Item). n.key) e
  | inr away ↦ keyed-key key items (rw away at h)
]

-- What an item satisfies that the list holds.
keyed-All :
    (P : Item → Type 0) (key : Bytes) (items : List Item) {x : Item}
    → All P items
    → keyed key items ≡ some x
    → P x
keyed-All P key [] a h = absurd (cc)
keyed-All P key (y ∷ items) {x} a h = elim (Bool-cases (bytes_eq key y.key)) [
  | inl here ↦ let e : y ≡ x = some_inj (rw here at h) in rw (← e) a.0
  | inr away ↦ keyed-All P key items a.1 (rw away at h)
]

-- An item that is moved to the front with a new value stands for its key, and other keys keep theirs.
pub front-keyed :
    (key j value : Bytes) (items : List Item) {x : Item}
    → Distinct items
    → keyed key items ≡ some x
    → keyed j (record x { value = value } ∷ without x.id items)
      ≡ (if bytes_eq j key then some (record x { value = value }) else keyed j items)
front-keyed key j value items {x} d h =
    let k = keyed-key key items h in
    let rest = keyed-without key j items d h in
    elim (Bool-cases (bytes_eq j x.key)) [
      | inl here ↦ let same : bytes_eq j key ≡ true = ap (bytes_eq j) k ∙ here in rw (here, same)
      | inr away ↦
          let apart : bytes_eq j key ≡ false = ap (bytes_eq j) k ∙ away in
          rw (away, apart) (rw apart at rest)
    ]

id_of-front :
    (key j value : Bytes) (items : List Item) {x : Item}
    → keyed key items ≡ some x
    → id_of (if bytes_eq j key then some (record x { value = value }) else keyed j items)
      ≡ id_of (keyed j items)
id_of-front key j value items {x} h = elim (Bool-cases (bytes_eq j key)) [
  | inl here ↦
      let e : j ≡ key = (bytes_eq_iff j key).0 here in
      rw here (ap id_of (sym h) ∙ ap (λ k. id_of (keyed k items)) (sym e))
  | inr away ↦ rw away
]

pub front-IsLinked :
    (key value : Bytes) (c : Lru) {x : Item}
    → IsLinked c
    → keyed key c.items ≡ some x
    → IsLinked (record c { items = record x { value = value } ∷ without x.id c.items })
front-IsLinked key value c {x} wf h =
    let k = keyed-key key c.items h in
    let at = keyed-item_at key c.items wf.distinct h in
    let self : bytes_eq x.key key ≡ true = (bytes_eq_iff x.key key).1 (sym k) in
    let gone = keyed-without key x.key c.items wf.distinct h in
    record {
      distinct = (
        rw self at gone,
        without_self x.id c.items wf.distinct,
        without-Distinct x.id c.items wf.distinct,
      );
      indexed = λ j.
          wf.indexed j
          ∙ sym (id_of-front key j value c.items h)
          ∙ ap id_of (sym (front-keyed key j value c.items wf.distinct h));
      ascends = wf.ascends;
      fresh = (
        keyed-All (λ (n : Item). n.id < c.next_id) key c.items wf.fresh h,
        without-All (λ (n : Item). n.id < c.next_id) x.id c.items wf.fresh,
      );
      bounded = let size = length-without x.id c.items at in let b = wf.bounded in ground arith;
    }
