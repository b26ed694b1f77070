-- ===== src/Storage/Lru/Linked.antt =====
-- The items and the index of `LRUCache`, and how they hang together.
use kv_raft_storage.Common.{
  ℕ, suc, ◌≤◌, ◌<◌, ◌≡◌, refl, sym, ap, ◌∙◌, inl, inr, true, false, List, [], ◌∷◌, Option, none,
  some, ◌==◌, if◌then◌else◌, length, Bytes, bytes_eq, bytes_eq_iff, Bool-cases, arith, All,
  some_inj,
}
use kv_raft_storage.Storage.SortedMap.{Ascending, find}
use kv_raft_storage.Storage.Lru.{Item, Lru, item_at, without}

-- The item with a key.
abbrev pub keyed : Bytes → List Item → Option Item
keyed key [] = none
keyed key (x ∷ items) = if bytes_eq key x.key then some x else keyed key items

-- No two items have a key or an identity in common.
abbrev pub Distinct : List Item → Type 0
Distinct [] = Unit
Distinct (x ∷ items) = (keyed x.key items ≡ none) × (item_at x.id items ≡ none) × Distinct items

abbrev pub id_of : Option Item → Option ℕ
id_of none = none
id_of (some x) = some x.id

-- An item that is found by its key is the one that its identity points to.
pub keyed-item_at :
    (key : Bytes) (items : List Item) {x : Item}
    → Distinct items
    → keyed key items ≡ some x
    → item_at x.id items ≡ some x
unfolding item_at
keyed-item_at key [] d h = absurd (cc)
keyed-item_at key (y ∷ items) {x} d h = elim (Bool-cases (bytes_eq key y.key)) [
  | inl here ↦ let e : y ≡ x = some_inj (rw here at h) in rw (← e) (ground arith)
  | inr away ↦
      let found = keyed-item_at key items d.2 (rw away at h) in
      elim (Bool-cases (x.id == y.id)) [
        | inl same ↦
            let e : x.id ≡ y.id = ground arith in
            absurd (let clash = rw e at found in let gone = d.1 in cc)
        | inr other ↦ rw other found
      ]
]

-- An item behind the first has another identity.
pub ne_head :
    (key : Bytes) (y : Item) (items : List Item) {x : Item}
    → Distinct (y ∷ items)
    → keyed key items ≡ some x
    → (x.id == y.id) ≡ false
ne_head key y items {x} d h = elim (Bool-cases (x.id == y.id)) [
  | inl same ↦
      let e : x.id ≡ y.id = ground arith in
      let found = keyed-item_at key items d.2 h in
      absurd (let clash = rw e at found in let gone = d.1 in cc)
  | inr other ↦ other
]

first_out :
    (j : Bytes) (y : Item) (items : List Item)
    → Distinct (y ∷ items)
    → keyed j (without y.id (y ∷ items)) ≡ (if bytes_eq j y.key then none else keyed j (y ∷ items))
unfolding without
first_out j y items d =
    let self : (y.id == y.id) ≡ true = ground arith in
    elim (Bool-cases (bytes_eq j y.key)) [
      | inl here ↦ let e : j ≡ y.key = (bytes_eq_iff j y.key).0 here in rw (self, here, e) (d.0)
      | inr away ↦ rw (self, away)
    ]

rest_kept :
    (key j : Bytes) (y : Item) (left items : List Item)
    → bytes_eq key y.key ≡ false
    → keyed j left ≡ (if bytes_eq j key then none else keyed j items)
    → keyed j (y ∷ left) ≡ (if bytes_eq j key then none else keyed j (y ∷ items))
rest_kept key j y left items away h = elim (Bool-cases (bytes_eq j key)) [
  | inl here ↦
      let e : j ≡ key = (bytes_eq_iff j key).0 here in
      let apart : bytes_eq j y.key ≡ false = ap (λ k. bytes_eq k y.key) e ∙ away in
      rw (apart, here) (rw here at h)
  | inr other ↦ rw (other, rw other at h)
]

-- Taking out an item leaves the items of all other keys.
pub keyed-without :
    (key j : Bytes) (items : List Item) {x : Item}
    → Distinct items
    → keyed key items ≡ some x
    → keyed j (without x.id items) ≡ (if bytes_eq j key then none else keyed j items)
unfolding without
keyed-without key j [] d h = absurd (cc)
keyed-without key j (y ∷ items) {x} d h = elim (Bool-cases (bytes_eq key y.key)) [
  | inl here ↦
      let e : y ≡ x = some_inj (rw here at h) in
      let k : key ≡ y.key = (bytes_eq_iff key y.key).0 here in
      ap (λ (n : Item). keyed j (without n.id (y ∷ items))) (sym e)
      ∙ first_out j y items d
      ∙ ap (λ k. if bytes_eq j k then none else keyed j (y ∷ items)) (sym k)
  | inr away ↦
      let found : keyed key items ≡ some x = rw away at h in
      let other = ne_head key y items d found in
      rw other
        (rest_kept key j y (without x.id items) items away (keyed-without key j items d.2 found))
]

-- The cache between two operations.
pub record IsLinked (c : Lru) : Type 0 where
  pub distinct : Distinct c.items
  pub indexed : (key : Bytes) → find key c.index ≡ id_of (keyed key c.items)
  pub ascends : Ascending c.index
  pub fresh : All (λ (x : Item). x.id < c.next_id) c.items
  pub bounded : length c.items ≤ c.capacity

without-keyed-none :
    (key : Bytes) (id : ℕ) (items : List Item)
    → keyed key items ≡ none
    → keyed key (without id items) ≡ none
unfolding without
without-keyed-none key id [] h = refl
without-keyed-none key id (y ∷ items) h = elim (Bool-cases (bytes_eq key y.key)) [
  | inl here ↦ absurd (let h' = rw here at h in cc)
  | inr away ↦
      let h' : keyed key items ≡ none = rw away at h in
      elim (Bool-cases (id == y.id)) [
        | inl same ↦ rw same h'
        | inr other ↦ rw (other, away) (without-keyed-none key id items h')
      ]
]

without-item_at-none :
    (i id : ℕ) (items : List Item) → item_at i items ≡ none → item_at i (without id items) ≡ none
unfolding without item_at
without-item_at-none i id [] h = refl
without-item_at-none i id (y ∷ items) h = let rest = without-item_at-none i id items in ground arith

pub without-Distinct : (id : ℕ) (items : List Item) → Distinct items → Distinct (without id items)
unfolding without
without-Distinct id [] d = tt
without-Distinct id (y ∷ items) d = elim (Bool-cases (id == y.id)) [
  | inl same ↦ rw same d.2
  | inr other ↦ rw other (
    without-keyed-none y.key id items d.0,
    without-item_at-none y.id id items d.1,
    without-Distinct id items d.2,
  )
]

pub without_self :
    (id : ℕ) (items : List Item) → Distinct items → item_at id (without id items) ≡ none
unfolding without item_at
without_self id [] d = refl
without_self id (y ∷ items) d = elim (Bool-cases (id == y.id)) [
  | inl same ↦ let e : id ≡ y.id = ground arith in rw same (ap (λ i. item_at i items) e ∙ d.1)
  | inr other ↦ rw (other, other) (without_self id items d.2)
]

pub without-All :
    (P : Item → Type 0) (id : ℕ) (items : List Item) → All P items → All P (without id items)
unfolding without
without-All P id [] h = tt
without-All P id (y ∷ items) h = elim (Bool-cases (id == y.id)) [
  | inl same ↦ rw same h.1
  | inr other ↦ rw other (h.0, without-All P id items h.1)
]

pub length-without :
    (id : ℕ) (items : List Item) {x : Item}
    → item_at id items ≡ some x
    → suc (length (without id items)) ≡ length items
unfolding without item_at
length-without id [] h = absurd (cc)
length-without id (y ∷ items) h = elim (Bool-cases (id == y.id)) [
  | inl same ↦ rw same
  | inr other ↦ rw other (ap suc (length-without id items (rw other at h)))
]
