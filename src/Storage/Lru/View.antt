-- ===== src/Storage/Lru/View.antt =====
-- The cache as its keys and values, the most recent first, and what its operations are on these.
use kv_raft_storage.Common.{
  ℕ, zero, suc, ◌≡◌, refl, ap, ◌∙◌, inl, inr, true, false, List, [], ◌∷◌, Option, none, some, ◌==◌,
  if◌then◌else◌, length, take, Bytes, bytes_eq, bytes_eq_iff, Bool-cases, arith, All, some_inj,
}
use kv_raft_storage.Storage.SortedMap.{find, erase}
use kv_raft_storage.Storage.Lru.{Item, item_at, without, drop_last, last_item}
use kv_raft_storage.Storage.Lru.Linked.{keyed, Distinct, ne_head}
use kv_raft_storage.Storage.Lru.Reads.{value_of}

abbrev pub view : List Item → List (Bytes × Bytes)
view [] = []
view (x ∷ items) = (x.key, x.value) ∷ view items

-- A use of a key moves it to the front.
abbrev pub touched : Bytes → Bytes → List (Bytes × Bytes) → List (Bytes × Bytes)
touched key value l = (key, value) ∷ erase key l

abbrev pub after_get : Option Bytes → Bytes → List (Bytes × Bytes) → List (Bytes × Bytes)
after_get none key l = l
after_get (some value) key l = touched key value l

pub find-view :
    (key : Bytes) (items : List Item) → find key (view items) ≡ value_of (keyed key items)
unfolding find
find-view key [] = refl
find-view key (x ∷ items) = elim (Bool-cases (bytes_eq key x.key)) [
  | inl here ↦ rw here
  | inr away ↦ rw away (find-view key items)
]

pub length-view : (items : List Item) → length (view items) ≡ length items
length-view [] = refl
length-view (x ∷ items) = ap suc (length-view items)

pub view-without :
    (key : Bytes) (items : List Item) {x : Item}
    → Distinct items
    → keyed key items ≡ some x
    → view (without x.id items) ≡ erase key (view items)
unfolding without erase
view-without key [] d h = absurd (cc)
view-without key (y ∷ items) {x} d h = elim (Bool-cases (bytes_eq key y.key)) [
  | inl here ↦
      let e : y ≡ x = some_inj (rw here at h) in
      let same : (x.id == y.id) ≡ true = ground arith in rw (here, same)
  | inr away ↦
      let found : keyed key items ≡ some x = rw away at h in
      let other = ne_head key y items d found in
      rw (away, other) (ap (λ l. (y.key, y.value) ∷ l) (view-without key items d.2 found))
]

pub view-drop_last :
    (n : ℕ) (x : Item) (items : List Item)
    → length items ≡ n
    → view (drop_last (x ∷ items)) ≡ take n (view (x ∷ items))
view-drop_last zero x [] h = refl
view-drop_last zero x (y ∷ items) h = absurd (ground arith)
view-drop_last (suc n) x [] h = absurd (ground arith)
view-drop_last (suc n) x (y ∷ items) h =
    ap (λ l. (x.key, x.value) ∷ l) (view-drop_last n y items (omega arith))

-- A key that no item has is not that of the last item.
keyed-last_item :
    (k : Bytes) (x : Item) (items : List Item)
    → keyed k (x ∷ items) ≡ none
    → bytes_eq k (last_item x items).key ≡ false
keyed-last_item k x [] h = elim (Bool-cases (bytes_eq k x.key)) [
  | inl here ↦ absurd (let h' = rw here at h in cc)
  | inr away ↦ away
]
keyed-last_item k x (y ∷ items) h = elim (Bool-cases (bytes_eq k x.key)) [
  | inl here ↦ absurd (let h' = rw here at h in cc)
  | inr away ↦ keyed-last_item k y items (rw away at h)
]

pub keyed-drop_last :
    (j : Bytes) (x : Item) (items : List Item)
    → Distinct (x ∷ items)
    → keyed j (drop_last (x ∷ items))
      ≡ (if bytes_eq j (last_item x items).key then none else keyed j (x ∷ items))
keyed-drop_last j x [] d = elim (Bool-cases (bytes_eq j x.key)) [ inl b ↦ rw b | inr b ↦ rw b ]
keyed-drop_last j x (y ∷ items) d = elim (Bool-cases (bytes_eq j x.key)) [
  | inl here ↦
      let e : j ≡ x.key = (bytes_eq_iff j x.key).0 here in
      let apart : bytes_eq j (last_item y items).key ≡ false =
        ap (λ k. bytes_eq k (last_item y items).key) e ∙ keyed-last_item x.key y items d.0 in
      rw (here, apart)
  | inr away ↦ rw away (keyed-drop_last j y items d.2)
]

drop_last-keyed-none :
    (k : Bytes) (x : Item) (items : List Item)
    → keyed k (x ∷ items) ≡ none
    → keyed k (drop_last (x ∷ items)) ≡ none
drop_last-keyed-none k x [] h = refl
drop_last-keyed-none k x (y ∷ items) h = elim (Bool-cases (bytes_eq k x.key)) [
  | inl here ↦ absurd (let h' = rw here at h in cc)
  | inr away ↦ rw away (drop_last-keyed-none k y items (rw away at h))
]

drop_last-item_at-none :
    (i : ℕ) (x : Item) (items : List Item)
    → item_at i (x ∷ items) ≡ none
    → item_at i (drop_last (x ∷ items)) ≡ none
unfolding item_at
drop_last-item_at-none i x [] h = refl
drop_last-item_at-none i x (y ∷ items) h = elim (Bool-cases (i == x.id)) [
  | inl here ↦ absurd (let h' = rw here at h in cc)
  | inr away ↦ rw away (drop_last-item_at-none i y items (rw away at h))
]

pub drop_last-Distinct :
    (x : Item) (items : List Item) → Distinct (x ∷ items) → Distinct (drop_last (x ∷ items))
drop_last-Distinct x [] d = tt
drop_last-Distinct x (y ∷ items) d = (
  drop_last-keyed-none x.key y items d.0,
  drop_last-item_at-none x.id y items d.1,
  drop_last-Distinct y items d.2,
)

pub drop_last-All :
    (P : Item → Type 0) (x : Item) (items : List Item)
    → All P (x ∷ items)
    → All P (drop_last (x ∷ items))
drop_last-All P x [] a = tt
drop_last-All P x (y ∷ items) a = (a.0, drop_last-All P y items a.1)

pub length-drop_last :
    (x : Item) (items : List Item) → length (drop_last (x ∷ items)) ≡ length items
length-drop_last x [] = refl
length-drop_last x (y ∷ items) = ap suc (length-drop_last y items)
