-- ===== src/Storage/Lsm/Export.antt =====
-- `ExportVisibleDataLocked` and `RangeScan` of `LSMTreeEngine`, against `Get`.
use kv_raft_storage.Storage.Layers.{Lsm, layers, live, export_visible, scan_range, range_scan}
use kv_raft_storage.Common.{
  ◌≡◌, refl, sym, ap, ◌∙◌, inl, inr, Bool, true, ◌&&◌, [], ◌∷◌, Option, none, some, if◌then◌else◌,
  Bytes, bytes_eq, bytes_eq_iff, Bool-cases, arith,
}
use kv_raft_storage.Storage.KeyOrder.{key_lt, key_le, key_lt-ne_sym, key_lt-le-lt, key-cases}
use kv_raft_storage.Storage.SortedMap.{
  SortedMap, find, Behind, Ascending, Behind-find, Behind-trans,
}
use kv_raft_storage.Storage.Codec.{Entry, EntryType, put_type, delete_type}
use kv_raft_storage.Storage.Table.{Hasher}
use kv_raft_storage.Storage.Lsm.{get}
use kv_raft_storage.Storage.Lsm.Collect.{kept_of, flatten, find-collect_maps}
use kv_raft_storage.Storage.Lsm.Sound.{IsWf}
use kv_raft_storage.Storage.Lsm.Refine.{visible, get-visible}
use kv_raft_storage.Storage.Lsm.Compact.{collect_maps-Ascending}

live-kept : (o : Option Entry) → flatten (kept_of (λ (x : Entry). x.value) o) ≡ live o
unfolding live
live-kept none = refl
live-kept (some e) = by_type e.entry_type e refl
  where
    by_type :
        (t : EntryType) (e : Entry)
        → e.entry_type ≡ t
        → flatten (kept_of (λ (x : Entry). x.value) (some e)) ≡ live (some e)
    by_type put_type e h = rw h refl
    by_type delete_type e h = rw h refl

pub find-export_visible :
    (key : Bytes) (e : Lsm) → find key (export_visible e) ≡ live (visible key e)
unfolding export_visible
find-export_visible key e =
    find-collect_maps (λ (x : Entry). x.value) key (layers e) ∙ live-kept (visible key e)

pub export_visible-Ascending : (e : Lsm) → Ascending (export_visible e)
unfolding export_visible
export_visible-Ascending e = collect_maps-Ascending (λ (x : Entry). x.value) (layers e) ([], []) tt

-- The keys from `start_key` to `end_key`.
abbrev pub is_between : Bytes → Bytes → Bytes → Bool
is_between start_key end_key key = key_le start_key key && key_le key end_key

-- No key past the end is between.
past-none :
    (start_key end_key key : Bytes) (data_ : SortedMap Bytes)
    → Behind end_key data_
    → (if is_between start_key end_key key then find key data_ else none) ≡ none
past-none start_key end_key key data_ b = elim (Bool-cases (is_between start_key end_key key)) [
  | inr out ↦ rw out
  | inl between ↦ rw between (elim (key-cases key end_key) [
    | inl before ↦ Behind-find key data_ (Behind-trans key end_key data_ before b)
    | inr (inl here) ↦ rw here (Behind-find end_key data_ b)
    | inr (inr past) ↦ absurd (ground arith)
  ])
]

-- An item before the start is not between.
low-skip :
    (start_key end_key key : Bytes) (x : Bytes × Bytes) (data_ : SortedMap Bytes)
    → key_lt x.0 start_key ≡ true
    → (if is_between start_key end_key key then find key data_ else none)
      ≡ (if is_between start_key end_key key then find key (x ∷ data_) else none)
unfolding find
low-skip start_key end_key key x data_ low = elim (Bool-cases (key_lt key start_key)) [
  | inl before ↦ rw before
  | inr from ↦ rw (key_lt-ne_sym x.0 key (key_lt-le-lt x.0 start_key key low from))
]

reversed-none :
    (start_key end_key key : Bytes) (o : Option Bytes)
    → key_lt end_key start_key ≡ true
    → (if is_between start_key end_key key then o else none) ≡ none
reversed-none start_key end_key key o reversed = elim (Bool-cases (key_lt key start_key)) [
  | inl before ↦ rw before
  | inr from ↦ rw (from, key_lt-le-lt end_key start_key key reversed from)
]

scan_range-Behind :
    (k start_key end_key : Bytes) (data_ : SortedMap Bytes)
    → Behind k data_
    → Behind k (scan_range start_key end_key data_)
unfolding scan_range
scan_range-Behind k start_key end_key [] b = tt
scan_range-Behind k start_key end_key (x ∷ data_) b = elim (Bool-cases (key_lt x.0 start_key)) [
  | inl low ↦ rw low (scan_range-Behind k start_key end_key data_ b.1)
  | inr from ↦ elim (Bool-cases (key_lt end_key x.0)) [
    | inl high ↦ rw (from, high) tt
    | inr inside ↦ rw (from, inside) (b.0, scan_range-Behind k start_key end_key data_ b.1)
  ]
]

scan_range-Ascending :
    (start_key end_key : Bytes) (data_ : SortedMap Bytes)
    → Ascending data_
    → Ascending (scan_range start_key end_key data_)
unfolding scan_range
scan_range-Ascending start_key end_key [] a = tt
scan_range-Ascending start_key end_key (x ∷ data_) a = elim (Bool-cases (key_lt x.0 start_key)) [
  | inl low ↦ rw low (scan_range-Ascending start_key end_key data_ a.1)
  | inr from ↦ elim (Bool-cases (key_lt end_key x.0)) [
    | inl high ↦ rw (from, high) tt
    | inr inside ↦
        rw (from, inside)
          (
            scan_range-Behind x.0 start_key end_key data_ a.0,
            scan_range-Ascending start_key end_key data_ a.1,
          )
  ]
]

find-scan_range :
    (start_key end_key key : Bytes) (data_ : SortedMap Bytes)
    → Ascending data_
    → find key (scan_range start_key end_key data_)
      ≡ (if is_between start_key end_key key then find key data_ else none)
unfolding scan_range find
find-scan_range start_key end_key key [] a = ground arith
find-scan_range start_key end_key key (x ∷ data_) a = elim (Bool-cases (key_lt x.0 start_key)) [
  | inl low ↦
      rw low (
        find-scan_range start_key end_key key data_ a.1
        ∙ low-skip start_key end_key key x data_ low)
  | inr from ↦ elim (Bool-cases (key_lt end_key x.0)) [
    | inl high ↦
        rw (from, high)
          (sym (
            past-none start_key end_key key (x ∷ data_)
              (high, Behind-trans end_key x.0 data_ high a.0)))
    | inr inside ↦ elim (Bool-cases (bytes_eq key x.0)) [
      | inl here ↦
          let same : key ≡ x.0 = (bytes_eq_iff key x.0).0 here in
          rw (from, inside, here, same, from, inside)
      | inr away ↦ rw (from, inside, away, find-scan_range start_key end_key key data_ a.1)
    ]
  ]
]

-- On a well-formed engine `RangeScan` returns, in ascending order, exactly the keys between the two
-- bounds, bounds included, with the values that `Get` returns; it is empty if the bounds are
-- reversed.
pub range_scan-get :
    ⦃hasher : Hasher⦄
    → (start_key end_key key : Bytes) (e : Lsm) → IsWf e
    → (find key (range_scan start_key end_key e)
        ≡ (if is_between start_key end_key key then get key e else none))
      × Ascending (range_scan start_key end_key e)
unfolding range_scan find
range_scan-get start_key end_key key e w = elim (Bool-cases (key_lt end_key start_key)) [
  | inl reversed ↦ rw reversed (sym (reversed-none start_key end_key key (get key e) reversed), tt)
  | inr ordered ↦ rw ordered (
    find-scan_range start_key end_key key (export_visible e) (export_visible-Ascending e)
        ∙ ap (λ o. if is_between start_key end_key key then o else none)
            (find-export_visible key e ∙ sym (get-visible key e w)),
    scan_range-Ascending start_key end_key (export_visible e) (export_visible-Ascending e),
  )
]
