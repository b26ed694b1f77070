-- ===== src/Storage/Lsm/Collect.antt =====
-- The loops of `ExportVisibleDataLocked` and `CompactSSTablesLocked`, as lookups.
use kv_raft_storage.Storage.Layers.{
  is_seen, is_put, collect_item, collect_items, collect_maps, find_in_maps,
}
use kv_raft_storage.Common.{
  ◌≡◌, refl, sym, ap, ◌∙◌, inl, inr, Bool, true, false, List, [], ◌∷◌, Option, none, some, Bytes,
  bytes_eq, bytes_eq_iff, or_else, or_else-none, or_else_assoc, Bool-cases, if◌then◌else◌,
}
use kv_raft_storage.Storage.SortedMap.{SortedMap, find, insert, find-insert_self, find-insert_ne}
use kv_raft_storage.Storage.Codec.{Entry}
use kv_raft_storage.Storage.Table.{bit_or_clear}

abbrev pub flatten : {A : Type 0} → Option (Option A) → Option A
flatten none = none
flatten (some o) = o

module _ {A : Type 0} (keep : Entry → A) where
  -- What is kept of an entry.
  abbrev pub kept : Entry → Option A
  kept e = if is_put e then some (keep e) else none

  abbrev pub kept_of : Option Entry → Option (Option A)
  kept_of none = none
  kept_of (some e) = some (kept e)

  -- What a collection has decided about a key.
  abbrev decided : Bytes → SortedMap A × SortedMap Bool → Option (Option A)
  decided key acc = if is_seen key acc.1 then some (find key acc.0) else none

  -- A key that was not seen is not in the result.
  abbrev Clean : Bytes → SortedMap A × SortedMap Bool → Type 0
  Clean key acc = is_seen key acc.1 ≡ false → find key acc.0 ≡ none

  abbrev item_at : Bytes → Bytes × Entry → Option Entry
  item_at key x = if bytes_eq key x.0 then some x.1 else none

  decided-seen :
      (key : Bytes) (result : SortedMap A) (seen : SortedMap Bool)
      → is_seen key seen ≡ true
      → decided key (result, seen) ≡ some (find key result)
  decided-seen key result seen h = rw h

  decided-fresh :
      (key : Bytes) (result : SortedMap A) (seen : SortedMap Bool)
      → is_seen key seen ≡ false
      → decided key (result, seen) ≡ none
  decided-fresh key result seen h = rw h

  -- An item of another key changes nothing for this one.
  result-away :
      (key : Bytes) (x : Bytes × Entry) (result : SortedMap A)
      → bytes_eq key x.0 ≡ false
      → find key (if is_put x.1 then insert x.0 (keep x.1) result else result) ≡ find key result
  result-away key x result away = elim (Bool-cases (is_put x.1)) [
    | inl p ↦ rw p (find-insert_ne key x.0 (keep x.1) result away)
    | inr d ↦ rw d
  ]

  result-here :
      (x : Bytes × Entry) (result : SortedMap A)
      → find x.0 result ≡ none
      → find x.0 (if is_put x.1 then insert x.0 (keep x.1) result else result) ≡ kept x.1
  result-here x result absent = elim (Bool-cases (is_put x.1)) [
    | inl p ↦ rw p (find-insert_self x.0 (keep x.1) result)
    | inr d ↦ rw d absent
  ]

  collect_item-here :
      (x : Bytes × Entry) (result : SortedMap A) (seen : SortedMap Bool)
      → Clean x.0 (result, seen)
      → (decided x.0 (collect_item keep x (result, seen))
          ≡ or_else (decided x.0 (result, seen)) (some (kept x.1)))
        × Clean x.0 (collect_item keep x (result, seen))
  unfolding collect_item
  collect_item-here x result seen clean = elim (Bool-cases (is_seen x.0 seen)) [
    | inl known ↦ rw known (decided-seen x.0 result seen known, (λ h. absurd (cc)))
    | inr fresh ↦
        let now : is_seen x.0 (insert x.0 true seen) ≡ true =
          ap bit_or_clear (find-insert_self x.0 true seen) in
        rw fresh (
          decided-seen x.0 _ (insert x.0 true seen) now
              ∙ ap some (result-here x result (clean fresh)),
          (λ h. absurd (cc)),
        )
  ]

  collect_item-away :
      (key : Bytes) (x : Bytes × Entry) (result : SortedMap A) (seen : SortedMap Bool)
      → bytes_eq key x.0 ≡ false
      → Clean key (result, seen)
      → (decided key (collect_item keep x (result, seen)) ≡ decided key (result, seen))
        × Clean key (collect_item keep x (result, seen))
  unfolding collect_item
  collect_item-away key x result seen away clean = elim (Bool-cases (is_seen x.0 seen)) [
    | inl known ↦ rw known (refl, clean)
    | inr fresh ↦
        rw (fresh, find-insert_ne key x.0 true seen away, result-away key x result away)
          (refl, clean)
  ]

  collect_item-decided :
      (key : Bytes) (x : Bytes × Entry) (acc : SortedMap A × SortedMap Bool)
      → Clean key acc
      → (decided key (collect_item keep x acc)
          ≡ or_else (decided key acc) (kept_of (item_at key x)))
        × Clean key (collect_item keep x acc)
  collect_item-decided key x (result, seen) clean = elim (Bool-cases (bytes_eq key x.0)) [
    | inl here ↦
        let same : key ≡ x.0 = (bytes_eq_iff key x.0).0 here in
        let out = collect_item-here x result seen (rw same at clean) in rw (here, same) out
    | inr away ↦
        let (d, c) = collect_item-away key x result seen away clean in
        rw away (d ∙ sym (or_else-none (decided key (result, seen))), c)
  ]

  kept_of-or_else : (o p : Option Entry) → or_else (kept_of o) (kept_of p) ≡ kept_of (or_else o p)
  kept_of-or_else none p = refl
  kept_of-or_else (some e) p = refl

  first_kept :
      (key : Bytes) (x : Bytes × Entry) (items : SortedMap Entry)
      → or_else (kept_of (item_at key x)) (kept_of (find key items))
        ≡ kept_of (find key (x ∷ items))
  unfolding find
  first_kept key x items = elim (Bool-cases (bytes_eq key x.0)) [
    | inl here ↦ rw here
    | inr away ↦ rw away
  ]

  start-Clean : (key : Bytes) → Clean key ([], [])
  unfolding find
  start-Clean key h = refl

  start_open :
      (key : Bytes) (maps : List (SortedMap Entry))
      → or_else (decided key ([], [])) (kept_of (find_in_maps key maps))
        ≡ kept_of (find_in_maps key maps)
  unfolding find
  start_open key maps = refl

  collect_items-decided :
      (key : Bytes) (items : SortedMap Entry) (acc : SortedMap A × SortedMap Bool)
      → Clean key acc
      → (decided key (collect_items keep items acc)
          ≡ or_else (decided key acc) (kept_of (find key items)))
        × Clean key (collect_items keep items acc)
  unfolding collect_items find
  collect_items-decided key [] acc clean = (sym (or_else-none (decided key acc)), clean)
  collect_items-decided key (x ∷ items) acc clean =
      let (d, c) = collect_item-decided key x acc clean in
      let (ds, cs) = collect_items-decided key items (collect_item keep x acc) c in
      (
        ds
            ∙ ap (λ o. or_else o (kept_of (find key items))) d
            ∙ or_else_assoc (decided key acc) (kept_of (item_at key x)) (kept_of (find key items))
            ∙ ap (λ o. or_else (decided key acc) o) (first_kept key x items),
        cs,
      )

  collect_maps-decided :
      (key : Bytes) (maps : List (SortedMap Entry)) (acc : SortedMap A × SortedMap Bool)
      → Clean key acc
      → (decided key (collect_maps keep maps acc)
          ≡ or_else (decided key acc) (kept_of (find_in_maps key maps)))
        × Clean key (collect_maps keep maps acc)
  unfolding collect_maps find_in_maps
  collect_maps-decided key [] acc clean = (sym (or_else-none (decided key acc)), clean)
  collect_maps-decided key (m ∷ maps) acc clean =
      let (d, c) = collect_items-decided key m acc clean in
      let (ds, cs) = collect_maps-decided key maps (collect_items keep m acc) c in
      (
        ds
            ∙ ap (λ o. or_else o (kept_of (find_in_maps key maps))) d
            ∙ or_else_assoc (decided key acc) (kept_of (find key m))
                (kept_of (find_in_maps key maps))
            ∙ ap (λ o. or_else (decided key acc) o)
                (kept_of-or_else (find key m) (find_in_maps key maps)),
        cs,
      )

  decided-find :
      (key : Bytes) (acc : SortedMap A × SortedMap Bool)
      → Clean key acc
      → find key acc.0 ≡ flatten (decided key acc)
  decided-find key (result, seen) clean = elim (Bool-cases (is_seen key seen)) [
    | inl known ↦ rw known
    | inr fresh ↦ rw fresh (clean fresh)
  ]

  -- What is collected from nothing holds, at each key, what is kept of the newest entry.
  pub find-collect_maps :
      (key : Bytes) (maps : List (SortedMap Entry))
      → find key (collect_maps keep maps ([], [])).0 ≡ flatten (kept_of (find_in_maps key maps))
  find-collect_maps key maps =
      let start : Clean key ([], []) = start-Clean key in
      let (d, c) = collect_maps-decided key maps ([], []) start in
      decided-find key (collect_maps keep maps ([], [])) c ∙ ap flatten (d ∙ start_open key maps)
