-- ===== src/Storage/SortedMap.antt =====
-- `std::map<std::string, A>` as its items in ascending order of their keys.
pub mod Erase
use kv_raft_storage.Common.{
  ◌≡◌, refl, inl, inr, true, false, List, [], ◌∷◌, ◌++◌, Option, none, some, if◌then◌else◌, arith,
  Bytes, bytes_eq, bytes_eq_iff, Bool-cases, All,
}
use kv_raft_storage.Storage.KeyOrder.{
  key_lt, key_lt_irrefl, key_lt_trans, key-cases, key_lt-ne, key_lt-ne_sym, key_lt_asym,
}

abbrev pub SortedMap : Type 0 → Type 0
SortedMap A = List (Bytes × A)

module _ {A : Type 0} where
  -- `find`: the value at the key.
  unfoldable pub find : Bytes → SortedMap A → Option A
  find k [] = none
  find k (x ∷ m) = let rest = find k m in if bytes_eq k x.0 then some x.1 else rest

  -- `m[key] = value`
  unfoldable pub insert : Bytes → A → SortedMap A → SortedMap A
  insert k v [] = (k, v) ∷ []
  insert k v (x ∷ m) =
      let rest = insert k v m in
      if key_lt k x.0 then (k, v) ∷ x ∷ m else if bytes_eq k x.0 then (k, v) ∷ m else x ∷ rest

  -- `erase`
  unfoldable pub erase : Bytes → SortedMap A → SortedMap A
  erase k [] = []
  erase k (x ∷ m) = let rest = erase k m in if bytes_eq k x.0 then m else x ∷ rest

  -- All keys are behind `k`.
  abbrev pub Behind : Bytes → SortedMap A → Type 0
  Behind k m = All (λ (x : Bytes × A). key_lt k x.0 ≡ true) m

  -- The keys ascend.
  abbrev pub Ascending : SortedMap A → Type 0
  Ascending [] = Unit
  Ascending (x ∷ m) = Behind x.0 m × Ascending m

  pub find-insert_self : (k : Bytes) (v : A) (m : SortedMap A) → find k (insert k v m) ≡ some v
  unfolding find insert
  find-insert_self k v [] = rw ((bytes_eq_iff k k).1 refl)
  find-insert_self k v (x ∷ m) = ground (arith, find-insert_self k v m, (bytes_eq_iff k k).1 refl)

  pub find-insert_ne :
      (j k : Bytes) (v : A) (m : SortedMap A)
      → bytes_eq j k ≡ false
      → find j (insert k v m) ≡ find j m
  unfolding find insert
  find-insert_ne j k v [] h = rw h
  find-insert_ne j k v (x ∷ m) h = elim (Bool-cases (key_lt k x.0)) [
    | inl before ↦ rw (before, h)
    | inr b ↦ elim (Bool-cases (bytes_eq k x.0)) [
      | inl here ↦ let same : k ≡ x.0 = (bytes_eq_iff k x.0).0 here in rw (b, here, h, ← same, h)
      | inr past ↦ rw (b, past, find-insert_ne j k v m h)
    ]
  ]

  Behind-insert :
      (j k : Bytes) (v : A) (m : SortedMap A)
      → key_lt j k ≡ true
      → Behind j m
      → Behind j (insert k v m)
  unfolding insert
  Behind-insert j k v [] h b = (h, tt)
  Behind-insert j k v (x ∷ m) h b = elim (Bool-cases (key_lt k x.0)) [
    | inl before ↦ rw before (h, b)
    | inr l ↦ elim (Bool-cases (bytes_eq k x.0)) [
      | inl here ↦ rw (l, here) (h, b.1)
      | inr past ↦ rw (l, past) (b.0, Behind-insert j k v m h b.1)
    ]
  ]

  pub Behind-trans : (j k : Bytes) (m : SortedMap A) → key_lt j k ≡ true → Behind k m → Behind j m
  Behind-trans j k [] h b = tt
  Behind-trans j k (x ∷ m) h b = (key_lt_trans j k x.0 h b.0, Behind-trans j k m h b.1)

  pub insert-Ascending :
      (k : Bytes) (v : A) (m : SortedMap A) → Ascending m → Ascending (insert k v m)
  unfolding insert
  insert-Ascending k v [] a = (tt, tt)
  insert-Ascending k v (x ∷ m) a = elim (key-cases k x.0) [
    | inl before ↦ rw before ((before, Behind-trans k x.0 m before a.0), a)
    | inr (inl here) ↦ rw (here, key_lt_irrefl x.0, (bytes_eq_iff x.0 x.0).1 refl) a
    | inr (inr past) ↦
        rw (key_lt_asym x.0 k past, key_lt-ne_sym x.0 k past)
          (Behind-insert x.0 k v m past a.0, insert-Ascending k v m a.1)
  ]

  -- No key behind `k` is `k` or before it.
  pub Behind-find : (k : Bytes) (m : SortedMap A) → Behind k m → find k m ≡ none
  unfolding find
  Behind-find k [] b = refl
  Behind-find k (x ∷ m) b = rw (key_lt-ne k x.0 b.0) (Behind-find k m b.1)

  pub find-append_none :
      (k : Bytes) (m n : SortedMap A) → find k m ≡ none → find k (m ++ n) ≡ find k n
  unfolding find
  find-append_none k [] n h = refl
  find-append_none k (x ∷ m) n h = ground (arith, find-append_none k m n)

  pub find-append_past :
      (k : Bytes) (m n : SortedMap A) → find k n ≡ none → find k (m ++ n) ≡ find k m
  unfolding find
  find-append_past k [] n h = h
  find-append_past k (x ∷ m) n h = ground (arith, find-append_past k m n h)

  pub Behind-append_left : (k : Bytes) (m n : SortedMap A) → Behind k (m ++ n) → Behind k m
  Behind-append_left k [] n b = tt
  Behind-append_left k (x ∷ m) n b = (b.0, Behind-append_left k m n b.1)

  pub Behind-append_right : (k : Bytes) (m n : SortedMap A) → Behind k (m ++ n) → Behind k n
  Behind-append_right k [] n b = b
  Behind-append_right k (x ∷ m) n b = Behind-append_right k m n b.1
