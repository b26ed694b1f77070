-- ===== src/Storage/SortedMap/Erase.antt =====
-- `erase` of a map, and of a list of pairs that holds a key once.
use kv_raft_storage.Common.{
  ◌≡◌, refl, sym, ap, ◌∙◌, inl, inr, false, [], ◌∷◌, none, some, if◌then◌else◌, arith, Bytes,
  bytes_eq, bytes_eq_iff, Bool-cases, ℕ, zero, suc, take,
}
use kv_raft_storage.Storage.SortedMap.{
  SortedMap, find, erase, insert, Behind, Behind-find, Ascending, find-insert_self, find-insert_ne,
}

module _ {A : Type 0} where
  Behind-erase : (j k : Bytes) (m : SortedMap A) → Behind j m → Behind j (erase k m)
  unfolding erase
  Behind-erase j k [] b = tt
  Behind-erase j k (x ∷ m) b = elim (Bool-cases (bytes_eq k x.0)) [
    | inl here ↦ rw here b.1
    | inr past ↦ rw past (b.0, Behind-erase j k m b.1)
  ]

  pub erase-Ascending : (k : Bytes) (m : SortedMap A) → Ascending m → Ascending (erase k m)
  unfolding erase
  erase-Ascending k [] a = tt
  erase-Ascending k (x ∷ m) a = elim (Bool-cases (bytes_eq k x.0)) [
    | inl here ↦ rw here a.1
    | inr past ↦ rw past (Behind-erase x.0 k m a.0, erase-Ascending k m a.1)
  ]

  pub find-erase :
      (j k : Bytes) (m : SortedMap A)
      → Ascending m
      → find j (erase k m) ≡ (if bytes_eq j k then none else find j m)
  unfolding erase find
  find-erase j k [] a = ground arith
  find-erase j k (x ∷ m) a = elim (Bool-cases (bytes_eq k x.0)) [
    | inl here ↦
        let e : k ≡ x.0 = (bytes_eq_iff k x.0).0 here in
        elim (Bool-cases (bytes_eq j x.0)) [
          | inl same ↦
              let gone = Behind-find x.0 m a.0 in
              rw (here, e, same, (bytes_eq_iff j x.0).0 same) gone
          | inr other ↦ rw (here, e, other)
        ]
    | inr past ↦ elim (Bool-cases (bytes_eq j x.0)) [
      | inl same ↦
          let e : j ≡ x.0 = (bytes_eq_iff j x.0).0 same in
          let apart : bytes_eq j k ≡ false = elim (Bool-cases (bytes_eq j k)) [
            | inl b ↦
                let f = (bytes_eq_iff j k).0 b in
                absurd (let g = (bytes_eq_iff k x.0).1 (sym f ∙ e) in cc)
            | inr b ↦ b
          ] in
          rw (past, same, apart)
      | inr other ↦ rw (past, other) (find-erase j k m a.1)
    ]
  ]

  -- A write under any key, in the form that tests the key.
  pub find-insert :
      (j k : Bytes) (v : A) (m : SortedMap A)
      → find j (insert k v m) ≡ (if bytes_eq j k then some v else find j m)
  find-insert j k v m = elim (Bool-cases (bytes_eq j k)) [
    | inl same ↦
        let e : j ≡ k = (bytes_eq_iff j k).0 same in
        rw same (ap (λ i. find i (insert k v m)) e ∙ find-insert_self k v m)
    | inr other ↦ rw other (find-insert_ne j k v m other)
  ]

  pub erase_absent : (k : Bytes) (m : SortedMap A) → find k m ≡ none → erase k m ≡ m
  unfolding erase find
  erase_absent k [] h = refl
  erase_absent k (x ∷ m) h = ground (arith, erase_absent k m)

  pub find-erase_ne :
      (j k : Bytes) (m : SortedMap A) → bytes_eq j k ≡ false → find j (erase k m) ≡ find j m
  unfolding erase find
  find-erase_ne j k [] h = refl
  find-erase_ne j k (x ∷ m) h = elim (Bool-cases (bytes_eq k x.0)) [
    | inl here ↦
        let apart : bytes_eq j x.0 ≡ false =
          ap (bytes_eq j) (sym ((bytes_eq_iff k x.0).0 here)) ∙ h in
        rw (here, apart)
    | inr past ↦ elim (Bool-cases (bytes_eq j x.0)) [
      | inl b ↦ rw (past, b)
      | inr b ↦ rw (past, b) (find-erase_ne j k m h)
    ]
  ]

  pub find-take :
      (j : Bytes) (n : ℕ) (m : SortedMap A) {v : A} → find j (take n m) ≡ some v → find j m ≡ some v
  unfolding find
  find-take j zero m h = absurd (cc)
  find-take j (suc n) [] h = h
  find-take j (suc n) (x ∷ m) h = elim (Bool-cases (bytes_eq j x.0)) [
    | inl b ↦ rw b (rw b at h)
    | inr b ↦ rw b (find-take j n m (rw b at h))
  ]
