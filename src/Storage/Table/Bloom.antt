-- ===== src/Storage/Table/Bloom.antt =====
-- `AddBloomKey` and `BloomMayContain` of `SSTable`.
use kv_raft_storage.Common.{
  ℕ, zero, suc, ◌+◌, ◌*◌, ◌/◌, ◌%◌, ◌<◌, ◌≡◌, refl, ◌∙◌, inl, inr, Bool, true, false, List, [], ◌∷◌,
  some, length, get_elem?, Bytes, bytes_eq, bytes_eq_iff, arith, Bool-cases, length-set,
  length-replicate, get_elem?-set_self, get_elem?-set_ne, get_elem?-lt, Option-cases, ℕ_discrete,
}
use kv_raft_storage.Storage.SortedMap.{SortedMap, find}
use kv_raft_storage.Storage.Codec.{Entry}
use kv_raft_storage.Storage.Table.{
  Hasher, bloom_bit, test_bit, set_bit, add_bits, test_bits, ready_bits, prefixed, add_bloom_key,
  bloom_may_contain, add_bloom_keys,
}

-- Every bit that is set in the one filter is set in the other.
abbrev Covers : List Bool → List Bool → Type 0
Covers bits bits' = (bit : ℕ) → test_bit bits bit ≡ true → test_bit bits' bit ≡ true

test_bit-found :
    (bits : List Bool) (b : ℕ)
    → test_bit bits b ≡ true
    → (v : Bool) × (get_elem? bits (64 * (b / 64) + b % 64) ≡ some v)
unfolding test_bit
test_bit-found bits b h = elim (Option-cases (get_elem? bits (64 * (b / 64) + b % 64))) [
  | inl e ↦ absurd (cc)
  | inr found ↦ found
]

set_bit-Covers : (bits : List Bool) (b : ℕ) → Covers bits (set_bit bits b)
unfolding test_bit set_bit
set_bit-Covers bits b c h = elim (ℕ_discrete b c) [
  | yes e ↦
      (let (v, found) = test_bit-found bits c h in
        rw (
          e,
          get_elem?-set_self bits (64 * (c / 64) + c % 64) true
              (get_elem?-lt bits (64 * (c / 64) + c % 64) found),
        ))
  | no ne ↦
      rw
        (get_elem?-set_ne bits (64 * (b / 64) + b % 64) (64 * (c / 64) + c % 64) true
          (λ q. ne (omega arith)))
        h
]

set_bit-test : (bits : List Bool) (b : ℕ) → b < length bits → test_bit (set_bit bits b) b ≡ true
unfolding test_bit set_bit
set_bit-test bits b h = rw (get_elem?-set_self bits (64 * (b / 64) + b % 64) true (omega arith))

length-set_bit : (bits : List Bool) (b : ℕ) → length (set_bit bits b) ≡ length bits
unfolding set_bit
length-set_bit bits b = length-set bits (64 * (b / 64) + b % 64) true

add_bits-Covers : (h1 h2 n i : ℕ) (bits : List Bool) → Covers bits (add_bits h1 h2 n i bits)
unfolding add_bits
add_bits-Covers h1 h2 zero i bits b t = t
add_bits-Covers h1 h2 (suc n) i bits b t =
    add_bits-Covers h1 h2 n (i + 1) (set_bit bits (bloom_bit h1 h2 i)) b
      (set_bit-Covers bits (bloom_bit h1 h2 i) b t)

length-add_bits :
    (h1 h2 n i : ℕ) (bits : List Bool) → length (add_bits h1 h2 n i bits) ≡ length bits
unfolding add_bits
length-add_bits h1 h2 zero i bits = refl
length-add_bits h1 h2 (suc n) i bits =
    length-add_bits h1 h2 n (i + 1) (set_bit bits (bloom_bit h1 h2 i))
    ∙ length-set_bit bits (bloom_bit h1 h2 i)

test_bits-Covers :
    (h1 h2 n i : ℕ) (bits bits' : List Bool)
    → Covers bits bits'
    → test_bits h1 h2 n i bits ≡ true
    → test_bits h1 h2 n i bits' ≡ true
unfolding test_bits
test_bits-Covers h1 h2 zero i bits bits' c t = refl
test_bits-Covers h1 h2 (suc n) i bits bits' c t =
    elim (Bool-cases (test_bit bits (bloom_bit h1 h2 i))) [
      | inl set_ ↦
          rw (c (bloom_bit h1 h2 i) set_)
            (test_bits-Covers h1 h2 n (i + 1) bits bits' c (rw set_ at t))
      | inr clear ↦ absurd (let t' = rw clear at t in cc)
    ]

bloom_bit_lt : (h1 h2 i : ℕ) → bloom_bit h1 h2 i < 2048
unfolding bloom_bit
bloom_bit_lt h1 h2 i = omega arith

add_bits-test :
    (h1 h2 n i : ℕ) (bits : List Bool)
    → length bits ≡ 2048
    → test_bits h1 h2 n i (add_bits h1 h2 n i bits) ≡ true
unfolding add_bits test_bits
add_bits-test h1 h2 zero i bits l = refl
add_bits-test h1 h2 (suc n) i bits l =
    let b = bloom_bit h1 h2 i in
    let next = set_bit bits b in
    let long : length next ≡ 2048 = length-set_bit bits b ∙ l in
    rw
      (add_bits-Covers h1 h2 n (i + 1) next b
        (set_bit-test bits b (omega (arith, l, bloom_bit_lt h1 h2 i))))
      (add_bits-test h1 h2 n (i + 1) next long)

-- A filter that has no words yet, or all of its bits.
abbrev IsReady : List Bool → Type 0
IsReady bits = length (ready_bits bits) ≡ 2048

module _ ⦃hasher : Hasher⦄ where
  length-add_bloom_key :
      (key : Bytes) (bits : List Bool)
      → length (ready_bits bits) ≡ 2048
      → length (add_bloom_key key bits) ≡ 2048
  unfolding add_bloom_key
  length-add_bloom_key key bits l =
      length-add_bits (hasher.hash key) (hasher.hash (prefixed key)) 4 0 (ready_bits bits) ∙ l

  IsReady-length : (bits : List Bool) → length bits ≡ 2048 → IsReady bits
  unfolding ready_bits
  IsReady-length [] l = absurd (omega arith)
  IsReady-length (b ∷ bits) l = l

  ready-Covers : (bits : List Bool) → Covers bits (ready_bits bits)
  unfolding ready_bits test_bit
  ready-Covers [] b t = absurd (cc)
  ready-Covers (x ∷ bits) b t = t

  add_bloom_key-Covers : (key : Bytes) (bits : List Bool) → Covers bits (add_bloom_key key bits)
  unfolding add_bloom_key
  add_bloom_key-Covers key bits b t =
      add_bits-Covers (hasher.hash key) (hasher.hash (prefixed key)) 4 0 (ready_bits bits) b
        (ready-Covers bits b t)

  add_bloom_keys-Covers :
      (items : SortedMap Entry) (bits : List Bool) → Covers bits (add_bloom_keys items bits)
  unfolding add_bloom_keys
  add_bloom_keys-Covers [] bits b t = t
  add_bloom_keys-Covers (x ∷ items) bits b t =
      add_bloom_keys-Covers items (add_bloom_key x.0 bits) b (add_bloom_key-Covers x.0 bits b t)

  abbrev tests : Bytes → List Bool → Bool
  tests key bits = test_bits (hasher.hash key) (hasher.hash (prefixed key)) 4 0 bits

  length-add_bloom_keys :
      (items : SortedMap Entry) (bits : List Bool)
      → length bits ≡ 2048
      → length (add_bloom_keys items bits) ≡ 2048
  unfolding add_bloom_keys
  length-add_bloom_keys [] bits l = l
  length-add_bloom_keys (x ∷ items) bits l =
      length-add_bloom_keys items (add_bloom_key x.0 bits)
        (length-add_bloom_key x.0 bits (IsReady-length bits l))

  add_bloom_key-tests :
      (key : Bytes) (bits : List Bool) → IsReady bits → tests key (add_bloom_key key bits) ≡ true
  unfolding add_bloom_key
  add_bloom_key-tests key bits l =
      add_bits-test (hasher.hash key) (hasher.hash (prefixed key)) 4 0 (ready_bits bits) l

  add_bloom_keys-tests :
      (key : Bytes) (items : SortedMap Entry) (bits : List Bool) {e : Entry}
      → IsReady bits
      → find key items ≡ some e
      → (tests key (add_bloom_keys items bits) ≡ true) × (length (add_bloom_keys items bits) ≡ 2048)
  unfolding add_bloom_keys find
  add_bloom_keys-tests key [] bits l f = absurd (cc)
  add_bloom_keys-tests key (x ∷ items) bits l f =
      let next = add_bloom_key x.0 bits in
      let long = length-add_bloom_key x.0 bits l in
      elim (Bool-cases (bytes_eq key x.0)) [
        | inl here ↦ (
          test_bits-Covers (hasher.hash key) (hasher.hash (prefixed key)) 4 0 next
              (add_bloom_keys items next) (add_bloom_keys-Covers items next)
              (let same : key ≡ x.0 = (bytes_eq_iff key x.0).0 here in
                rw same (add_bloom_key-tests x.0 bits l)),
          length-add_bloom_keys items next long,
        )
        | inr past ↦ add_bloom_keys-tests key items next (IsReady-length next long) (rw past at f)
      ]

  may_contain-tests :
      (key : Bytes) (bits : List Bool)
      → tests key bits ≡ true
      → length bits ≡ 2048
      → bloom_may_contain key bits ≡ true
  unfolding bloom_may_contain
  may_contain-tests key [] t l = absurd (omega arith)
  may_contain-tests key (b ∷ bits) t l = t

  -- A key that is among the entries passes the filter that is built from them.
  pub bloom_may_contain-add_bloom_keys :
      (key : Bytes) (items : SortedMap Entry) {e : Entry}
      → find key items ≡ some e
      → bloom_may_contain key (add_bloom_keys items []) ≡ true
  unfolding ready_bits
  bloom_may_contain-add_bloom_keys key items f =
      let (t, l) = add_bloom_keys-tests key items [] (length-replicate 2048 false) f in
      may_contain-tests key (add_bloom_keys items []) t l
