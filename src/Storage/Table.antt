-- ===== src/Storage/Table.antt =====
-- The sorted table of storage/include/lsm_tree_engine.h: `SSTable` with its Bloom filter and its
-- index of blocks, and `RebuildSSTableMetadata`.
pub mod Bloom
pub mod Blocks
pub mod Lookup
use kv_raft_storage.Common.{
  ℕ, zero, suc, ◌+◌, ◌*◌, ◌/◌, ◌%◌, ◌^◌, Bool, true, false, ◌&&◌, ◌||◌, List, [], ◌∷◌, ◌++◌, Option,
  none, some, if◌then◌else◌, length, get_elem?, set, replicate, Bytes, bytes_eq,
}
use kv_raft_storage.Storage.KeyOrder.{key_lt, key_le}
use kv_raft_storage.Storage.SortedMap.{SortedMap}
use kv_raft_storage.Storage.Codec.{Entry}

-- `std::hash<std::string>`, of which nothing is assumed.
pub record Hasher : Type 0 where
  pub hash : Bytes → ℕ

-- `BlockMeta`; `items` are the items from `begin` to `end`.
pub record BlockMeta : Type 0 where
  pub first_key : Bytes
  pub last_key : Bytes
  pub items : SortedMap Entry

-- `SSTable`; `bloom_bits` are the bits of the words of `bloomBits`, 64 of each, least first.
pub record SsTable : Type 0 where
  pub sequence : ℕ
  pub min_key : Bytes
  pub max_key : Bytes
  pub file_path : Bytes
  pub bloom_bits : List Bool
  pub blocks : List BlockMeta
  pub entries : SortedMap Entry

-- The number of the filter's bit for round `i`; `size_t` has 64 bits.
unfoldable pub bloom_bit : ℕ → ℕ → ℕ → ℕ
bloom_bit h1 h2 i = (h1 + i * h2 + i * i) % 2 ^ 64 % 2048

abbrev pub bit_or_clear : Option Bool → Bool
bit_or_clear none = false
bit_or_clear (some b) = b

-- Bit `bit % 64` of word `bit / 64`.
unfoldable pub test_bit : List Bool → ℕ → Bool
test_bit bits bit = bit_or_clear (get_elem? bits (64 * (bit / 64) + bit % 64))

unfoldable pub set_bit : List Bool → ℕ → List Bool
set_bit bits bit = set bits (64 * (bit / 64) + bit % 64) true

-- The loops of `AddBloomKey` and `BloomMayContain`, with `n` rounds left.
unfoldable pub add_bits : ℕ → ℕ → ℕ → ℕ → List Bool → List Bool
add_bits h1 h2 zero i bits = bits
add_bits h1 h2 (suc n) i bits = add_bits h1 h2 n (i + 1) (set_bit bits (bloom_bit h1 h2 i))

unfoldable pub test_bits : ℕ → ℕ → ℕ → ℕ → List Bool → Bool
test_bits h1 h2 zero i bits = true
test_bits h1 h2 (suc n) i bits =
    let rest = test_bits h1 h2 n (i + 1) bits in
    if test_bit bits (bloom_bit h1 h2 i) then rest else false

-- `bloomBits.assign(kBloomWordCount, 0)` where the filter has no words yet.
unfoldable pub ready_bits : List Bool → List Bool
ready_bits [] = replicate 2048 false
ready_bits (b ∷ bits) = b ∷ bits

-- `"lsm:" + key`
abbrev pub prefixed : Bytes → Bytes
prefixed key = 108 ∷ 115 ∷ 109 ∷ 58 ∷ key

-- Scanning one block, in order: found, passed, or at its end.
unfoldable pub find_in_block : Bytes → SortedMap Entry → Option Entry
find_in_block key [] = none
find_in_block key (x ∷ items) =
    let rest = find_in_block key items in
    if bytes_eq x.0 key then some x.1 else if key_lt key x.0 then none else rest

-- `FindInIndexedBlock`
unfoldable pub find_in_blocks : Bytes → List BlockMeta → Option Entry
find_in_blocks key [] = none
find_in_blocks key (block ∷ blocks) =
    let rest = find_in_blocks key blocks in
    if key_lt key block.first_key || key_lt block.last_key key
    then rest
    else find_in_block key block.items

-- The inner loop over the entries of one block: its last key, its items, and what is behind.
unfoldable pub scan_block : ℕ → Bytes → SortedMap Entry → Bytes × SortedMap Entry × SortedMap Entry
scan_block zero last items = (last, [], items)
scan_block (suc n) last [] = (last, [], [])
scan_block (suc n) last (x ∷ items) =
    let scanned = scan_block n x.0 items in (scanned.0, x ∷ scanned.1, scanned.2)

-- The outer loop, with `n` rounds left; every round takes at least one entry.
unfoldable pub build_blocks : ℕ → SortedMap Entry → List BlockMeta
build_blocks zero items = []
build_blocks (suc n) [] = []
build_blocks (suc n) (x ∷ items) =
    let scanned = scan_block 16 x.0 (x ∷ items) in
    record { first_key = x.0; last_key = scanned.0; items = scanned.1 } ∷ build_blocks n scanned.2

-- `entries.rbegin()->first`
unfoldable pub last_key : Bytes → SortedMap Entry → Bytes
last_key key [] = key
last_key key (x ∷ items) = last_key x.0 items

module _ ⦃h : Hasher⦄ where
  unfoldable pub add_bloom_key : Bytes → List Bool → List Bool
  unfolding add_bits ready_bits
  add_bloom_key key bits = add_bits (h.hash key) (h.hash (prefixed key)) 4 0 (ready_bits bits)

  unfoldable pub bloom_may_contain : Bytes → List Bool → Bool
  bloom_may_contain key [] = false
  bloom_may_contain key (b ∷ bits) = test_bits (h.hash key) (h.hash (prefixed key)) 4 0 (b ∷ bits)

  unfoldable pub add_bloom_keys : SortedMap Entry → List Bool → List Bool
  add_bloom_keys [] bits = bits
  add_bloom_keys (x ∷ items) bits = add_bloom_keys items (add_bloom_key x.0 bits)

  -- `RebuildSSTableMetadata`, on the entries of the table.
  unfoldable pub metadata_of : SortedMap Entry → SsTable → SsTable
  metadata_of [] table = record table { min_key = []; max_key = []; bloom_bits = []; blocks = [] }
  metadata_of (x ∷ items) table = record table {
    min_key = x.0;
    max_key = last_key x.0 items;
    bloom_bits = add_bloom_keys (x ∷ items) [];
    blocks = build_blocks (length (x ∷ items)) (x ∷ items);
  }

  unfoldable pub rebuild_metadata : SsTable → SsTable
  rebuild_metadata table = metadata_of table.entries table

  -- `MayContain`
  unfoldable pub may_contain : Bytes → SsTable → Bool
  may_contain key table = elim table.entries [
    | [] ↦ false
    | x ∷ items ↦
        key_le table.min_key key
        && key_le key table.max_key
        && bloom_may_contain key table.bloom_bits
  ]

  -- What a lookup does with one table: skip it, or search its blocks.
  unfoldable pub find_in_table : Bytes → SsTable → Option Entry
  find_in_table key table = if may_contain key table then find_in_blocks key table.blocks else none
