-- ===== src/Storage/SkipList/Dump.antt =====
-- `dump_file`, `load_file` and `clear` of skipList/include/skipList.h. `SkipListDump` is its two vectors,
-- which boost's text archive writes and reads.
pub mod Emptied
pub mod Reload
use kv_raft_storage.Common.{
  ℕ, zero, suc, ◌+◌, ◌≡◌, Bool, true, false, List, [], ◌∷◌, Option, none, some, ◌==◌, if◌then◌else◌,
  length, set, Bytes, ◌>>=◌,
}
use kv_raft_storage.Storage.SkipList.{
  SkipList, Heap, node_at, forward_at, set_forward, insert_element,
}

abbrev pub no_bytes : Bytes → Bool
no_bytes [] = true
no_bytes (b ∷ bytes) = false

-- The archive of the two vectors. What was written is not empty and is read back; `none` of `read` is an
-- exception.
pub record DumpText : Type 0 where
  pub write : List Bytes → List Bytes → Bytes
  pub read : Bytes → Option (List Bytes × List Bytes)
  pub write_nonempty : (keys values : List Bytes) → no_bytes (write keys values) ≡ false
  pub read-write : (keys values : List Bytes) → read (write keys values) ≡ some (keys, values)

-- The loop of `dump_file` from the node `next`.
unfoldable pub collect : ℕ → Option ℕ → Heap → Option (List Bytes × List Bytes)
collect fuel none h = some ([], [])
collect zero (some q) h = none
collect (suc fuel) (some q) h = do
  n ← node_at q h
  next ← forward_at q 0 h
  (keys, values) ← collect fuel next h
  some (n.key ∷ keys, n.value ∷ values)

unfoldable pub dump_lists : SkipList → Option (List Bytes × List Bytes)
dump_lists s = do next ← forward_at 0 0 s.nodes; collect (length s.nodes) next s.nodes

-- `clear`, with the test for a null pointer that its callers make.
unfoldable pub clear_nodes : ℕ → Option ℕ → Heap → Option Heap
clear_nodes fuel none h = some h
clear_nodes zero (some q) h = none
clear_nodes (suc fuel) (some q) h = do
  next ← forward_at q 0 h
  h1 ← clear_nodes fuel next h
  some (set h1 q none)

-- The loop that empties the `n` lowest pointers of the header.
unfoldable pub blank_header : ℕ → ℕ → Heap → Option Heap
blank_header zero i h = some h
blank_header (suc n) i h = do h1 ← set_forward 0 i none h; blank_header n (suc i) h1

-- The loop of `load_file`; `d` levels were drawn before.
unfoldable pub insert_all : (ℕ → ℕ) → ℕ → List Bytes → List Bytes → SkipList → Option (SkipList × ℕ)
insert_all rand d [] values s = some (s, d)
insert_all rand d (key ∷ keys) [] s = none
insert_all rand d (key ∷ keys) (value ∷ values) s = do
  (s1, code) ← insert_element (rand d) key value s
  insert_all rand (if code == 0 then d + 1 else d) keys values s1

-- The part of `load_file` that empties the list.
unfoldable pub empty_list : SkipList → Option SkipList
empty_list s = do
  next ← forward_at 0 0 s.nodes
  h ← clear_nodes (length s.nodes) next s.nodes
  h1 ← blank_header (suc s.max_level) 0 h
  some (record s { level = 0; count = 0; nodes = h1 })

-- `load_file` behind the reading of the archive.
unfoldable pub load_lists : (ℕ → ℕ) → ℕ → List Bytes × List Bytes → SkipList → Option (SkipList × ℕ)
load_lists rand d (keys, values) s = do s1 ← empty_list s; insert_all rand d keys values s1
