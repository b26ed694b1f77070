-- ===== src/Storage/SkipList.antt =====
-- `SkipList<std::string, std::string>` of skipList/include/skipList.h, with its nodes in a heap. A
-- function that returns `none` has followed a pointer to no node or read past an array, or has run out
-- of rounds. `std::rand` is an argument: the number of odd values before the first even one.
pub mod Towers
pub mod Seek
pub mod Last
pub mod Descent
pub mod Find
pub mod Relink
pub mod Fill
pub mod Insert
pub mod Update
pub mod Extend
pub mod Grow
pub mod Unlink
pub mod Shrink
pub mod Writes
pub mod Dump
mod Tests
use kv_raft_storage.Common.{
  ℕ, zero, suc, ◌+◌, ◌-◌, Bool, true, false, not, List, [], ◌∷◌, ◌++◌, Option, none, some, ltb, leb,
  ◌==◌, if◌then◌else◌, length, get_elem?, set, take, replicate, max, Bytes, bytes_eq, ◌>>=◌,
}
use kv_raft_storage.Storage.KeyOrder.{key_lt}

-- `Node`; `node_level` is one less than the length of `forward`.
pub record SkipNode : Type 0 where
  pub key : Bytes
  pub value : Bytes
  pub forward : List (Option ℕ)

-- The nodes by address; `none` is a node that was deleted.
abbrev pub Heap : Type 0
Heap = List (Option SkipNode)

-- The header is the node at 0.
pub record SkipList : Type 0 where
  pub max_level : ℕ
  pub level : ℕ
  pub count : ℕ
  pub nodes : Heap

unfoldable pub node_at : ℕ → Heap → Option SkipNode
node_at p h = get_elem? h p >>= λ o. o

-- `p->forward[i]`
unfoldable pub forward_at : ℕ → ℕ → Heap → Option (Option ℕ)
forward_at p i h = node_at p h >>= λ n. get_elem? n.forward i

-- `p->forward[i] = q`
unfoldable pub set_forward : ℕ → ℕ → Option ℕ → Heap → Option Heap
set_forward p i q h = do
  n ← node_at p h
  if ltb i (length n.forward)
      then some (set h p (some (record n { forward = set n.forward i q })))
      else none

abbrev pub create_node : Bytes → Bytes → ℕ → SkipNode
create_node key value level = record {
  key = key;
  value = value;
  forward = replicate (level + 1) none;
}

-- A list of no elements.
unfoldable pub new_skip_list : ℕ → SkipList
new_skip_list max_level = record {
  max_level = max_level;
  level = 0;
  count = 0;
  nodes = some (create_node [] [] max_level) ∷ [];
}

-- One test of the inner loop: the node after `p`, if there is one with a smaller key.
abbrev pub advance : (ℕ → Option ℕ) → Bytes → ℕ → Heap → Option ℕ → Option ℕ
advance go key p h none = some p
advance go key p h (some q) = do n ← node_at q h; if key_lt n.key key then go q else some p

-- The inner loop at level `i` from `p`.
unfoldable pub walk : ℕ → ℕ → Bytes → ℕ → Heap → Option ℕ
walk zero i key p h = none
walk (suc fuel) i key p h = forward_at p i h >>= advance (λ q. walk fuel i key q h) key p h

-- The outer loop over the `n` lowest levels, from the highest down: `current` at its end, and
-- `update`. A level has fewer nodes than the heap.
unfoldable pub descend : ℕ → Bytes → ℕ → Heap → Option (ℕ × List ℕ)
descend zero key p h = some (p, [])
descend (suc n) key p h = do
  q ← walk (length h) n key p h
  (r, update) ← descend n key q h
  some (r, update ++ q ∷ [])

-- `current->forward[0]` if its key is the one that was looked for.
abbrev pub match_node : Bytes → Heap → Option ℕ → Option (Option (ℕ × SkipNode))
match_node key h none = some none
match_node key h (some q) = do
  n ← node_at q h
  some (if bytes_eq n.key key then some (q, n) else none)

-- What the three searches have in common: the node with the key, and `update`.
unfoldable pub locate : Bytes → SkipList → Option (Option (ℕ × SkipNode) × List ℕ)
locate key s = do
  (p, update) ← descend (suc s.level) key 0 s.nodes
  next ← forward_at p 0 s.nodes
  found ← match_node key s.nodes next
  some (found, update)

abbrev pub value_found : Option (ℕ × SkipNode) → Option Bytes
value_found none = none
value_found (some (q, n)) = some n.value

unfoldable pub search_element : Bytes → SkipList → Option (Option Bytes)
search_element key s = do (found, _) ← locate key s; some (value_found found)

unfoldable pub get_random_level : ℕ → ℕ → ℕ
get_random_level odds max_level = if ltb (1 + odds) max_level then 1 + odds else max_level

-- The loop that links the new node `a` in, from level `i` on.
unfoldable pub link : ℕ → ℕ → List ℕ → Heap → Option Heap
link a i [] h = some h
link a i (u ∷ update) h = do
  next ← forward_at u i h
  h1 ← set_forward a i next h
  h2 ← set_forward u i (some a) h1
  link a (suc i) update h2

-- `insert_element_locked` behind the search, where the key is new.
unfoldable pub insert_new : ℕ → Bytes → Bytes → List ℕ → SkipList → Option SkipList
insert_new odds key value update s = do
  let random = get_random_level odds s.max_level
  let a = length s.nodes
  h ←
      link a 0 (take (suc random) (update ++ replicate (random - s.level) 0))
        (s.nodes ++ some (create_node key value random) ∷ [])
  some (record s { level = max s.level random; count = s.count + 1; nodes = h })

abbrev pub insert_found :
    ℕ → Bytes → Bytes → Option (ℕ × SkipNode) → List ℕ → SkipList → Option (SkipList × ℕ)
insert_found odds key value (some found) update s = some (s, 1)
insert_found odds key value none update s = do s1 ← insert_new odds key value update s; some (s1, 0)

unfoldable pub insert_element : ℕ → Bytes → Bytes → SkipList → Option (SkipList × ℕ)
insert_element odds key value s = do
  (found, update) ← locate key s
  insert_found odds key value found update s

abbrev pub points_to : ℕ → Option ℕ → Bool
points_to q none = false
points_to q (some p) = q == p

-- The loop that takes the node `q` out of the levels, from level `i` on.
unfoldable pub unlink_levels : ℕ → ℕ → List ℕ → Heap → Option Heap
unlink_levels q i [] h = some h
unlink_levels q i (u ∷ update) h = do
  next ← forward_at u i h
  if points_to q next
      then (do
        behind ← forward_at q i h
        h1 ← set_forward u i behind h
        unlink_levels q (suc i) update h1)
      else some h

-- The loop that lowers the level of the list, over a header with the pointers that are left.
unfoldable pub lower_level : ℕ → Heap → Option ℕ
lower_level zero h = some 0
lower_level (suc n) h = do
  next ← forward_at 0 (suc n) h
  elim next [ none ↦ lower_level n h | some q ↦ some (suc n) ]

abbrev pub delete_found : Option (ℕ × SkipNode) → List ℕ → SkipList → Option (SkipList × Bool)
delete_found none update s = some (s, false)
delete_found (some (q, n)) update s = do
  h ← unlink_levels q 0 update s.nodes
  level ← lower_level s.level h
  some (record s { level = level; count = s.count - 1; nodes = set h q none }, true)

unfoldable pub delete_element : Bytes → SkipList → Option (SkipList × Bool)
delete_element key s = do (found, update) ← locate key s; delete_found found update s

unfoldable pub insert_set_element : ℕ → Bytes → Bytes → SkipList → Option SkipList
insert_set_element odds key value s = do
  (s1, _) ← delete_element key s
  (s2, _) ← insert_element odds key value s1
  some s2
