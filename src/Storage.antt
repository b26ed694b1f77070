-- ===== src/Storage.antt =====
-- The storage engines: storage/include/lsm_tree_engine.h.
pub mod KeyOrder
pub mod SortedMap
pub mod Codec
pub mod Table
pub mod Files
pub mod Layers
pub mod Lsm
pub mod Lru
pub mod Engine
pub mod SkipList
pub mod Packed
pub mod Cached
pub mod Tests
