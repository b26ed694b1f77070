-- ===== src/Lib.antt =====
-- Verification of KV-Raft-Storage, a replicated key-value store: the Raft node and the key-value
-- server of src/raftCore, the storage engines of src/storage, and the skip list of src/skipList.
--
-- The program. A node runs `Raft` (src/raftCore/raft.cpp): it answers the calls of other nodes
-- (`AppendEntries1`, `RequestVote`, `InstallSnapshot`), starts elections and heartbeats on timers,
-- takes commands from the key-value server (`Start`, `Snapshot`) and hands committed commands to it
-- (`getApplyLogs`). The key-value server applies them to a storage engine (src/storage).
--
-- Files.
-- - Common: what the parts share. Common/Tests has the Boolean tests and byte strings, Common/Lists
--   the vectors, Common/Partial the code that may end the process (`myAssert` of
--   src/common/util.cpp is `my_assert`).
-- - Storage/KeyOrder, Storage/SortedMap: `operator<` of `std::string` and `std::map` as ascending items.
-- - Storage/Codec, Storage/Files: the byte format of the write-ahead log, the table files, the manifest
--   and the snapshot of src/storage/include/lsm_tree_engine.h.
-- - Storage/Table: `SSTable` with its Bloom filter and block index (find_in_table), and
--   `RebuildSSTableMetadata` (rebuild_metadata).
-- - Storage/Layers: the state of `LSMTreeEngine` and what is read from its maps: `ExportVisibleDataLocked`
--   (export_visible), `RangeScan`, `Snapshot`, `Size`.
-- - Storage/Lsm: the operations of `LSMTreeEngine`: `Get`, `Put`, `Delete`, `Flush`, `Compact`, `Restore`,
--   the background worker. Lsm/Recovery has the manifest, the replay of the log and the constructor; the
--   other children relate the layers of the engine to one map.
-- - Storage/Lru: `LRUCache` of src/storage/include/lru_cache.h (cache_get, cache_put, cache_delete); its
--   children say how the items and the index hang together, and what a read does.
-- - Storage/Engine: `KVEngine` of src/storage/include/kv_engine.h as a record of operations, and what its
--   clients rely on (IsMap); LsmEngine gives the LSM engine as one, Runs are sequences of requests.
-- - Storage/SkipList: `SkipList` of src/skipList/include/skipList.h, its nodes in a heap of pointers, with
--   the search (locate), insert_element, delete_element; SkipList/Dump has `dump_file` and `load_file`.
--   SkipList/Towers says which pointers the nodes of a list in order have, Seek, Last and Descent where
--   the search stops, Relink what turning one pointer does, Find and Writes what the operations do.
--   Storage/Engine/SkipListEngine is `SkipListEngine` of src/storage/include/skiplist_engine.h.
-- - Storage/Packed: texts that the archives of the runs are built from.
-- - Storage/Cached: `CachedKVEngine` of src/storage/include/cached_kv_engine.h over any engine.
-- - Storage/Tests: runs of the engines.
-- - Server: `KvServer` of src/raftCore/kvServer.cpp. State has its fields and `Op` of
--   src/common/include/util.h; Execute the operations on the engine (execute_put, execute_append,
--   execute_get, execute_read_only_get) and the expiry; Apply the apply loop with `GetCommandFromRaft`
--   (get_command_from_raft) and the snapshots; Requests the handlers `Get` and `PutAppend`, each in a part
--   before its wait and a part from it on; Startup the constructor. Machine is the key-value machine that
--   the server stands for, Refine and Commands relate them; Retry, Serving, Acknowledged, Transfer, Expiry and
--   Hazards are about what clients see. Channels is about the queues. Server/Tests: runs of the server.
-- - Raft/State: the fields of `Raft`, the messages of src/raftRpcPro/raftRPC.proto.
-- - Raft/Log: the accessors of the log, `UpToDate`, `persistData`, `persist`.
-- - Raft/Vote: `doElection` (do_election), `RequestVote` (request_vote), `sendRequestVote` from the
--   reply on (handle_vote_reply).
-- - Raft/Append: `AppendEntries1` (append_entries), its loop over the entries (store_entries) and
--   the search for the conflicting term (back_off); its children are about the branches, the log that
--   is left and the commit index.
-- - Raft/Snapshot: `InstallSnapshot`, `Snapshot`, `getApplyLogs`, a round of `applierTicker`,
--   `readPersist` and `init`.
-- - Raft/Leader: `Start`, `doHeartBeat`, `getPrevLogInfo`, `sendAppendEntries` and
--   `leaderSendSnapShot` from the reply on, `leaderUpdateCommitIndex`, the steps of `ReadIndex`.
-- - Raft/Contiguous, Raft/Invariant: the well-formed node. Raft/Election: the life of a node as a
--   sequence of handlers, crashes and restarts. Raft/Tests: runs on concrete nodes.
--
-- The state. A handler runs under the node's lock, so that it is a function from a `Raft` to a
-- `Raft`; `none` stands for the exit in `myAssert` or a read out of range. Clock values are
-- arguments. Boost's archives and the files are a parameter (`Archive` in Raft/State) with the law
-- that an archive that was written reads back. Terms and indices are natural numbers without an upper
-- bound: the program's `int` does not wrap before 2^31 terms or entries.
--
-- The storage engine is a record of its maps, tables and files; the files are a map from paths to
-- contents. `std::hash` is a parameter (`Hasher` in Storage/Table) of which nothing is assumed. `none` is
-- a thrown exception. An integer of eight bytes holds numbers below 2^64.
--
-- The server holds a node and an engine of any type with the operations of `KvEngine`; a text archive of
-- an operation or of a server is a parameter (`ServerText` in Server/State) with the law that what was
-- written reads back. The clock is an argument of each operation that reads it. A queue of `waitApplyCh`
-- has a number that no other queue gets, in place of its address: a handler that waits holds the number,
-- and finds no queue once that one is deleted.
--
-- A node of a skip list is known by its address, and `none` is a wrong pointer or a read past an array:
-- that a run on a well-formed list returns is a part of its theorems. The draws of `std::rand` are an
-- argument, the text archive of a dump is a parameter (`DumpText` in Storage/SkipList/Dump).
--
-- Loops. The loop over the message's entries and the loop of `getApplyLogs` are structural; the
-- search for the conflicting term and `leaderUpdateCommitIndex` run on a count of rounds that is the
-- distance from the start index to the snapshot, as their loop conditions say. The blocks of a table are
-- built in at most as many rounds as there are entries, each of which takes one at least; a log is replayed
-- in at most as many rounds as it has bytes, since a record has seventeen at least. A walk along one level of a skip list
-- has fewer rounds than the heap has addresses.
--
-- Not modelled: sleeping tickers, threads and sockets, logging and metrics, the fiber library, the
-- generated protobuf code, failures of opening or writing a file, and up to now the client and the RPC framework.
pub mod Common
pub mod Raft
pub mod Storage
pub mod Server
