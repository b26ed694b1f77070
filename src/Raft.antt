-- ===== src/Raft.antt =====
-- The Raft node: raftCore/raft.cpp, raftCore/include/raft.h, raftCore/include/ApplyMsg.h and the
-- messages of raftRpcPro/raftRPC.proto.
pub mod State
pub mod Log
pub mod Vote
pub mod Append
pub mod Snapshot
pub mod Leader
pub mod Contiguous
pub mod Invariant
pub mod Election
pub mod Tests
