-- ===== src/Server.antt =====
-- `KvServer` of raftCore/kvServer.cpp: the key-value state machine on top of a Raft node.
pub mod State
pub mod Execute
pub mod Apply
pub mod Requests
pub mod Machine
pub mod Refine
pub mod Commands
pub mod Retry
pub mod Transfer
pub mod Channels
pub mod Serving
pub mod Acknowledged
pub mod Hazards
pub mod Expiry
pub mod Startup
mod Tests
