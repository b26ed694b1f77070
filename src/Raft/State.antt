-- ===== src/Raft/State.antt =====
-- The node's fields (raftCore/include/raft.h), the messages (raftRpcPro/raftRPC.proto) and what is
-- persisted. Terms, indices and node numbers are natural numbers: the program starts them at 0, and
-- only increments them or copies them from messages of other nodes. The -1 of `m_votedFor` and the
-- -100 of `updatenextindex` are `none`. A `now()` is an argument of the handler that reads it.
use kv_raft_storage.Common.{ℕ, Bool, List, Option, none, some, ◌≡◌, Bytes}

-- `raftRpcProctoc::LogEntry`
pub record LogEntry : Type 0 where
  pub command : Bytes
  pub log_term : ℕ
  pub log_index : ℕ

-- `enum Status`
pub data Status : Type 0 where
  follower candidate leader : Status

-- `BoostPersistRaftNode`, the value that `persistData` archives.
pub record Persisted : Type 0 where
  pub current_term : ℕ
  pub voted_for : Option ℕ
  pub last_snapshot_index : ℕ
  pub last_snapshot_term : ℕ
  pub logs : List LogEntry

-- What boost's text archive and the files are to the node: contents of an abstract type, of which it
-- is known that an archive that was written reads back as the value written, and that the contents
-- of a file that was never written are empty. `noop_text` is the archive of the no-op command.
pub record Archive (File : Type 0) : Type 0 where
  pub blank : File
  pub dump : Persisted → File
  pub load : File → Option Persisted
  pub noop_text : ℕ → Bytes
  pub load-blank : load blank ≡ none
  pub load-dump : (p : Persisted) → load (dump p) ≡ some p

-- `ApplyMsg`: a command that is applied, or a snapshot that is installed.
pub data ApplyMsg : Type 0 where
  command_msg : Bytes → ℕ → ApplyMsg
  snapshot_msg : Bytes → ℕ → ℕ → ApplyMsg

-- `class Raft`. `peers` is `m_peers.size()`; `raft_file` and `snapshot_file` are the two files of
-- `m_persister`; `pushed` is what was handed to `applyChan` by the handler, newest last.
pub record Raft (File : Type 0) : Type 0 where
  pub peers : ℕ
  pub me : ℕ
  pub current_term : ℕ
  pub voted_for : Option ℕ
  pub logs : List LogEntry
  pub commit_index : ℕ
  pub last_applied : ℕ
  pub next_index : List ℕ
  pub match_index : List ℕ
  pub status : Status
  pub last_reset_election : ℕ
  pub last_reset_heartbeat : ℕ
  pub last_snapshot_index : ℕ
  pub last_snapshot_term : ℕ
  pub raft_file : File
  pub snapshot_file : Bytes
  pub pushed : List ApplyMsg

pub record AppendEntriesArgs : Type 0 where
  pub term : ℕ
  pub leader_id : ℕ
  pub prev_log_index : ℕ
  pub prev_log_term : ℕ
  pub entries : List LogEntry
  pub leader_commit : ℕ

-- `app_normal` is `appstate() == AppNormal`; protobuf's defaults are 0 and false.
pub record AppendEntriesReply : Type 0 where
  pub term : ℕ
  pub success : Bool
  pub update_next_index : Option ℕ
  pub app_normal : Bool

pub record RequestVoteArgs : Type 0 where
  pub term : ℕ
  pub candidate_id : ℕ
  pub last_log_index : ℕ
  pub last_log_term : ℕ

-- The constants of `votestate`.
pub data VoteState : Type 0 where
  killed voted expire normal : VoteState

pub record RequestVoteReply : Type 0 where
  pub term : ℕ
  pub vote_state : VoteState
  pub vote_granted : Bool

pub record InstallSnapshotRequest : Type 0 where
  pub leader_id : ℕ
  pub term : ℕ
  pub last_snapshot_index : ℕ
  pub last_snapshot_term : ℕ
  pub snapshot : Bytes
