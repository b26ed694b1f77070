-- ===== src/Server/State.antt =====
-- The fields of `KvServer` (raftCore/include/kvServer.h), `Op` of common/include/util.h and the messages
-- of raftRpcPro/kvServerRPC.proto. Request ids are natural numbers: a client counts them up from 0.
use kv_raft_storage.Common.{ℕ, List, [], Option, some, ◌≡◌, ◌≢◌, Bytes}
use kv_raft_storage.Storage.SortedMap.{SortedMap}
use kv_raft_storage.Raft.State.{Raft}

-- `class Op`. A time to live or a deadline that is not positive is 0.
pub record Op : Type 0 where
  pub operation : Bytes
  pub key : Bytes
  pub value : Bytes
  pub client_id : Bytes
  pub request_id : ℕ
  pub ttl_ms : ℕ
  pub expire_at_ms : ℕ

-- What `serialize` archives: `m_serializedKVData`, `m_lastRequestId`, `m_expireMap`.
pub record Image : Type 0 where
  pub serialized_kv_data : Bytes
  pub last_request_id : SortedMap ℕ
  pub expire_map : SortedMap ℕ

-- Boost's text archives of an operation and of a server, of which it is known that a text that was
-- written reads back as what was written and is not empty, and the size of a file. `none` of a `load`
-- is an exception.
pub record ServerText (File : Type 0) : Type 0 where
  pub dump_op : Op → Bytes
  pub load_op : Bytes → Option Op
  pub dump_image : Image → Bytes
  pub load_image : Bytes → Option Image
  pub file_size : File → ℕ
  pub load-dump_op : (op : Op) → load_op (dump_op op) ≡ some op
  pub load-dump_image : (image : Image) → load_image (dump_image image) ≡ some image
  pub dump_image_ne : (image : Image) → dump_image image ≢ []

-- A `LockQueue<Op>` on the heap, its front first. `queue_id` stands for its address: no other queue ever
-- has it, so that a waiting handler which holds it finds this queue or, once it is deleted, none.
pub record Channel : Type 0 where
  pub queue_id : ℕ
  pub queue : List Op

-- `class KvServer`. `node` is `m_raftNode` with what it has put in `applyChan` as `pushed`; a negative
-- `m_maxRaftState` is `none`; `queues_made` is how many queues were made, the next one's `queue_id`.
pub record KvServer (File E : Type 0) : Type 0 where
  pub node : Raft File
  pub max_raft_state : Option ℕ
  pub engine : E
  pub wait_apply_ch : List (ℕ × Channel)
  pub queues_made : ℕ
  pub last_request_id : SortedMap ℕ
  pub last_snapshot_raft_log_index : ℕ
  pub expire_map : SortedMap ℕ

-- `OK`, `ErrNoKey`, `ErrWrongLeader`
pub data Err : Type 0 where
  ok no_key wrong_leader : Err

pub record GetArgs : Type 0 where
  pub key : Bytes
  pub client_id : Bytes
  pub request_id : ℕ

pub record GetReply : Type 0 where
  pub err : Err
  pub value : Bytes

pub record PutAppendArgs : Type 0 where
  pub key : Bytes
  pub value : Bytes
  pub op : Bytes
  pub client_id : Bytes
  pub request_id : ℕ
  pub ttl_ms : ℕ
