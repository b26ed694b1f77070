-- ===== src/Server/Startup.antt =====
-- The constructor of `KvServer`, from the node's `init` on: a server over the files of `Persister`.
-- `new_engine` is what `CreateDefaultKVEngine` makes.
use kv_raft_storage.Common.{ℕ, [], Option, Bytes}
use kv_raft_storage.Storage.Engine.{KvEngine}
use kv_raft_storage.Raft.State.{Raft, Archive}
use kv_raft_storage.Raft.Snapshot.{init}
use kv_raft_storage.Server.State.{KvServer, ServerText}
use kv_raft_storage.Server.Apply.{read_snapshot_to_install}
use kv_raft_storage.Server.Machine.{Machine}

module _ {F E : Type 0} where
  -- A server that has done nothing yet.
  abbrev pub idle : Raft F → Option ℕ → E → KvServer F E
  idle node max_raft_state new_engine = record {
    node = node;
    max_raft_state = max_raft_state;
    engine = new_engine;
    wait_apply_ch = [];
    queues_made = 0;
    last_request_id = [];
    last_snapshot_raft_log_index = 0;
    expire_map = [];
  }

module _ {F E : Type 0} (ops : KvEngine E) ⦃ar : Archive F⦄ ⦃text : ServerText F⦄ where
  unfoldable pub start_server : ℕ → ℕ → ℕ → Option ℕ → E → F → Bytes → Option (KvServer F E)
  start_server now peers me max_raft_state new_engine raft_file snapshot_file =
      read_snapshot_to_install ops snapshot_file
        (idle (init now peers me raft_file snapshot_file) max_raft_state new_engine)
