-- ===== src/Server/Apply.antt =====
-- The loop of `KvServer` over what the node hands to `applyChan`: commands, snapshots, and the snapshots
-- that the server takes. `none` is an exception, or the exit in `myAssert` of the node.
use kv_raft_storage.Common.{
  ℕ, ◌*◌, Bool, true, List, [], ◌∷◌, ◌++◌, Option, none, some, ◌>>=◌, ◌==◌, ltb, leb, if◌then◌else◌,
  Bytes,
}
use kv_raft_storage.Storage.Engine.{KvEngine}
use kv_raft_storage.Raft.State.{Raft, Archive, ApplyMsg, command_msg, snapshot_msg}
use kv_raft_storage.Raft.Snapshot.{take_snapshot}
use kv_raft_storage.Server.State.{Op, Channel, ServerText, KvServer}
use kv_raft_storage.Server.Execute.{is_request_duplicate, execute_op}

-- `waitApplyCh.find`
unfoldable pub find_channel : ℕ → List (ℕ × Channel) → Option Channel
find_channel index [] = none
find_channel index (c ∷ channels) =
    let rest = find_channel index channels in if index == c.0 then some c.1 else rest

-- The content of the queue at an index set to another; nothing happens where there is none.
unfoldable pub set_channel : ℕ → List Op → List (ℕ × Channel) → List (ℕ × Channel)
set_channel index queue [] = []
set_channel index queue (c ∷ channels) =
    let rest = set_channel index queue channels in
    if index == c.0 then (c.0, record c.1 { queue = queue }) ∷ channels else c ∷ rest

abbrev pub push : ℕ → Op → Option Channel → List (ℕ × Channel) → List (ℕ × Channel)
push index op none channels = channels
push index op (some c) channels = set_channel index (c.queue ++ op ∷ []) channels

-- `CondInstallSnapshot` of the node says yes to every snapshot.
unfoldable pub cond_install_snapshot : {F : Type 0} → ℕ → ℕ → Bytes → Raft F → Bool
cond_install_snapshot term index snapshot node = true

module _ {F E : Type 0} where
  -- `SendMessageToWaitChan`
  unfoldable pub send_to_wait_chan : Op → ℕ → KvServer F E → KvServer F E
  send_to_wait_chan op index s = record s {
    wait_apply_ch = push index op (find_channel index s.wait_apply_ch) s.wait_apply_ch;
  }

  module _ (ops : KvEngine E) ⦃text : ServerText F⦄ where
    -- `getSnapshotData`, the operation `MakeSnapShot`.
    unfoldable pub make_snapshot : KvServer F E → Bytes
    make_snapshot s = text.dump_image (record {
      serialized_kv_data = ops.snapshot s.engine;
      last_request_id = s.last_request_id;
      expire_map = s.expire_map;
    })

    -- `parseFromString`
    unfoldable pub parse_snapshot : Bytes → KvServer F E → Option (KvServer F E)
    parse_snapshot snapshot s = do
      image ← text.load_image snapshot
      engine ← ops.restore image.serialized_kv_data s.engine
      some (record s {
        engine = engine;
        last_request_id = image.last_request_id;
        expire_map = image.expire_map;
      })

    unfoldable pub read_snapshot_to_install : Bytes → KvServer F E → Option (KvServer F E)
    read_snapshot_to_install [] s = some s
    read_snapshot_to_install (c ∷ snapshot) s = parse_snapshot (c ∷ snapshot) s

    unfoldable pub get_snapshot_from_raft : Bytes → ℕ → ℕ → KvServer F E → Option (KvServer F E)
    get_snapshot_from_raft snapshot term index s =
        if cond_install_snapshot term index snapshot s.node
        then (do
          s1 ← read_snapshot_to_install snapshot s
          some (record s1 { last_snapshot_raft_log_index = index }))
        else some s

    module _ ⦃ar : Archive F⦄ where
      -- The body of `IfNeedToSendSnapShotCommand`, over a bound that is positive.
      unfoldable pub snapshot_over : ℕ → ℕ → ℕ → KvServer F E → Option (KvServer F E)
      snapshot_over max_state index proportion s =
          if ltb (max_state * proportion) (10 * text.file_size s.node.raft_file)
          then (do
            node ← take_snapshot index (make_snapshot s) s.node
            some (record s { node = node }))
          else some s

      abbrev pub snapshot_bounded : Option ℕ → ℕ → ℕ → KvServer F E → Option (KvServer F E)
      snapshot_bounded none index proportion s = some s
      snapshot_bounded (some max_state) index proportion s =
          if leb max_state 0 then some s else snapshot_over max_state index proportion s

      -- `IfNeedToSendSnapShotCommand`
      unfoldable pub send_snapshot_if_needed : ℕ → ℕ → KvServer F E → Option (KvServer F E)
      send_snapshot_if_needed index proportion s =
          snapshot_bounded s.max_raft_state index proportion s

      -- `GetCommandFromRaft` on an operation that was read from its text.
      unfoldable pub apply_command : ℕ → Op → ℕ → KvServer F E → Option (KvServer F E)
      apply_command now op index s =
          if leb index s.last_snapshot_raft_log_index then some s else (do
            let s1 =
                if is_request_duplicate op.client_id op.request_id s
                then s
                else execute_op ops now op s
            s2 ← send_snapshot_if_needed index 9 s1
            some (send_to_wait_chan op index s2))

      unfoldable pub get_command_from_raft : ℕ → Bytes → ℕ → KvServer F E → Option (KvServer F E)
      get_command_from_raft now command index s =
          text.load_op command >>= λ op. apply_command now op index s

      abbrev pub handle_message : ℕ → ApplyMsg → KvServer F E → Option (KvServer F E)
      handle_message now (command_msg command index) s = get_command_from_raft now command index s
      handle_message now (snapshot_msg snapshot term index) s =
          get_snapshot_from_raft snapshot term index s

      -- Rounds of `ReadRaftApplyCommandLoop`, over the messages that it pops, each with the time.
      unfoldable pub read_apply_loop : List (ℕ × ApplyMsg) → KvServer F E → Option (KvServer F E)
      read_apply_loop [] s = some s
      read_apply_loop (m ∷ messages) s =
          handle_message m.0 m.1 s >>= λ s1. read_apply_loop messages s1
