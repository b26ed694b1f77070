-- ===== src/Server/Commands.antt =====
-- The apply loop of `KvServer` over a sequence of committed commands.
use kv_raft_storage.Common.{
  ℕ, ◌<◌, ◌*◌, ◌||◌, List, [], ◌∷◌, Option, none, some, ◌≡◌, refl, sym, ap, ◌∙◌, subst, ltb, leb,
  Bytes, inl, inr, Bool-cases, All, arith, lt→not-leb,
}
use kv_raft_storage.Storage.Engine.{KvEngine, IsMap}
use kv_raft_storage.Raft.State.{Raft, Archive, ApplyMsg, command_msg}
use kv_raft_storage.Raft.Invariant.{IsWf}
use kv_raft_storage.Raft.Snapshot.{take_snapshot}
use kv_raft_storage.Raft.Snapshot.Truncate.{take_snapshot-IsCut}
use kv_raft_storage.Server.State.{Channel, Op, KvServer, ServerText, GetArgs}
use kv_raft_storage.Server.Execute.{
  is_request_duplicate, execute_op, execute_put, execute_append, set_key_expire, note_request,
  delete_expired, execute_read_only_get, fill_get_reply,
}
use kv_raft_storage.Server.Apply.{
  push, find_channel, send_to_wait_chan, make_snapshot, snapshot_over, snapshot_bounded,
  send_snapshot_if_needed, apply_command, get_command_from_raft, read_apply_loop,
}
use kv_raft_storage.Server.Requests.{get_op, get_at_read_index}
use kv_raft_storage.Server.Machine.{Machine, visible, machine_step, machine_run}
use kv_raft_storage.Server.Refine.{
  Refines, execute_op-Refines, duplicate-machine_step, execute_read_only_get-visible,
}

-- Commands with the time of their application and their index, and the messages that carry them.
abbrev pub timed : {F : Type 0} → ServerText F → List (ℕ × Op × ℕ) → List (ℕ × ApplyMsg)
timed text [] = []
timed text ((now, op, index) ∷ rest) = (now, command_msg (text.dump_op op) index) ∷ timed text rest

abbrev pub timed_ops : List (ℕ × Op × ℕ) → List (ℕ × Op)
timed_ops [] = []
timed_ops ((now, op, index) ∷ rest) = (now, op) ∷ timed_ops rest

module _ {F : Type 0} ⦃ar : Archive F⦄ where
  take_snapshot-total :
      (index : ℕ) (snapshot : Bytes) (r : Raft F)
      → IsWf r
      → (out : Raft F) × (take_snapshot index snapshot r ≡ some out) × IsWf out
  unfolding take_snapshot
  take_snapshot-total index snapshot r w =
      elim (Bool-cases (leb index r.last_snapshot_index || ltb r.commit_index index)) [
        | inl refused ↦ (r, rw refused, w)
        | inr taken ↦
            let (out, e, cut, _, _) =
              take_snapshot-IsCut index snapshot r w (ground arith) (ground arith) in
            (out, e, cut.wf)
      ]

module _ {F E : Type 0} (ops : KvEngine E) ⦃ar : Archive F⦄ ⦃text : ServerText F⦄ where
  snapshot_bounded-total :
      (bound : Option ℕ) (index : ℕ) (s : KvServer F E)
      → IsWf s.node
      → (node : Raft F) × (snapshot_bounded ops bound index 9 s ≡ some (record s { node = node }))
        × IsWf node
  unfolding snapshot_over
  snapshot_bounded-total none index s w = (s.node, refl, w)
  snapshot_bounded-total (some bound) index s w = elim (Bool-cases (leb bound 0)) [
    | inl off ↦ (s.node, rw off, w)
    | inr on ↦ elim (Bool-cases (ltb (bound * 9) (10 * text.file_size s.node.raft_file))) [
      | inl large ↦
          let (node, e, wf) = take_snapshot-total index (make_snapshot ops s) s.node w in
          (node, rw (on, large, e), wf)
      | inr small ↦ (s.node, rw (on, small), w)
    ]
  ]

  -- The node is all that a snapshot changes of the server.
  pub send_snapshot-total :
      (index : ℕ) (s : KvServer F E)
      → IsWf s.node
      → (node : Raft F) × (send_snapshot_if_needed ops index 9 s ≡ some (record s { node = node }))
        × IsWf node
  unfolding send_snapshot_if_needed
  send_snapshot-total index s w = snapshot_bounded-total s.max_raft_state index s w

  -- An operation leaves the node alone.
  execute_op-node :
      (now : ℕ) (op : Op) (s : KvServer F E)
      → ((execute_op ops now op s).node ≡ s.node)
        × ((execute_op ops now op s).last_snapshot_raft_log_index ≡ s.last_snapshot_raft_log_index)
        × ((execute_op ops now op s).wait_apply_ch ≡ s.wait_apply_ch)
        × ((execute_op ops now op s).queues_made ≡ s.queues_made)
  unfolding execute_op execute_put execute_append note_request set_key_expire delete_expired
  execute_op-node now op s = ground arith

  pub execute_read_only_get-node :
      (now : ℕ) (op : Op) (s : KvServer F E)
      → ((execute_read_only_get ops now op s).0.node ≡ s.node)
        × ((execute_read_only_get ops now op s).0.wait_apply_ch ≡ s.wait_apply_ch)
        × ((execute_read_only_get ops now op s).0.queues_made ≡ s.queues_made)
  unfolding execute_read_only_get
  execute_read_only_get-node now op s = ground arith

  module _ (laws : IsMap ops) where
    -- What the server is after a command.
    unfoldable pub Steps : KvServer F E → Machine → KvServer F E → Type 0
    Steps s m out =
        IsWf out.node
        × Refines ops laws out m
        × (out.last_snapshot_raft_log_index ≡ s.last_snapshot_raft_log_index)

    sent-Steps :
        (op : Op) (index : ℕ) (s s1 : KvServer F E) (node : Raft F) (m : Machine)
        → IsWf node
        → Refines ops laws s1 m
        → s1.last_snapshot_raft_log_index ≡ s.last_snapshot_raft_log_index
        → Steps s m (send_to_wait_chan op index (record s1 { node = node }))
    unfolding Steps send_to_wait_chan
    sent-Steps op index s s1 node m w r same = (
      w,
      record {
        good = r.good;
        ascends = r.ascends;
        values = r.values;
        deadlines = r.deadlines;
        last = r.last;
      },
      same,
    )

    -- The operation goes to the queue at its index, if one is there.
    abbrev pub sent : Op → ℕ → KvServer F E → List (ℕ × Channel)
    sent op index s = push index op (find_channel index s.wait_apply_ch) s.wait_apply_ch

    pub apply_command-Steps :
        (now : ℕ) (op : Op) (index : ℕ) (s : KvServer F E) (m : Machine)
        → IsWf s.node
        → Refines ops laws s m
        → s.last_snapshot_raft_log_index < index
        → (out : KvServer F E) × (apply_command ops now op index s ≡ some out)
          × Steps s (machine_step now op m) out
          × (out.wait_apply_ch ≡ sent op index s)
          × (out.queues_made ≡ s.queues_made)
    unfolding apply_command send_to_wait_chan
    apply_command-Steps now op index s m w r later =
        let past = lt→not-leb index s.last_snapshot_raft_log_index later in
        elim (Bool-cases (is_request_duplicate op.client_id op.request_id s)) [
          | inl old ↦
              let (node, e, wf) = send_snapshot-total index s w in
              let same = duplicate-machine_step ops laws now op s m r old in
              (
                send_to_wait_chan op index (record s { node = node }),
                rw (past, old, e),
                sent-Steps op index s s node (machine_step now op m) wf (rw same r) refl,
                refl,
                refl,
              )
          | inr new ↦
              let s1 = execute_op ops now op s in
              let (at_node, kept, channels, made) = execute_op-node now op s in
              let (node, e, wf) = send_snapshot-total index s1 (subst IsWf (sym at_node) w) in
              (
                send_to_wait_chan op index (record s1 { node = node }),
                rw (past, new, e),
                sent-Steps op index s s1 node (machine_step now op m) wf
                    (execute_op-Refines ops laws now op s m r new) kept,
                ap (λ c. push index op (find_channel index c) c) channels,
                made,
              )
        ]

    read_apply_loop-Steps :
        (commands : List (ℕ × Op × ℕ)) (s : KvServer F E) (m : Machine)
        → IsWf s.node
        → Refines ops laws s m
        → All (λ (c : ℕ × Op × ℕ). s.last_snapshot_raft_log_index < c.2) commands
        → (out : KvServer F E) × (read_apply_loop ops (timed text commands) s ≡ some out)
          × Steps s (machine_run (timed_ops commands) m) out
    unfolding read_apply_loop get_command_from_raft machine_run Steps
    read_apply_loop-Steps [] s m w r later = (s, refl, (w, r, refl))
    read_apply_loop-Steps ((now, op, index) ∷ rest) s m w r later =
        let (s1, e, (wf, refined, same), _, _) = apply_command-Steps now op index s m w r later.0 in
        let (out, run, (wf', refined', same')) =
          read_apply_loop-Steps rest s1 (machine_step now op m) wf refined (rw same later.1) in
        (out, rw (text.load-dump_op op, e) run, (wf', refined', same' ∙ same))

    -- A server whose node is well formed and which stands for a machine applies any sequence of
    -- committed commands behind its last snapshot, over any engine that shows a map: the loop takes no
    -- exception and no failed assertion, and a read at an index that follows answers what the machine
    -- shows after the same operations, expired keys left out.
    pub read_apply_loop-visible :
        (commands : List (ℕ × Op × ℕ)) (s : KvServer F E) (m : Machine) (now : ℕ) (args : GetArgs)
        → IsWf s.node
        → Refines ops laws s m
        → All (λ (c : ℕ × Op × ℕ). s.last_snapshot_raft_log_index < c.2) commands
        → (out : KvServer F E) × (read_apply_loop ops (timed text commands) s ≡ some out)
          × ((get_at_read_index ops now args out).1
              ≡ fill_get_reply (visible now args.key (machine_run (timed_ops commands) m)))
    unfolding get_at_read_index Steps get_op
    read_apply_loop-visible commands s m now args w r later =
        let (out, run, (_, refined, _)) = read_apply_loop-Steps commands s m w r later in
        let after = machine_run (timed_ops commands) m in
        (
          out,
          run,
          ap fill_get_reply
              (execute_read_only_get-visible ops laws now (get_op args) out after refined).0,
        )
