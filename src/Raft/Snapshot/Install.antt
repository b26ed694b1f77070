-- ===== src/Raft/Snapshot/Install.antt =====
-- `InstallSnapshot` of raftCore/raft.cpp on a well-formed node.
use kv_raft_storage.Common.{
  ℕ, ◌≤◌, ◌<◌, ◌≡◌, refl, ◌∙◌, [], ◌∷◌, ◌++◌, some, arith, length, le→not-ltb, if◌then◌else◌,
  lt→not-leb, Bool-cases, inl, inr, ltb,
}
use kv_raft_storage.Raft.State.{Raft, follower, Archive, snapshot_msg, InstallSnapshotRequest}
use kv_raft_storage.Raft.Log.{get_last_log_index, entry_at, persist_data, persist}
use kv_raft_storage.Raft.Vote.{step_down}
use kv_raft_storage.Raft.Invariant.{IsWf}
use kv_raft_storage.Raft.Snapshot.{save_both, replace_log, install_snapshot}
use kv_raft_storage.Raft.Snapshot.Truncate.{cut_at, IsCut, logs_behind-eq, cut_at-IsCut}

module _ {F : Type 0} ⦃ar : Archive F⦄ where
  -- The node of `InstallSnapshot` once the message's term is taken over.
  abbrev pub settled : ℕ → InstallSnapshotRequest → Raft F → Raft F
  settled now args r =
      record (if ltb r.current_term args.term then persist (step_down r args.term) else r) {
        status = follower;
        last_reset_election = now;
      }

  settled-log :
      (now : ℕ) (args : InstallSnapshotRequest) (r : Raft F)
      → IsWf r
      → IsWf (settled now args r)
        × ((settled now args r).last_snapshot_index ≡ r.last_snapshot_index)
        × (length (settled now args r).logs ≡ length r.logs)
        × ((j : ℕ) → entry_at (settled now args r) j ≡ entry_at r j)
  unfolding persist step_down entry_at get_last_log_index
  settled-log now args r w = elim (Bool-cases (ltb r.current_term args.term)) [
    | inl later ↦ rw later ((assumption), refl, refl, λ j. refl)
    | inr same ↦ rw same ((assumption), refl, refl, λ j. refl)
  ]

  -- What the installing branch makes of the settled node.
  abbrev pub installed : InstallSnapshotRequest → Raft F → Raft F
  installed args s =
      save_both args.snapshot (record (cut_at args.last_snapshot_index args.last_snapshot_term s) {
        pushed =
            s.pushed
            ++ snapshot_msg args.snapshot args.last_snapshot_term args.last_snapshot_index ∷ [];
      })

  replace_log-eq :
      (args : InstallSnapshotRequest) (s : Raft F)
      → IsWf s
      → s.last_snapshot_index < args.last_snapshot_index
      → replace_log args s ≡ some (installed args s)
  unfolding replace_log
  replace_log-eq args s ws newer = rw (logs_behind-eq s ws args.last_snapshot_index newer)

  installed-IsCut :
      (args : InstallSnapshotRequest) (r s : Raft F)
      → IsCut r (cut_at args.last_snapshot_index args.last_snapshot_term s) args.last_snapshot_index
      → IsCut r (installed args s) args.last_snapshot_index
  unfolding save_both entry_at get_last_log_index
  installed-IsCut args r s c = record {
    wf = (let w = c.wf in assumption);
    at_index = c.at_index;
    last_kept = c.last_kept;
    reads = c.reads;
  }

  -- On a well-formed node, for a message that is not stale and whose snapshot is newer than the
  -- node's, `InstallSnapshot` returns: the node is well formed, is cut at the snapshot's index,
  -- reads every later entry as before, and has written the message's snapshot with a state that
  -- reads back.
  pub install_snapshot-IsCut :
      (now : ℕ) (args : InstallSnapshotRequest) (r : Raft F)
      → IsWf r
      → r.current_term ≤ args.term
      → r.last_snapshot_index < args.last_snapshot_index
      → (out : Raft F) × (install_snapshot now args r ≡ some (out, out.current_term))
        × IsCut r out args.last_snapshot_index
        × (out.snapshot_file ≡ args.snapshot)
        × (ar.load out.raft_file ≡ some (persist_data out))
  unfolding install_snapshot save_both
  install_snapshot-IsCut now args r w le newer =
      let s = settled now args r in
      let index = args.last_snapshot_index in
      let (ws, snap, long, reads) = settled-log now args r w in
      let newer' : s.last_snapshot_index < index = omega (arith, snap) in
      let c = cut_at-IsCut s ws index args.last_snapshot_term newer' in
      (
        installed args s,
        rw (
          le→not-ltb args.term r.current_term le,
          lt→not-leb index s.last_snapshot_index newer',
          replace_log-eq args s ws newer',
        ),
        installed-IsCut args r s (record {
          wf = c.wf;
          at_index = refl;
          last_kept = omega (arith, c.last_kept, long, snap);
          reads = λ j behind inside. c.reads j behind (omega (arith, long, snap)) ∙ reads j;
        }),
        refl,
        ar.load-dump _,
      )
