-- ===== src/Raft/Snapshot/Restart.antt =====
-- `init` and `readPersist` of raftCore/raft.cpp over the files of a node that has crashed.
use kv_raft_storage.Common.{ℕ, ◌≡◌, refl, some, arith, length-replicate, Bool-cases, inl, inr, ltb}
use kv_raft_storage.Raft.State.{Raft, Archive, follower}
use kv_raft_storage.Raft.Log.{persist_data}
use kv_raft_storage.Raft.Invariant.{IsWf}
use kv_raft_storage.Raft.Snapshot.{init, read_persist}

module _ {F : Type 0} ⦃ar : Archive F⦄ where
  -- `out` is `r` after a restart.
  pub record Restarted (r out : Raft F) : Type 0 where
    pub wf : IsWf out
    pub persisted : persist_data out ≡ persist_data r
    pub is_follower : out.status ≡ follower
    pub nothing_committed : out.commit_index ≡ 0
    pub applied : out.last_applied ≡ r.last_snapshot_index
    pub same_files : (out.raft_file ≡ r.raft_file) × (out.snapshot_file ≡ r.snapshot_file)

  -- A well-formed node whose file holds its state crashes and restarts: `init` gives a well-formed
  -- follower with the same term, vote, log and snapshot, which has committed nothing yet and goes on
  -- applying right behind the snapshot.
  pub init-Restarted :
      (now : ℕ) (r : Raft F)
      → IsWf r
      → ar.load r.raft_file ≡ some (persist_data r)
      → Restarted r (init now r.peers r.me r.raft_file r.snapshot_file)
  unfolding init read_persist persist_data
  init-Restarted now r w saved = elim (Bool-cases (ltb 0 r.last_snapshot_index)) [
    | inl snapshot ↦
        rw (saved, snapshot)
          (record {
            wf = record {
              contiguous = w.contiguous;
              commit_in_log = omega arith;
              applied_past_snapshot = omega arith;
              applied_in_log = omega arith;
              me_is_peer = w.me_is_peer;
              next_sized = length-replicate r.peers 0;
              match_sized = length-replicate r.peers 0;
            };
            persisted = refl;
            is_follower = refl;
            nothing_committed = refl;
            applied = refl;
            same_files = (refl, refl);
          })
    | inr blank ↦
        let none_yet : 0 ≡ r.last_snapshot_index = ground arith in
        rw (saved, blank)
          (record {
            wf = record {
              contiguous = w.contiguous;
              commit_in_log = omega arith;
              applied_past_snapshot = omega arith;
              applied_in_log = omega arith;
              me_is_peer = w.me_is_peer;
              next_sized = length-replicate r.peers 0;
              match_sized = length-replicate r.peers 0;
            };
            persisted = refl;
            is_follower = refl;
            nothing_committed = refl;
            applied = none_yet;
            same_files = (refl, refl);
          })
  ]
