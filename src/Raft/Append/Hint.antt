-- ===== src/Raft/Append/Hint.antt =====
-- The refusals of `AppendEntries1` (raftCore/raft.cpp) with a hint for the leader, and messages
-- without entries.
use kv_raft_storage.Common.{
  ℕ, ◌+◌, ◌-◌, ◌≤◌, ◌<◌, ◌≡◌, refl, ◌∙◌, some, true, arith, length, inl, inr, lt→ltb, Option, ◌⊎◌,
  [],
}
use kv_raft_storage.Raft.State.{Raft, Archive, AppendEntriesArgs, AppendEntriesReply}
use kv_raft_storage.Raft.Log.{persist}
use kv_raft_storage.Raft.Invariant.{IsWf, get_last_log_index-eq}
use kv_raft_storage.Raft.Append.{follow_commit, rejected, append_entries}
use kv_raft_storage.Raft.Append.Overlay.{overlay-nil, Agree-nil}
use kv_raft_storage.Raft.Append.BackOff.{IsHint}
use kv_raft_storage.Raft.Append.Total.{
  Fits, after_accept, Checked, ahead, behind, conflict, matched,
}
use kv_raft_storage.Raft.Append.Entered.{entered, entered-IsWf}
use kv_raft_storage.Raft.Append.Success.{append_entries-cases}
use kv_raft_storage.Raft.Append.Progress.{entered-fields}

module _ {F : Type 0} where
  -- Where a refusal may send the leader.
  abbrev pub HintOk : AppendEntriesArgs → Raft F → ℕ → Type 0
  HintOk args r hint =
      ((args.prev_log_index < r.last_snapshot_index) × (hint ≡ r.last_snapshot_index + 1))
      ⊎ ((hint ≤ args.prev_log_index)
          × ((hint ≡ r.last_snapshot_index + length r.logs + 1)
              ⊎ IsHint r args.prev_log_index hint))

  heartbeat-Fits : (args : AppendEntriesArgs) (r : Raft F) → args.entries ≡ [] → Fits args r
  heartbeat-Fits args r e = record {
    follows = rw e tt;
    agrees = rw e (Agree-nil (args.prev_log_index - r.last_snapshot_index) r.logs);
  }

  Checked-heartbeat :
      (args : AppendEntriesArgs) (r out : Raft F) (reply : AppendEntriesReply)
      {o : Option (Raft F × AppendEntriesReply)}
      → IsWf r
      → args.entries ≡ []
      → Checked args r o
      → o ≡ some (out, reply)
      → reply.success ≡ true
      → r.commit_index < args.leader_commit
      → r.last_snapshot_index + length r.logs ≤ args.leader_commit
      → (out.commit_index ≡ r.last_snapshot_index + length r.logs) × (out.logs ≡ r.logs)
  unfolding rejected follow_commit
  Checked-heartbeat args r out reply w none_sent (ahead h) e s news past = ground arith
  Checked-heartbeat args r out reply w none_sent (behind h) e s news past = ground arith
  Checked-heartbeat args r out reply w none_sent (conflict t hint found ne is) e s news past =
      ground arith
  Checked-heartbeat args r out reply w none_sent (matched lo hi found) e s news past =
      let same : after_accept args r ≡ out = cc in
      let last = get_last_log_index-eq r w.contiguous in
      rw (← same, none_sent, overlay-nil, lt→ltb _ _ news) (omega (arith, last, past), refl)

  module _ ⦃ar : Archive F⦄ where
    -- A message with no entries that a well-formed node accepts, with a `leadercommit` at or past
    -- the node's last index and past its commit index, makes the node commit its whole log: also
    -- the entries behind `prevlogindex`, which the message says nothing about.
    pub heartbeat_commits_whole_log :
        (now : ℕ) (args : AppendEntriesArgs) (r out : Raft F) (reply : AppendEntriesReply)
        → IsWf r
        → args.entries ≡ []
        → append_entries now args r ≡ some (out, reply)
        → reply.success ≡ true
        → r.commit_index < args.leader_commit
        → r.last_snapshot_index + length r.logs ≤ args.leader_commit
        → (out.commit_index ≡ r.last_snapshot_index + length r.logs) × (out.logs ≡ r.logs)
    unfolding rejected persist
    heartbeat_commits_whole_log now args r out reply w none_sent e s news past =
        let (logs, snap, commit, _, _) = entered-fields args now r in
        let longer : length (entered args now r).logs ≡ length r.logs = rw logs in
        elim (append_entries-cases now args r out reply w (heartbeat-Fits args r none_sent) e) [
          | inl (stale, _, same) ↦ absurd (ground arith)
          | inr (out', h, same, c) ↦
              let (whole, kept) =
                Checked-heartbeat args (entered args now r) out' reply (entered-IsWf args now w)
                  none_sent c refl s (omega (arith, news, commit))
                  (omega (arith, past, longer, snap)) in
              rw same (omega (arith, whole, longer, snap), kept ∙ logs)
        ]
