-- ===== src/Raft/Snapshot.antt =====
-- Snapshots, restarts and applying: `InstallSnapshot`, `Snapshot`, `getApplyLogs`, `applierTicker`,
-- `init` and `readPersist` of raftCore/raft.cpp.
pub mod Apply
pub mod Truncate
pub mod Install
pub mod Restart
use kv_raft_storage.Common.{
  ℕ, zero, suc, ◌+◌, ◌-◌, ◌||◌, List, [], ◌∷◌, ◌++◌, Option, none, some, ltb, leb, ◌==◌,
  if◌then◌else◌, length, drop, replicate, max, Bytes, ◌>>=◌, ◌>>◌, my_assert,
}
use kv_raft_storage.Raft.State.{
  LogEntry, Persisted, follower, Archive, ApplyMsg, command_msg, snapshot_msg, Raft,
  InstallSnapshotRequest,
}
use kv_raft_storage.Raft.Log.{get_last_log_index, get_slices_index, entry_at, persist}
use kv_raft_storage.Raft.Vote.{step_down}

module _ {F : Type 0} where
  -- The loop of `Snapshot` that copies the entries `from`, `from + 1`, … of the log.
  unfoldable pub copy_logs : Raft F → ℕ → ℕ → Option (List LogEntry)
  unfolding entry_at
  copy_logs r from zero = some []
  copy_logs r from (suc n) = do
    e ← entry_at r from
    rest ← copy_logs r (from + 1) n
    some (e ∷ rest)

  -- One round of the loop of `getApplyLogs`.
  unfoldable pub apply_next : Raft F → Option (Raft F × ApplyMsg)
  unfolding my_assert entry_at
  apply_next r = do
    let index = r.last_applied + 1
    e ← entry_at r index
    my_assert (e.log_index == index)
    some (record r { last_applied = index }, command_msg e.command index)

  -- The loop `while (m_lastApplied < m_commitIndex)`, with `n` rounds left.
  unfoldable pub apply_loop : ℕ → Raft F → Option (Raft F × List ApplyMsg)
  apply_loop zero r = some (r, [])
  apply_loop (suc n) r = do
    (r', msg) ← apply_next r
    (r'', rest) ← apply_loop n r'
    some (r'', msg ∷ rest)

  unfoldable pub get_apply_logs : Raft F → Option (Raft F × List ApplyMsg)
  unfolding my_assert
  get_apply_logs r = do
    my_assert (leb r.commit_index (get_last_log_index r))
    apply_loop (r.commit_index - r.last_applied) r

  -- A round of `applierTicker`: the messages go to `applyChan`.
  unfoldable pub applier_round : Raft F → Option (Raft F)
  unfolding get_apply_logs
  applier_round r = do
    (r', msgs) ← get_apply_logs r
    some (record r' { pushed = r'.pushed ++ msgs })

  -- What `InstallSnapshot` keeps of the log: the entries behind `index`, if there are any.
  unfoldable pub logs_behind : ℕ → Raft F → Option (List LogEntry)
  logs_behind index r =
      if ltb index (get_last_log_index r)
      then (do i ← get_slices_index r index; some (drop (i + 1) r.logs))
      else some []

  module _ ⦃ar : Archive F⦄ where
    -- `m_persister->Save(persistData(), snapshot)`
    unfoldable pub save_both : Bytes → Raft F → Raft F
    unfolding persist
    save_both snapshot r = record (persist r) { snapshot_file = snapshot }

    -- The part of `InstallSnapshot` behind the test for an outdated snapshot.
    unfoldable pub replace_log : InstallSnapshotRequest → Raft F → Option (Raft F)
    unfolding save_both
    replace_log args r = do
      rest ← logs_behind args.last_snapshot_index r
      some (
          save_both args.snapshot (record r {
            logs = rest;
            commit_index = max r.commit_index args.last_snapshot_index;
            last_applied = max r.last_applied args.last_snapshot_index;
            last_snapshot_index = args.last_snapshot_index;
            last_snapshot_term = args.last_snapshot_term;
            pushed =
                r.pushed
                ++ snapshot_msg args.snapshot args.last_snapshot_term args.last_snapshot_index ∷ [];
          }))

    -- `InstallSnapshot`: the state, and the term of the reply (0 where it is not set).
    unfoldable pub install_snapshot : ℕ → InstallSnapshotRequest → Raft F → Option (Raft F × ℕ)
    install_snapshot now args r =
        if ltb args.term r.current_term
        then some (r, r.current_term)
        else let r' = if ltb r.current_term args.term then persist (step_down r args.term) else r in
          let r'' : Raft F = record r' { status = follower; last_reset_election = now } in
          if leb args.last_snapshot_index r''.last_snapshot_index
          then some (r'', 0)
          else (do out ← replace_log args r''; some (out, out.current_term))

    -- `Snapshot`: the state machine has taken a snapshot up to `index`.
    unfoldable pub take_snapshot : ℕ → Bytes → Raft F → Option (Raft F)
    unfolding my_assert copy_logs save_both
    take_snapshot index snapshot r =
        if leb index r.last_snapshot_index || ltb r.commit_index index then some r else do
          let last = get_last_log_index r
          e ← entry_at r index
          rest ← copy_logs r (index + 1) (last - index)
          let r' = save_both snapshot (record r {
            last_snapshot_index = index;
            last_snapshot_term = e.log_term;
            logs = rest;
            commit_index = max r.commit_index index;
            last_applied = max r.last_applied index;
          })
          my_assert (length r'.logs + r'.last_snapshot_index == last)
          some r'

    -- `readPersist`: an empty file leaves the state alone.
    unfoldable pub read_persist : Option Persisted → Raft F → Raft F
    read_persist none r = r
    read_persist (some p) r = record r {
      current_term = p.current_term;
      voted_for = p.voted_for;
      last_snapshot_index = p.last_snapshot_index;
      last_snapshot_term = p.last_snapshot_term;
      logs = p.logs;
    }

    -- `init` up to the start of the timers, over the files that `persister` has.
    unfoldable pub init : ℕ → ℕ → ℕ → F → Bytes → Raft F
    unfolding read_persist
    init now peers me raft_file snapshot_file =
        let fresh : Raft F = record {
          peers = peers;
          me = me;
          current_term = 0;
          voted_for = none;
          logs = [];
          commit_index = 0;
          last_applied = 0;
          next_index = replicate peers 0;
          match_index = replicate peers 0;
          status = follower;
          last_reset_election = now;
          last_reset_heartbeat = now;
          last_snapshot_index = 0;
          last_snapshot_term = 0;
          raft_file = raft_file;
          snapshot_file = snapshot_file;
          pushed = [];
        } in
        let r = read_persist (ar.load raft_file) fresh in
        if ltb 0 r.last_snapshot_index then record r { last_applied = r.last_snapshot_index } else r
