-- ===== src/Raft/Append.antt =====
-- `AppendEntries1` of raftCore/raft.cpp: what a follower does with a leader's message.
pub mod Overlay
pub mod Store
pub mod BackOff
pub mod Total
pub mod Entered
pub mod Success
pub mod Holds
pub mod Progress
pub mod Hint
use kv_raft_storage.Common.{
  ℕ, zero, suc, ◌+◌, ◌-◌, true, false, not, ◌&&◌, List, [], ◌∷◌, ◌++◌, Option, none, some, ltb, leb,
  ◌==◌, if◌then◌else◌, length, get_elem?, set, min, ◌>>=◌, ◌>>◌, my_assert, bytes_eq,
}
use kv_raft_storage.Raft.State.{
  LogEntry, follower, Archive, Raft, AppendEntriesArgs, AppendEntriesReply,
}
use kv_raft_storage.Raft.Log.{
  get_last_log_index, get_slices_index, get_log_term, match_log, persist,
}
use kv_raft_storage.Raft.Vote.{step_down}

module _ {F : Type 0} where
  -- One round of the loop over `entries`: an entry behind the log is appended; inside the log an
  -- entry of another term is overwritten in place, and what follows it stays.
  unfoldable pub store_entry : LogEntry → Raft F → Option (Raft F)
  unfolding my_assert get_slices_index
  store_entry log r =
      if ltb (get_last_log_index r) log.log_index
      then some (record r { logs = r.logs ++ log ∷ [] })
      else do
        i ← get_slices_index r log.log_index
        old ← get_elem? r.logs i
        my_assert (not (old.log_term == log.log_term && not (bytes_eq old.command log.command)))
        if old.log_term == log.log_term then some r else some (record r { logs = set r.logs i log })

  unfoldable pub store_entries : List LogEntry → Raft F → Option (Raft F)
  store_entries [] r = some r
  store_entries (log ∷ rest) r = store_entry log r >>= store_entries rest

  -- The loop `for (index = prev; index >= lastSnapshotIncludeIndex; --index)` that looks for the
  -- start of the conflicting term: `n` is the number of rounds left, `index` the loop's variable.
  unfoldable pub back_off : Raft F → ℕ → ℕ → ℕ → Option ℕ
  back_off r prev zero index = some prev
  back_off r prev (suc n) index =
      let rest = back_off r prev n (index - 1) in
      get_log_term r index >>= λ t.
      get_log_term r prev >>= λ s. if not (t == s) then some (index + 1) else rest

  unfoldable pub rejected : Raft F → Option ℕ → AppendEntriesReply
  rejected r hint = record {
    term = r.current_term;
    success = false;
    update_next_index = hint;
    app_normal = true;
  }

  unfoldable pub accepted : Raft F → AppendEntriesReply
  accepted r = record {
    term = r.current_term;
    success = true;
    update_next_index = some 0;
    app_normal = true;
  }

  -- `m_commitIndex = std::min(leadercommit, getLastLogIndex())`, if that is news.
  unfoldable pub follow_commit : ℕ → Raft F → Raft F
  follow_commit leader_commit r =
      if ltb r.commit_index leader_commit
      then record r { commit_index = min leader_commit (get_last_log_index r) }
      else r

  -- The branch in which the logs agree at `prevlogindex`.
  unfoldable pub accept_entries : AppendEntriesArgs → Raft F → Option (Raft F × AppendEntriesReply)
  unfolding my_assert follow_commit accepted
  accept_entries args r = do
    r' ← store_entries args.entries r
    my_assert (leb (args.prev_log_index + length args.entries) (get_last_log_index r'))
    let r'' = follow_commit args.leader_commit r'
    my_assert (leb r''.commit_index (get_last_log_index r''))
    some (r'', accepted r'')

  -- The terms are equal: the two tests of `prevlogindex`, then `matchLog`.
  unfoldable pub append_checked : AppendEntriesArgs → Raft F → Option (Raft F × AppendEntriesReply)
  unfolding rejected
  append_checked args r =
      if ltb (get_last_log_index r) args.prev_log_index
      then some (r, rejected r (some (get_last_log_index r + 1)))
      else if ltb args.prev_log_index r.last_snapshot_index
      then some (r, rejected r (some (r.last_snapshot_index + 1)))
      else do
        matched ← match_log r args.prev_log_index args.prev_log_term
        if matched then accept_entries args r else do
          hint ←
              back_off r args.prev_log_index (args.prev_log_index + 1 - r.last_snapshot_index)
                args.prev_log_index
          some (r, rejected r (some hint))

  module _ ⦃ar : Archive F⦄ where
    abbrev persist_after : Raft F × AppendEntriesReply → Raft F × AppendEntriesReply
    persist_after (r, reply) = (persist r, reply)

    -- `AppendEntries1`; a stale leader is answered without `DEFER { persist(); }`.
    unfoldable pub append_entries :
        ℕ → AppendEntriesArgs → Raft F → Option (Raft F × AppendEntriesReply)
    unfolding my_assert rejected step_down persist
    append_entries now args r =
        if ltb args.term r.current_term then some (r, rejected r none) else do
          let r' = if ltb r.current_term args.term then step_down r args.term else r
          my_assert (args.term == r'.current_term)
          out ← append_checked args (record r' { status = follower; last_reset_election = now })
          some (persist_after out)
