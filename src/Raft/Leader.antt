-- ===== src/Raft/Leader.antt =====
-- The leader: `Start`, `getPrevLogInfo`, `doHeartBeat`, `sendAppendEntries`, `leaderSendSnapShot`,
-- `leaderUpdateCommitIndex` and the steps of `ReadIndex` of raftCore/raft.cpp. A send is split
-- into the request that is built under the lock and the handling of the reply.
pub mod Sends
pub mod Commit
pub mod Replies
pub mod Entries
pub mod Elected
use kv_raft_storage.Common.{
  ℕ, zero, suc, ◌+◌, ◌-◌, ◌/◌, Bool, false, not, ◌&&◌, ◌||◌, List, [], ◌∷◌, ◌++◌, Option, none,
  some, ltb, leb, ◌==◌, if◌then◌else◌, length, drop, get_elem?, set, max, Bytes, ◌>>=◌, ◌>>◌,
  my_assert,
}
use kv_raft_storage.Raft.State.{
  LogEntry, Archive, Raft, AppendEntriesArgs, AppendEntriesReply, InstallSnapshotRequest,
}
use kv_raft_storage.Raft.Log.{
  last_of, get_last_log_index, get_new_command_index, get_slices_index, entry_at, get_log_term,
  persist,
}
use kv_raft_storage.Raft.Vote.{is_leader, step_down, others_below}

-- What `doHeartBeat` starts for one other node.
pub data Send : Type 0 where
  send_entries : ℕ → AppendEntriesArgs → Send
  send_snapshot : ℕ → Send

-- The test before `m_commitIndex` moves: the last entry sent is of the current term.
unfoldable pub ends_in_term : List LogEntry → ℕ → Bool
ends_in_term [] term = false
ends_in_term (e ∷ es) term = (last_of e.log_index e.log_term es).1 == term

module _ {F : Type 0} where
  -- `m_nextIndex[server]` and `m_matchIndex[server]`
  abbrev pub next_of : Raft F → ℕ → Option ℕ
  next_of r server = get_elem? r.next_index server

  abbrev pub match_of : Raft F → ℕ → Option ℕ
  match_of r server = get_elem? r.match_index server

  unfoldable pub get_prev_log_info : Raft F → ℕ → Option (ℕ × ℕ)
  unfolding entry_at
  get_prev_log_info r server = do
    next ← next_of r server
    if next == r.last_snapshot_index + 1
        then some (r.last_snapshot_index, r.last_snapshot_term)
        else (do e ← entry_at r (next - 1); some (next - 1, e.log_term))

  -- The entries behind `prev`, to the end of the log.
  unfoldable pub entries_from : Raft F → ℕ → Option (List LogEntry)
  unfolding get_slices_index
  entries_from r prev =
      if not (prev == r.last_snapshot_index)
      then (do i ← get_slices_index r prev; some (drop (i + 1) r.logs))
      else some r.logs

  -- One round of the loop of `doHeartBeat`.
  unfoldable pub heartbeat_for : Raft F → ℕ → Option Send
  unfolding my_assert
  heartbeat_for r server = do
    next ← next_of r server
    my_assert (leb 1 next)
    if leb next r.last_snapshot_index then some (send_snapshot server) else do
      (prev, prev_term) ← get_prev_log_info r server
      entries ← entries_from r prev
      my_assert (prev + length entries == get_last_log_index r)
      some (
          send_entries server (record {
            term = r.current_term;
            leader_id = r.me;
            prev_log_index = prev;
            prev_log_term = prev_term;
            entries = entries;
            leader_commit = r.commit_index;
          }))

  unfoldable pub heartbeats : Raft F → List ℕ → Option (List Send)
  heartbeats r [] = some []
  heartbeats r (server ∷ rest) = do
    s ← heartbeat_for r server
    ss ← heartbeats r rest
    some (s ∷ ss)

  unfoldable pub do_heartbeat : ℕ → Raft F → Option (Raft F × List Send)
  do_heartbeat now r =
      if is_leader r.status
      then (do
        sends ← heartbeats r (others_below r.me r.peers)
        some (record r { last_reset_heartbeat = now }, sends))
      else some (r, [])

  unfoldable pub commit_sent : AppendEntriesArgs → Raft F → Raft F
  unfolding ends_in_term
  commit_sent args r =
      if ends_in_term args.entries r.current_term
      then record r {
        commit_index = max r.commit_index (args.prev_log_index + length args.entries);
      }
      else r

  -- The `else` branch of `sendAppendEntries`: the follower has the entries.
  unfoldable pub note_success : ℕ → AppendEntriesArgs → Raft F → ℕ → Option (Raft F × ℕ)
  unfolding my_assert
  note_success server args r append_nums = do
    old ← match_of r server
    let matched = max old (args.prev_log_index + length args.entries)
    let r' : Raft F = record r {
      match_index = set r.match_index server matched;
      next_index = set r.next_index server (matched + 1);
    }
    my_assert (leb (matched + 1) (get_last_log_index r + 1))
    if leb (1 + r.peers / 2) (append_nums + 1)
        then (do
          let r'' = commit_sent args r'
          my_assert (leb r''.commit_index (get_last_log_index r))
          some (r'', 0))
        else some (r', append_nums + 1)

  -- `sendAppendEntries` from a reply on: the state and `*appendNums`.
  unfoldable pub handle_append_reply :
      ℕ → AppendEntriesArgs → AppendEntriesReply → Raft F → ℕ → Option (Raft F × ℕ)
  unfolding step_down
  handle_append_reply server args reply r append_nums =
      if not reply.app_normal
      then some (r, append_nums)
      else if ltb r.current_term reply.term
      then some (step_down r reply.term, append_nums)
      else if ltb reply.term r.current_term || not (is_leader r.status)
      then some (r, append_nums)
      else if reply.success
      then note_success server args r append_nums
      else elim reply.update_next_index [
        | none ↦ some (r, append_nums)
        | some hint ↦ some (record r { next_index = set r.next_index server hint }, append_nums)
      ]

  -- The request of `leaderSendSnapShot`.
  unfoldable pub snapshot_request : Raft F → InstallSnapshotRequest
  snapshot_request r = record {
    leader_id = r.me;
    term = r.current_term;
    last_snapshot_index = r.last_snapshot_index;
    last_snapshot_term = r.last_snapshot_term;
    snapshot = r.snapshot_file;
  }

  -- The nodes counted by the inner loop of `leaderUpdateCommitIndex`, of the first `n`.
  unfoldable pub count_matched : Raft F → ℕ → ℕ → Option ℕ
  count_matched r index zero = some 0
  count_matched r index (suc n) = do
    sum ← count_matched r index n
    if n == r.me
        then some (sum + 1)
        else do m ← match_of r n; some (if leb index m then sum + 1 else sum)

  -- Its outer loop, from `index` down, with `n` rounds left.
  unfoldable pub commit_search : Raft F → ℕ → ℕ → Option (Raft F)
  unfolding count_matched
  commit_search r zero index = some (record r { commit_index = r.last_snapshot_index })
  commit_search r (suc n) index =
      let rest = commit_search r n (index - 1) in
      let found = record r { commit_index = index } in
      count_matched r index r.peers >>= λ sum.
      if leb (r.peers / 2 + 1) sum
      then (get_log_term r index >>= λ t. if t == r.current_term then some found else rest)
      else rest

  unfoldable pub leader_update_commit_index : Raft F → Option (Raft F)
  unfolding commit_search
  leader_update_commit_index r =
      commit_search r (get_last_log_index r - r.last_snapshot_index) (get_last_log_index r)

  -- `ReadIndex`, first step: the index to wait for and the term to hold on to.
  unfoldable pub read_index_begin : Raft F → Option (ℕ × ℕ)
  read_index_begin r = if is_leader r.status then some (r.commit_index, r.current_term) else none

  -- The heartbeat of `ReadIndex` for one node: `some none` where the node is passed over.
  unfoldable pub read_index_probe : Raft F → ℕ → ℕ → Option (Option AppendEntriesArgs)
  unfolding get_prev_log_info
  read_index_probe r saved_term server =
      if not (r.current_term == saved_term) || not (is_leader r.status) then some none else do
        next ← next_of r server
        if leb next r.last_snapshot_index then some none else do
          (prev, prev_term) ← get_prev_log_info r server
          some (
              some (record {
                term = r.current_term;
                leader_id = r.me;
                prev_log_index = prev;
                prev_log_term = prev_term;
                entries = [];
                leader_commit = r.commit_index;
              }))

  -- The final test of `ReadIndex` once a majority has confirmed.
  unfoldable pub read_index_end : Raft F → ℕ → ℕ → Bool
  read_index_end r saved_term confirmed =
      leb (r.peers / 2 + 1) confirmed && (r.current_term == saved_term && is_leader r.status)

  module _ ⦃ar : Archive F⦄ where
    -- `Start`: the state, and the index and term of the new entry if this node leads.
    unfoldable pub start : Bytes → Raft F → Raft F × Option (ℕ × ℕ)
    unfolding persist
    start command r =
        if not (is_leader r.status)
        then (r, none)
        else let e : LogEntry = record {
          command = command;
          log_term = r.current_term;
          log_index = get_new_command_index r;
        } in
          (persist (record r { logs = r.logs ++ e ∷ [] }), some (e.log_index, e.log_term))

    -- `leaderSendSnapShot` from the reply on.
    unfoldable pub handle_snapshot_reply : ℕ → ℕ → InstallSnapshotRequest → ℕ → Raft F → Raft F
    unfolding step_down persist
    handle_snapshot_reply now server args reply_term r =
        if not (is_leader r.status) || not (r.current_term == args.term)
        then r
        else if ltb r.current_term reply_term
        then record (persist (step_down r reply_term)) { last_reset_election = now }
        else record r {
          match_index = set r.match_index server args.last_snapshot_index;
          next_index = set r.next_index server (args.last_snapshot_index + 1);
        }
