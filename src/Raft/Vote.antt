-- ===== src/Raft/Vote.antt =====
-- Elections: `doElection`, `RequestVote` and `sendRequestVote` of raftCore/raft.cpp.
use kv_raft_storage.Common.{
  ℕ, zero, suc, ◌+◌, ◌/◌, Bool, true, false, not, List, [], ◌∷◌, ◌++◌, Option, none, some, ltb, leb,
  ◌==◌, if◌then◌else◌, replicate, length, ◌>>◌, my_assert,
}
use kv_raft_storage.Raft.State.{
  LogEntry, Status, follower, candidate, leader, Archive, Raft, RequestVoteArgs, RequestVoteReply,
  voted, expire, normal,
}
use kv_raft_storage.Raft.Log.{
  get_last_log_index, get_last_log_term, get_new_command_index, up_to_date, persist,
}

abbrev pub is_leader : Status → Bool
is_leader leader = true
is_leader _ = false

-- `m_votedFor != -1 && m_votedFor != candidate`
abbrev pub voted_other : Option ℕ → ℕ → Bool
voted_other none c = false
voted_other (some v) c = not (v == c)

-- The nodes that a loop over the peers sends to, all below `n` but this one.
unfoldable pub others_below : ℕ → ℕ → List ℕ
others_below me zero = []
others_below me (suc n) = let rest = others_below me n in if n == me then rest else rest ++ n ∷ []

module _ {F : Type 0} where
  -- The three assignments by which a node goes to a later term.
  unfoldable pub step_down : Raft F → ℕ → Raft F
  step_down r term = record r { status = follower; current_term = term; voted_for = none }

  -- The request that `doElection` builds for each other node.
  unfoldable pub request_vote_args : Raft F → RequestVoteArgs
  request_vote_args r = record {
    term = r.current_term;
    candidate_id = r.me;
    last_log_index = get_last_log_index r;
    last_log_term = get_last_log_term r;
  }

  module _ ⦃ar : Archive F⦄ where
    -- The new state, and the request with the nodes that it is sent to.
    unfoldable pub do_election : ℕ → Raft F → Raft F × Option (RequestVoteArgs × List ℕ)
    unfolding persist request_vote_args
    do_election now r =
        if is_leader r.status
        then (r, none)
        else let r' : Raft F =
            record (persist (record r {
              status = candidate;
              current_term = r.current_term + 1;
              voted_for = some r.me;
            })) { last_reset_election = now } in
          (r', some (request_vote_args r', others_below r.me r.peers))

    -- After the test of a stale term: the log is compared, then the vote that was cast.
    unfoldable pub decide_vote : ℕ → RequestVoteArgs → Raft F → Raft F × RequestVoteReply
    decide_vote now args r =
        if not (up_to_date r args.last_log_index args.last_log_term)
        then (r, record { term = r.current_term; vote_state = voted; vote_granted = false })
        else if voted_other r.voted_for args.candidate_id
        then (r, record { term = r.current_term; vote_state = voted; vote_granted = false })
        else (
          record r { voted_for = some args.candidate_id; last_reset_election = now },
          record { term = r.current_term; vote_state = normal; vote_granted = true },
        )

    -- `RequestVote`; `DEFER { persist(); }` runs on each return.
    unfoldable pub request_vote : ℕ → RequestVoteArgs → Raft F → Option (Raft F × RequestVoteReply)
    unfolding my_assert persist step_down decide_vote
    request_vote now args r =
        if ltb args.term r.current_term
        then some
            (persist r, record { term = r.current_term; vote_state = expire; vote_granted = false })
        else do
          let r' = if ltb r.current_term args.term then step_down r args.term else r
          my_assert (args.term == r'.current_term)
          let (r'', reply) = decide_vote now args r'
          some (persist r'', reply)

    unfoldable pub append_noop : Raft F → Raft F
    append_noop r =
        let noop : LogEntry = record {
          command = ar.noop_text r.current_term;
          log_term = r.current_term;
          log_index = get_new_command_index r;
        } in
        record r { logs = r.logs ++ noop ∷ [] }

    -- A candidate that has won: every `nextIndex` behind the log, every `matchIndex` 0, a no-op.
    unfoldable pub become_leader : Raft F → Raft F
    unfolding persist append_noop
    become_leader r = persist (
        append_noop (record r {
          status = leader;
          next_index = replicate (length r.next_index) (get_last_log_index r + 1);
          match_index = replicate (length r.next_index) 0;
        }))

    -- `sendRequestVote` from the reply on: the state and `*votedNum`.
    unfoldable pub handle_vote_reply : RequestVoteReply → Raft F × ℕ → Option (Raft F × ℕ)
    unfolding my_assert persist step_down become_leader
    handle_vote_reply reply (r, voted_num) =
        if ltb r.current_term reply.term
        then some (persist (step_down r reply.term), voted_num)
        else if ltb reply.term r.current_term
        then some (r, voted_num)
        else if not reply.vote_granted
        then some (r, voted_num)
        else if leb (r.peers / 2 + 1) (voted_num + 1)
        then (do my_assert (not (is_leader r.status)); some (become_leader r, 0))
        else some (r, voted_num + 1)
