-- ===== src/Raft/Election.antt =====
-- The life of one node: every handler of raftCore/raft.cpp, and a crash with a restart from the
-- files, as steps; each step with the votes that it casts.
pub mod Effect
pub mod Frame
pub mod Handlers
pub mod Installs
pub mod Others
pub mod Safety
pub mod Grant
use kv_raft_storage.Common.{
  ℕ, suc, ◌≡◌, Bool, true, List, [], ◌∷◌, ◌++◌, Option, none, some, Bytes, if◌then◌else◌,
}
use kv_raft_storage.Raft.State.{
  Archive, Persisted, Raft, RequestVoteArgs, RequestVoteReply, AppendEntriesArgs,
  AppendEntriesReply, InstallSnapshotRequest,
}
use kv_raft_storage.Raft.Vote.{is_leader, do_election, request_vote, handle_vote_reply}
use kv_raft_storage.Raft.Append.{append_entries}
use kv_raft_storage.Raft.Snapshot.{install_snapshot, take_snapshot, applier_round, init}
use kv_raft_storage.Raft.Leader.{
  Send, do_heartbeat, handle_append_reply, handle_snapshot_reply, start, leader_update_commit_index,
}

-- A vote that the node has cast: the term and the candidate.
pub record Vote : Type 0 where
  pub term : ℕ
  pub candidate : ℕ

-- The vote that a reply to `RequestVote` casts.
abbrev pub reply_votes : RequestVoteArgs → RequestVoteReply → List Vote
reply_votes args reply =
    if reply.vote_granted
    then record { term = reply.term; candidate = args.candidate_id } ∷ []
    else []

module _ {F : Type 0} ⦃ar : Archive F⦄ where
  -- The vote for itself of a node that starts an election.
  abbrev pub own_vote : Raft F → List Vote
  own_vote r =
      if is_leader r.status then [] else record { term = suc r.current_term; candidate = r.me } ∷ []

  pub data Step (r : Raft F) (votes : List Vote) (r' : Raft F) : Type 0 where
    elects : (now : ℕ) → r' ≡ (do_election now r).0 → votes ≡ own_vote r → Step r votes r'
    answers_vote :
        (now : ℕ) (args : RequestVoteArgs) (reply : RequestVoteReply)
        → request_vote now args r ≡ some (r', reply)
        → votes ≡ reply_votes args reply
        → Step r votes r'
    counts_vote :
        (reply : RequestVoteReply) (voted_num voted_num' : ℕ)
        → handle_vote_reply reply (r, voted_num) ≡ some (r', voted_num')
        → votes ≡ []
        → Step r votes r'
    answers_append :
        (now : ℕ) (args : AppendEntriesArgs) (reply : AppendEntriesReply)
        → append_entries now args r ≡ some (r', reply)
        → votes ≡ []
        → Step r votes r'
    answers_install :
        (now : ℕ) (args : InstallSnapshotRequest) (reply_term : ℕ)
        → install_snapshot now args r ≡ some (r', reply_term)
        → votes ≡ []
        → Step r votes r'
    beats :
        (now : ℕ) (sends : List Send)
        → do_heartbeat now r ≡ some (r', sends)
        → votes ≡ []
        → Step r votes r'
    counts_append :
        (server append_nums append_nums' : ℕ) (args : AppendEntriesArgs)
        (reply : AppendEntriesReply)
        → handle_append_reply server args reply r append_nums ≡ some (r', append_nums')
        → votes ≡ []
        → Step r votes r'
    counts_install :
        (now server reply_term : ℕ) (args : InstallSnapshotRequest)
        → r' ≡ handle_snapshot_reply now server args reply_term r
        → votes ≡ []
        → Step r votes r'
    starts : (command : Bytes) → r' ≡ (start command r).0 → votes ≡ [] → Step r votes r'
    snapshots :
        (index : ℕ) (snapshot : Bytes)
        → take_snapshot index snapshot r ≡ some r'
        → votes ≡ []
        → Step r votes r'
    applies : applier_round r ≡ some r' → votes ≡ [] → Step r votes r'
    restarts :
        (now : ℕ)
        → r' ≡ init now r.peers r.me r.raft_file r.snapshot_file
        → votes ≡ []
        → Step r votes r'

  -- From a first start over blank files: the node now, and the votes it has cast, newest first.
  pub data Life (now peers me : ℕ) : List Vote → Raft F → Type 0 where
    born : Life now peers me [] (init now peers me ar.blank [])
    lives :
        {votes : List Vote} {r : Raft F} (r' : Raft F) (cast : List Vote)
        → Life now peers me votes r
        → Step r cast r'
        → Life now peers me (cast ++ votes) r'
