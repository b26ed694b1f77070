-- ===== src/Raft/Election/Grant.antt =====
-- The decision of `RequestVote` (raftCore/raft.cpp).
use kv_raft_storage.Common.{
  ℕ, ◌≤◌, ◌<◌, ◌≡◌, sym, ◌∙◌, ◌⊎◌, ◌↔◌, inl, inr, none, some, arith, true, false, Bool-cases,
  dec_lt, ltb,
}
use kv_raft_storage.Raft.State.{Archive, Raft, RequestVoteArgs, RequestVoteReply}
use kv_raft_storage.Raft.Log.{get_last_log_index, get_last_log_term, up_to_date}
use kv_raft_storage.Raft.Vote.{voted_other, step_down, decide_vote, request_vote}
use kv_raft_storage.Raft.Election.Handlers.{arrived, request_vote-stale, request_vote-decided}

module _ {F : Type 0} where
  -- The candidate's log is at least as new: a later last term, or the same and no shorter.
  abbrev pub NoOlder : RequestVoteArgs → Raft F → Type 0
  NoOlder args r =
      (get_last_log_term r < args.last_log_term)
      ⊎ ((args.last_log_term ≡ get_last_log_term r) × (get_last_log_index r ≤ args.last_log_index))

  -- No vote yet in the candidate's term, or the vote is the candidate's.
  abbrev pub IsFree : RequestVoteArgs → Raft F → Type 0
  IsFree args r =
      (r.current_term < args.term) ⊎ ((r.voted_for ≡ none) ⊎ (r.voted_for ≡ some args.candidate_id))

  up_to_date_iff :
      (args : RequestVoteArgs) (r : Raft F)
      → (up_to_date r args.last_log_index args.last_log_term ≡ true) ↔ NoOlder args r
  unfolding up_to_date
  up_to_date_iff args r = ground arith

  module _ ⦃ar : Archive F⦄ where
    decide_vote-granted :
        (now : ℕ) (args : RequestVoteArgs) (s : Raft F)
        → ((decide_vote now args s).1.vote_granted ≡ true) ↔ (
            (up_to_date s args.last_log_index args.last_log_term ≡ true)
            × (voted_other s.voted_for args.candidate_id ≡ false))
    unfolding decide_vote
    decide_vote-granted now args s = ground arith

    arrived-log :
        (args : RequestVoteArgs) (r : Raft F)
        → up_to_date (arrived args r) args.last_log_index args.last_log_term
          ≡ up_to_date r args.last_log_index args.last_log_term
    unfolding step_down up_to_date get_last_log_index get_last_log_term
    arrived-log args r = elim (Bool-cases (ltb r.current_term args.term)) [
      | inl later ↦ rw later
      | inr same ↦ rw same
    ]

    IsFree-iff :
        (args : RequestVoteArgs) (r : Raft F)
        → (voted_other (arrived args r).voted_for args.candidate_id ≡ false) ↔ IsFree args r
    unfolding step_down
    IsFree-iff args r = ground arith

  module _ ⦃ar : Archive F⦄ (now : ℕ) (args : RequestVoteArgs) (r out : Raft F)
      (reply : RequestVoteReply) (e : request_vote now args r ≡ some (out, reply)) where
    -- `RequestVote` grants its vote exactly if the candidate's term is not stale, its log is at
    -- least as new as the node's, and the node has not voted for another in that term.
    pub request_vote-granted_iff :
        (reply.vote_granted ≡ true)
        ↔ ((r.current_term ≤ args.term) × NoOlder args r × IsFree args r)
    request_vote-granted_iff = elim (dec_lt args.term r.current_term) [
      | yes stale ↦
          let refused = request_vote-stale now args r stale in
          ((λ granted. ground arith), λ h. absurd (omega arith))
      | no fresh ↦
          let le : r.current_term ≤ args.term = omega arith in
          let decided = request_vote-decided now args r le in
          let answer : (decide_vote now args (arrived args r)).1 ≡ reply = cc in
          let granted = rw answer at (decide_vote-granted now args (arrived args r)) in
          (
            (λ g.
                let (fresh_log, free) = granted.0 g in
                (
                  le,
                  (up_to_date_iff args r).0 (sym (arrived-log args r) ∙ fresh_log),
                  (IsFree-iff args r).0 free,
                )),
            λ h.
                granted.1
                  (arrived-log args r ∙ (up_to_date_iff args r).1 h.1, (IsFree-iff args r).1 h.2),
          )
    ]
