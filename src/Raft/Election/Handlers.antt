-- ===== src/Raft/Election/Handlers.antt =====
-- The effects of `doElection`, `RequestVote` and `sendRequestVote` (raftCore/raft.cpp).
use kv_raft_storage.Common.{
  ℕ, ◌≤◌, ◌<◌, ◌≡◌, refl, sym, ap, ◌∙◌, ◌⊎◌, inl, inr, List, [], ◌∷◌, some, arith, false, ltb,
  my_assert_pass, eq→==, if◌then◌else◌, Bool-cases, dec_lt, le→not-ltb, lt→ltb,
}
use kv_raft_storage.Raft.State.{Archive, Raft, RequestVoteArgs, RequestVoteReply, expire}
use kv_raft_storage.Raft.Log.{persist_data, persist, up_to_date}
use kv_raft_storage.Raft.Vote.{
  is_leader, voted_other, step_down, do_election, decide_vote, request_vote, handle_vote_reply,
  become_leader,
}
use kv_raft_storage.Raft.Election.{Vote, reply_votes, own_vote}
use kv_raft_storage.Raft.Election.Effect.{Effect, quiet, saved}
use kv_raft_storage.Raft.Election.Frame.{SameVote}

module _ {F : Type 0} ⦃ar : Archive F⦄ where
  pub SameVote-quiet :
      (r r' : Raft F) (votes : List Vote) → votes ≡ [] → SameVote r r' → Effect r votes r'
  SameVote-quiet r r' votes e s = quiet e s.file s.term s.vote

  -- A handler that persists and keeps the term and the vote.
  pub persisted :
      (r r' : Raft F) (votes : List Vote)
      → votes ≡ []
      → ar.load r'.raft_file ≡ some (persist_data r')
      → r'.current_term ≡ r.current_term
      → r'.voted_for ≡ r.voted_for
      → Effect r votes r'
  persisted r r' votes e file term vote = saved file (omega arith) (λ c _ has. vote ∙ has) (inl e)

  pub load-persist : (r : Raft F) → ar.load (persist r).raft_file ≡ some (persist_data (persist r))
  unfolding persist
  load-persist r = ar.load-dump (persist_data r)

  pub elects-Effect : (now : ℕ) (r : Raft F) → Effect r (own_vote r) (do_election now r).0
  unfolding do_election
  elects-Effect now r = elim (Bool-cases (is_leader r.status)) [
    | inl leads ↦ rw leads (quiet refl refl refl refl)
    | inr other ↦ rw other (
        saved (ar.load-dump _) (omega arith) (λ c e. absurd (omega arith))
          (inr (r.me, ap (λ t. record { term = t; candidate = r.me } ∷ []) (omega arith), refl)))
  ]

  -- A node that persists after a step down has saved the later term.
  pub stepped :
      (r r' : Raft F) (term : ℕ) (votes : List Vote)
      → votes ≡ []
      → r.current_term < term
      → r'.current_term ≡ term
      → ar.load r'.raft_file ≡ some (persist_data r')
      → Effect r votes r'
  stepped r r' term votes e lt same file =
      saved file (omega arith) (λ c at. absurd (omega arith)) (inl e)

  counts_vote-cases :
      (reply : RequestVoteReply) (r : Raft F) (n : ℕ) {r' : Raft F} {m : ℕ}
      → handle_vote_reply reply (r, n) ≡ some (r', m)
      → (r' ≡ r)
        ⊎ (((r.current_term < reply.term) × (r' ≡ persist (step_down r reply.term)))
            ⊎ (r' ≡ become_leader r))
  unfolding handle_vote_reply
  counts_vote-cases reply r n h = ground arith

  pub become_leader-Effect : (r : Raft F) → Effect r [] (become_leader r)
  unfolding become_leader
  become_leader-Effect r = persisted r (become_leader r) [] refl (ar.load-dump _) refl refl

  pub step_down-Effect :
      (r : Raft F) (term : ℕ) → r.current_term < term → Effect r [] (persist (step_down r term))
  unfolding persist step_down
  step_down-Effect r term lt =
      stepped r (persist (step_down r term)) term [] refl lt refl (ar.load-dump _)

  pub counts_vote-Effect :
      (reply : RequestVoteReply) (r : Raft F) (n : ℕ) {r' : Raft F} {m : ℕ}
      → handle_vote_reply reply (r, n) ≡ some (r', m)
      → Effect r [] r'
  counts_vote-Effect reply r n h = elim (counts_vote-cases reply r n h) [
    | inl same ↦ rw same (quiet refl refl refl refl)
    | inr (inl (lt, down)) ↦ rw down (step_down-Effect r reply.term lt)
    | inr (inr won) ↦ rw won (become_leader-Effect r)
  ]

  pub decide_vote-Effect :
      (now : ℕ) (args : RequestVoteArgs) (r s : Raft F)
      → s.current_term ≡ args.term
      → r.current_term ≤ s.current_term
      → ((c : ℕ) → s.current_term ≡ r.current_term → r.voted_for ≡ some c → s.voted_for ≡ some c)
      → Effect r (reply_votes args (decide_vote now args s).1) (persist (decide_vote now args s).0)
  unfolding decide_vote persist
  decide_vote-Effect now args r s at le keep =
      elim (Bool-cases (up_to_date s args.last_log_index args.last_log_term)) [
        | inr old ↦ rw old (saved (ar.load-dump _) le keep (inl refl))
        | inl fresh ↦ elim (Bool-cases (voted_other s.voted_for args.candidate_id)) [
          | inl other ↦ rw (fresh, other) (saved (ar.load-dump _) le keep (inl refl))
          | inr free ↦
              rw (fresh, free)
                (saved (ar.load-dump _) le (λ c same has. ground (arith, keep c same has))
                  (inr (args.candidate_id, refl, refl)))
        ]
      ]

  -- The node when the candidate's term has been taken over.
  abbrev pub arrived : RequestVoteArgs → Raft F → Raft F
  arrived args r = if ltb r.current_term args.term then step_down r args.term else r

  arrived-term :
      (args : RequestVoteArgs) (r : Raft F)
      → r.current_term ≤ args.term
      → (arrived args r).current_term ≡ args.term
  unfolding step_down
  arrived-term args r h = ground arith

  arrived-keeps :
      (args : RequestVoteArgs) (r : Raft F) (c : ℕ)
      → r.current_term ≤ args.term
      → (arrived args r).current_term ≡ r.current_term
      → r.voted_for ≡ some c
      → (arrived args r).voted_for ≡ some c
  unfolding step_down
  arrived-keeps args r c h same has = ground arith

  pub request_vote-stale :
      (now : ℕ) (args : RequestVoteArgs) (r : Raft F)
      → args.term < r.current_term
      → request_vote now args r
        ≡ some
            (persist r, record { term = r.current_term; vote_state = expire; vote_granted = false })
  unfolding request_vote
  request_vote-stale now args r h = rw (lt→ltb _ _ h)

  pub request_vote-decided :
      (now : ℕ) (args : RequestVoteArgs) (r : Raft F)
      → r.current_term ≤ args.term
      → request_vote now args r
        ≡ some (
          persist (decide_vote now args (arrived args r)).0,
          (decide_vote now args (arrived args r)).1,
        )
  unfolding request_vote
  request_vote-decided now args r h =
      rw (le→not-ltb _ _ h) (my_assert_pass _ _ (eq→== _ _ (sym (arrived-term args r h))))

  pub answers_vote-Effect :
      (now : ℕ) (args : RequestVoteArgs) (r : Raft F) {r' : Raft F} {reply : RequestVoteReply}
      → request_vote now args r ≡ some (r', reply)
      → Effect r (reply_votes args reply) r'
  unfolding persist
  answers_vote-Effect now args r {r'} {reply} h = elim (dec_lt args.term r.current_term) [
    | yes stale ↦
        let result = request_vote-stale now args r stale in
        let out : persist r ≡ r' = cc in
        let refused : record { term = r.current_term; vote_state = expire; vote_granted = false }
            ≡ reply =
          cc in
        rw (← out, ← refused) (persisted r (persist r) [] refl (load-persist r) refl refl)
    | no fresh ↦
        let le : r.current_term ≤ args.term = omega arith in
        let at = arrived-term args r le in
        let effect =
          decide_vote-Effect now args r (arrived args r) at (omega (arith, at))
            (λ c same has. arrived-keeps args r c le same has) in
        let result = request_vote-decided now args r le in
        let out : persist (decide_vote now args (arrived args r)).0 ≡ r' = cc in
        let answer : (decide_vote now args (arrived args r)).1 ≡ reply = cc in
        rw (← out, ← answer) effect
  ]
