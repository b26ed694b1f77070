-- ===== src/Raft/Election/Frame.antt =====
-- The parts of the handlers of raftCore/raft.cpp that touch only the log and the indices.
use kv_raft_storage.Common.{
  my_assert-inv, ◌-◌, ℕ, zero, suc, ◌≡◌, refl, ◌∙◌, List, [], ◌∷◌, some, arith, >>=-eq-some,
}
use kv_raft_storage.Raft.State.{LogEntry, Raft, AppendEntriesArgs, AppendEntriesReply, ApplyMsg}
use kv_raft_storage.Raft.Append.{
  store_entry, store_entries, follow_commit, accept_entries, append_checked,
}
use kv_raft_storage.Raft.Snapshot.{get_apply_logs, apply_next, apply_loop}
use kv_raft_storage.Raft.Leader.{note_success, commit_sent}

module _ {F : Type 0} where
  -- The parts that a handler leaves alone if it only touches the log and the indices.
  pub record SameVote (r r' : Raft F) : Type 0 where
    pub file : r'.raft_file ≡ r.raft_file
    pub term : r'.current_term ≡ r.current_term
    pub vote : r'.voted_for ≡ r.voted_for

  pub SameVote-refl : (r : Raft F) → SameVote r r
  SameVote-refl r = record { file = refl; term = refl; vote = refl }

  pub SameVote-trans : {r s t : Raft F} → SameVote r s → SameVote s t → SameVote r t
  SameVote-trans a b = record {
    file = b.file ∙ a.file;
    term = b.term ∙ a.term;
    vote = b.vote ∙ a.vote;
  }

  pub store_entry-SameVote :
      (e : LogEntry) (r : Raft F) {r' : Raft F} → store_entry e r ≡ some r' → SameVote r r'
  unfolding store_entry
  store_entry-SameVote e r h = ground arith

  pub store_entries-SameVote :
      (es : List LogEntry) (r : Raft F) {r' : Raft F} → store_entries es r ≡ some r' → SameVote r r'
  unfolding store_entries
  store_entries-SameVote [] r h = ground arith
  store_entries-SameVote (e ∷ es) r h =
      let (s, first, rest) = >>=-eq-some (store_entry e r) (store_entries es) h in
      SameVote-trans (store_entry-SameVote e r first) (store_entries-SameVote es s rest)

  pub follow_commit-SameVote : (n : ℕ) (r : Raft F) → SameVote r (follow_commit n r)
  unfolding follow_commit
  follow_commit-SameVote n r = ground arith

  pub accept_entries-SameVote :
      (args : AppendEntriesArgs) (r : Raft F) {r' : Raft F} {reply : AppendEntriesReply}
      → accept_entries args r ≡ some (r', reply)
      → SameVote r r'
  unfolding accept_entries
  accept_entries-SameVote args r {r'} h =
      let (s, first, rest) = >>=-eq-some (store_entries args.entries r) _ h in
      let committed : SameVote s r' = ground (arith, follow_commit-SameVote args.leader_commit s) in
      SameVote-trans (store_entries-SameVote args.entries r first) committed

  pub append_checked-SameVote :
      (args : AppendEntriesArgs) (r : Raft F) {r' : Raft F} {reply : AppendEntriesReply}
      → append_checked args r ≡ some (r', reply)
      → SameVote r r'
  unfolding append_checked
  append_checked-SameVote args r {r'} {reply} h =
      ground (arith, accept_entries-SameVote args r {r' = r'} {reply = reply})

  pub apply_next-SameVote :
      (r : Raft F) {r' : Raft F} {m : ApplyMsg} → apply_next r ≡ some (r', m) → SameVote r r'
  unfolding apply_next
  apply_next-SameVote r h = ground arith

  pub apply_loop-SameVote :
      (n : ℕ) (r : Raft F) {r' : Raft F} {ms : List ApplyMsg}
      → apply_loop n r ≡ some (r', ms)
      → SameVote r r'
  unfolding apply_loop
  apply_loop-SameVote zero r h = ground arith
  apply_loop-SameVote (suc n) r h =
      let ((s, m), first, rest) = >>=-eq-some (apply_next r) _ h in
      let ((t, ms'), loop, done) = >>=-eq-some (apply_loop n s) _ rest in
      let last : SameVote s t = apply_loop-SameVote n s loop in
      ground (arith, apply_next-SameVote r first, last)

  pub note_success-SameVote :
      (server : ℕ) (args : AppendEntriesArgs) (r : Raft F) (n : ℕ) {r' : Raft F} {m : ℕ}
      → note_success server args r n ≡ some (r', m)
      → SameVote r r'
  unfolding note_success commit_sent
  note_success-SameVote server args r n h = ground arith

  pub get_apply_logs-SameVote :
      (r : Raft F) {r' : Raft F} {ms : List ApplyMsg}
      → get_apply_logs r ≡ some (r', ms)
      → SameVote r r'
  unfolding get_apply_logs
  get_apply_logs-SameVote r h =
      apply_loop-SameVote (r.commit_index - r.last_applied) r (my_assert-inv _ h)
