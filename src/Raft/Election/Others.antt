-- ===== src/Raft/Election/Others.antt =====
-- The effects of the other handlers of raftCore/raft.cpp, and of a restart.
use kv_raft_storage.Raft.Election.Installs.{answers_install-Effect}
use kv_raft_storage.Common.{
  ℕ, ◌+◌, ◌-◌, ◌≤◌, ◌<◌, ◌≡◌, refl, sym, ◌∙◌, ◌⊎◌, inl, inr, List, [], some, Bytes, arith, ltb, leb,
  not, Bool-cases, ◌==◌, dec_lt, some_inj, >>=-eq-some, my_assert-inv, ◌||◌, le→not-ltb, lt→ltb,
}
use kv_raft_storage.Raft.State.{
  Archive, Raft, AppendEntriesArgs, AppendEntriesReply, InstallSnapshotRequest,
}
use kv_raft_storage.Raft.Log.{persist, entry_at, get_last_log_index}
use kv_raft_storage.Raft.Vote.{is_leader, step_down}
use kv_raft_storage.Raft.Append.{append_checked, append_entries}
use kv_raft_storage.Raft.Snapshot.{get_apply_logs, applier_round, copy_logs, take_snapshot, init}
use kv_raft_storage.Raft.Leader.{
  Send, do_heartbeat, handle_append_reply, handle_snapshot_reply, start,
}
use kv_raft_storage.Raft.Election.{
  Vote, Step, elects, answers_vote, counts_vote, answers_append, answers_install, beats,
  counts_append, counts_install, starts, snapshots, applies, restarts,
}
use kv_raft_storage.Raft.Election.Effect.{Effect, quiet, later, saved, restarted}
use kv_raft_storage.Raft.Append.Entered.{
  entered, entered-term, append_entries-stale, append_entries-bind,
}
use kv_raft_storage.Raft.Election.Frame.{
  SameVote, append_checked-SameVote, get_apply_logs-SameVote, note_success-SameVote,
}
use kv_raft_storage.Raft.Election.Handlers.{
  SameVote-quiet, persisted, stepped, load-persist, elects-Effect, answers_vote-Effect,
  counts_vote-Effect,
}

module _ {F : Type 0} ⦃ar : Archive F⦄ where
  entered-keeps :
      (args : AppendEntriesArgs) (now : ℕ) (r : Raft F) (c : ℕ)
      → (entered args now r).current_term ≡ r.current_term
      → r.voted_for ≡ some c
      → (entered args now r).voted_for ≡ some c
  unfolding step_down
  entered-keeps args now r c same has = ground arith

  pub answers_append-Effect :
      (now : ℕ) (args : AppendEntriesArgs) (r : Raft F) {r' : Raft F} {reply : AppendEntriesReply}
      → append_entries now args r ≡ some (r', reply)
      → Effect r [] r'
  answers_append-Effect now args r {r'} {reply} h = elim (dec_lt args.term r.current_term) [
    | yes stale ↦
        let result = append_entries-stale args now r stale in
        let out : r ≡ r' = cc in rw (← out) (quiet refl refl refl refl)
    | no fresh ↦
        let le : r.current_term ≤ args.term = omega arith in
        let (out, checked, done) =
          >>=-eq-some (append_checked args (entered args now r)) _
            (sym (append_entries-bind args now r le) ∙ h) in
        let same : SameVote (entered args now r) out.0 =
          append_checked-SameVote args (entered args now r) checked in
        let at = entered-term args now r le in
        let end : persist out.0 ≡ r' = cc in
        rw (← end) (
          saved (load-persist out.0) (unfold persist in omega (arith, same.term, at))
            (unfold persist in
              λ c t has. same.vote ∙ entered-keeps args now r c (omega (arith, same.term, t)) has)
            (inl refl))
  ]

  pub beats-Effect :
      (now : ℕ) (r : Raft F) {r' : Raft F} {sends : List Send}
      → do_heartbeat now r ≡ some (r', sends)
      → Effect r [] r'
  unfolding do_heartbeat
  beats-Effect now r {r'} h =
      let same : SameVote r r' = ground arith in SameVote-quiet r r' [] refl same

  counts_append-cases :
      (server : ℕ) (args : AppendEntriesArgs) (reply : AppendEntriesReply) (r : Raft F) (n : ℕ)
      {r' : Raft F} {m : ℕ}
      → handle_append_reply server args reply r n ≡ some (r', m)
      → SameVote r r' ⊎ ((r.current_term < r'.current_term) × (r'.raft_file ≡ r.raft_file))
  unfolding handle_append_reply
  counts_append-cases server args reply r n {r'} {m} h =
      ground (arith, note_success-SameVote server args r n {r' = r'} {m = m})

  pub counts_append-Effect :
      (server : ℕ) (args : AppendEntriesArgs) (reply : AppendEntriesReply) (r : Raft F) (n : ℕ)
      {r' : Raft F} {m : ℕ}
      → handle_append_reply server args reply r n ≡ some (r', m)
      → Effect r [] r'
  counts_append-Effect server args reply r n {r'} h =
      elim (counts_append-cases server args reply r n h) [
        | inl same ↦ SameVote-quiet r r' [] refl same
        | inr (lt, file) ↦ later refl file lt
      ]

  pub counts_install-Effect :
      (now server reply_term : ℕ) (args : InstallSnapshotRequest) (r : Raft F)
      → Effect r [] (handle_snapshot_reply now server args reply_term r)
  unfolding handle_snapshot_reply
  counts_install-Effect now server reply_term args r =
      elim (Bool-cases (not (is_leader r.status) || not (r.current_term == args.term))) [
        | inl stale ↦ rw stale (quiet refl refl refl refl)
        | inr mine ↦ elim (dec_lt r.current_term reply_term) [
          | yes h ↦ rw (mine, lt→ltb _ _ h) (stepped r _ reply_term [] refl h refl (ar.load-dump _))
          | no h ↦
              rw (mine, le→not-ltb r.current_term reply_term (omega arith))
                (quiet refl refl refl refl)
        ]
      ]

  pub starts-Effect : (command : Bytes) (r : Raft F) → Effect r [] (start command r).0
  unfolding start
  starts-Effect command r = elim (Bool-cases (is_leader r.status)) [
    | inl leads ↦ rw leads (persisted r _ [] refl (ar.load-dump _) refl refl)
    | inr other ↦ rw other (quiet refl refl refl refl)
  ]

  pub snapshots-Effect :
      (index : ℕ) (snapshot : Bytes) (r : Raft F) {r' : Raft F}
      → take_snapshot index snapshot r ≡ some r'
      → Effect r [] r'
  unfolding take_snapshot
  snapshots-Effect index snapshot r {r'} h =
      elim (Bool-cases (leb index r.last_snapshot_index || ltb r.commit_index index)) [
        | inl refused ↦
            let same : r ≡ r' = some_inj (rw refused at h) in
            rw (← same) (quiet refl refl refl refl)
        | inr taken ↦
            let (e, _, behind) = >>=-eq-some (entry_at r index) _ (rw taken at h) in
            let (rest, _, done) =
              >>=-eq-some (copy_logs r (index + 1) (get_last_log_index r - index)) _ behind in
            let end = some_inj (my_assert-inv _ done) in
            rw (← end) (persisted r _ [] refl (ar.load-dump _) refl refl)
      ]

  pub applies-Effect : (r : Raft F) {r' : Raft F} → applier_round r ≡ some r' → Effect r [] r'
  unfolding applier_round
  applies-Effect r {r'} h =
      let ((s, ms), got, done) = >>=-eq-some (get_apply_logs r) _ h in
      let same = get_apply_logs-SameVote r got in
      let end = some_inj done in rw (← end) (quiet refl same.file same.term same.vote)

  pub restarts-Effect :
      (now : ℕ) (r : Raft F) → Effect r [] (init now r.peers r.me r.raft_file r.snapshot_file)
  unfolding init
  restarts-Effect now r = restarted refl (ground arith) (ground arith) (ground arith)

  pub Step-Effect : {r r' : Raft F} {votes : List Vote} → Step r votes r' → Effect r votes r'
  Step-Effect {r} (elects now e v) = rw (e, v) (elects-Effect now r)
  Step-Effect {r} (answers_vote now args reply e v) = rw v (answers_vote-Effect now args r e)
  Step-Effect {r} (counts_vote reply n m e v) = rw v (counts_vote-Effect reply r n e)
  Step-Effect {r} (answers_append now args reply e v) = rw v (answers_append-Effect now args r e)
  Step-Effect {r} (answers_install now args t e v) = rw v (answers_install-Effect now args r e)
  Step-Effect {r} (beats now sends e v) = rw v (beats-Effect now r e)
  Step-Effect {r} (counts_append server n m args reply e v) =
      rw v (counts_append-Effect server args reply r n e)
  Step-Effect {r} (counts_install now server t args e v) =
      rw (e, v) (counts_install-Effect now server t args r)
  Step-Effect {r} (starts command e v) = rw (e, v) (starts-Effect command r)
  Step-Effect {r} (snapshots index snapshot e v) = rw v (snapshots-Effect index snapshot r e)
  Step-Effect {r} (applies e v) = rw v (applies-Effect r e)
  Step-Effect {r} (restarts now e v) = rw (e, v) (restarts-Effect now r)
