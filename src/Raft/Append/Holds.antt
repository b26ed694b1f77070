-- ===== src/Raft/Append/Holds.antt =====
-- The follower's log after a reply of `AppendEntries1` (raftCore/raft.cpp) that says success.
use kv_raft_storage.Common.{
  ℕ, ◌+◌, ◌-◌, ◌≤◌, ◌<◌, ◌≡◌, refl, ap, ◌∙◌, sym, some, true, max, arith, length, inl, inr,
  Bool-cases, get_elem?-lt, dec_lt, Option, ltb, get_elem?,
}
use kv_raft_storage.Raft.State.{LogEntry, Raft, Archive, AppendEntriesArgs, AppendEntriesReply}
use kv_raft_storage.Raft.Log.{get_last_log_index, entry_at, get_log_term, persist}
use kv_raft_storage.Raft.Vote.{step_down}
use kv_raft_storage.Raft.Contiguous.{Contiguous}
use kv_raft_storage.Raft.Invariant.{IsWf, entry_at-eq}
use kv_raft_storage.Raft.Append.{follow_commit, rejected, append_entries}
use kv_raft_storage.Raft.Append.Overlay.{
  overlay, overlay-Contiguous, length-overlay, overlay-new, overlay-before,
}
use kv_raft_storage.Raft.Append.Total.{
  Fits, after_accept, Checked, ahead, behind, conflict, matched, append_checked-Checked,
}
use kv_raft_storage.Raft.Append.Entered.{
  entered, entered-IsWf, entered-Fits, append_entries-stale, append_entries-entered,
}
use kv_raft_storage.Raft.Append.Success.{Checked-IsWf}

module _ {F : Type 0} where
  -- `out` holds every entry of the message at its index, and what `r` had up to `prev_log_index`.
  pub record Holds (args : AppendEntriesArgs) (r out : Raft F) : Type 0 where
    pub prev_matches : get_log_term r args.prev_log_index ≡ some args.prev_log_term
    pub holds :
        (i : ℕ) (e : LogEntry)
        → get_elem? args.entries i ≡ some e
        → entry_at out (args.prev_log_index + i + 1) ≡ some e
    pub keeps :
        (j : ℕ)
        → r.last_snapshot_index < j
        → j ≤ args.prev_log_index
        → entry_at out j ≡ entry_at r j

  entry_at-follow_commit :
      (leader_commit j : ℕ) (r : Raft F) → entry_at (follow_commit leader_commit r) j ≡ entry_at r j
  unfolding follow_commit entry_at get_last_log_index
  entry_at-follow_commit leader_commit j r = elim (Bool-cases (ltb r.commit_index leader_commit)) [
    | inl news ↦ rw news
    | inr old ↦ rw old
  ]

  after_accept-Holds :
      (args : AppendEntriesArgs) (r : Raft F)
      → IsWf r
      → Fits args r
      → r.last_snapshot_index ≤ args.prev_log_index
      → args.prev_log_index ≤ r.last_snapshot_index + length r.logs
      → get_log_term r args.prev_log_index ≡ some args.prev_log_term
      → Holds args r (after_accept args r)
  after_accept-Holds args r w f lo hi found = record {
    prev_matches = found;
    holds = λ i e h.
        entry_at-follow_commit args.leader_commit (args.prev_log_index + i + 1) filled
        ∙ entry_at-eq filled contiguous (args.prev_log_index + i + 1) (omega arith)
            (omega (arith, longer, get_elem?-lt args.entries i h))
        ∙ ap (λ k. get_elem? filled.logs k) (place i)
        ∙ overlay-new r.last_snapshot_index p args.prev_log_index i r.logs args.entries w.contiguous
            f.follows (omega arith) (omega arith) f.agrees h;
    keeps = λ j after before.
        entry_at-follow_commit args.leader_commit j filled
        ∙ entry_at-eq filled contiguous j after (omega (arith, longer))
        ∙ overlay-before p (j - r.last_snapshot_index - 1) r.logs args.entries (omega arith)
        ∙ sym (entry_at-eq r w.contiguous j after (omega arith));
  }
    where
      p : ℕ
      p = args.prev_log_index - r.last_snapshot_index

      filled : Raft F
      filled = record r { logs = overlay p r.logs args.entries }

      place : (i : ℕ) → args.prev_log_index + i + 1 - r.last_snapshot_index - 1 ≡ p + i
      place i = omega arith

      contiguous : Contiguous r.last_snapshot_index (overlay p r.logs args.entries)
      contiguous =
          overlay-Contiguous r.last_snapshot_index p args.prev_log_index r.logs args.entries
            w.contiguous f.follows (omega arith) (omega arith)

      longer :
          length (overlay p r.logs args.entries) ≡ max (length r.logs) (p + length args.entries)
      longer = length-overlay p r.logs args.entries (omega arith)

  Checked-Holds :
      (args : AppendEntriesArgs) (r out : Raft F) (reply : AppendEntriesReply)
      {o : Option (Raft F × AppendEntriesReply)}
      → IsWf r
      → Fits args r
      → Checked args r o
      → o ≡ some (out, reply)
      → reply.success ≡ true
      → Holds args r out
  unfolding rejected
  Checked-Holds args r out reply w f (ahead h) e s = ground arith
  Checked-Holds args r out reply w f (behind h) e s = ground arith
  Checked-Holds args r out reply w f (conflict t hint found ne is_hint) e s = ground arith
  Checked-Holds args r out reply w f (matched lo hi found) e s =
      let same : after_accept args r ≡ out = cc in
      rw (← same) (after_accept-Holds args r w f lo hi found)

  entered-reads :
      (args : AppendEntriesArgs) (now : ℕ) (r : Raft F)
      → ((j : ℕ) → entry_at (entered args now r) j ≡ entry_at r j)
        × ((j : ℕ) → get_log_term (entered args now r) j ≡ get_log_term r j)
        × ((entered args now r).last_snapshot_index ≡ r.last_snapshot_index)
  unfolding step_down entry_at get_log_term get_last_log_index
  entered-reads args now r = elim (Bool-cases (ltb r.current_term args.term)) [
    | inl later ↦ rw later ((λ j. refl), (λ j. refl), refl)
    | inr same ↦ rw same ((λ j. refl), (λ j. refl), refl)
  ]

  entered-Holds :
      (args : AppendEntriesArgs) (now : ℕ) (r out : Raft F)
      → Holds args (entered args now r) out
      → Holds args r out
  entered-Holds args now r out h =
      let (entry, term, snap) = entered-reads args now r in
      record {
        prev_matches = sym (term args.prev_log_index) ∙ h.prev_matches;
        holds = h.holds;
        keeps = λ j after before. h.keeps j (rw snap after) before ∙ entry j;
      }

  module _ ⦃ar : Archive F⦄ where
    persist-Holds :
        (args : AppendEntriesArgs) (r out : Raft F) → Holds args r out → Holds args r (persist out)
    unfolding persist entry_at get_last_log_index
    persist-Holds args r out h = record {
      prev_matches = h.prev_matches;
      holds = h.holds;
      keeps = h.keeps;
    }

    -- On a well-formed node and for a message that follows and agrees, a reply that says success
    -- means: the log had `prevlogterm` at `prevlogindex`; now it holds every entry of the message
    -- at its index (index, term and command); and what stood up to `prevlogindex` still stands.
    pub append_entries-Holds :
        (now : ℕ) (args : AppendEntriesArgs) (r out : Raft F) (reply : AppendEntriesReply)
        → IsWf r
        → Fits args r
        → append_entries now args r ≡ some (out, reply)
        → reply.success ≡ true
        → Holds args r out
    unfolding rejected
    append_entries-Holds now args r out reply w f e s = elim (dec_lt args.term r.current_term) [
      | yes stale ↦ ground (arith, append_entries-stale args now r stale)
      | no h ↦
          let w' = entered-IsWf args now w in
          let f' = entered-Fits args now f in
          let c = append_checked-Checked args (entered args now r) w' f' in
          let (out', reply', e', wf) = Checked-IsWf args (entered args now r) w' f' c in
          let result = append_entries-entered args now r (omega arith) e' in
          let reply_eq : reply' ≡ reply = cc in
          let out_eq : persist out' ≡ out = cc in
          rw (← out_eq) (
            persist-Holds args r out' (
              entered-Holds args now r out' (
                Checked-Holds args (entered args now r) out' reply' w' f' c e'
                  (ap (λ (a : AppendEntriesReply). a.success) reply_eq ∙ s))))
    ]
