-- ===== src/Raft/Append/Success.antt =====
-- The ways in which `AppendEntries1` (raftCore/raft.cpp) returns, on a well-formed node.
use kv_raft_storage.Common.{
  ℕ, ◌+◌, ◌-◌, ◌≤◌, ◌<◌, ◌≡◌, refl, some, none, max, arith, length, inl, inr, Bool-cases, dec_lt,
  Option, ltb, ◌⊎◌,
}
use kv_raft_storage.Raft.State.{Raft, Archive, AppendEntriesArgs, AppendEntriesReply}
use kv_raft_storage.Raft.Log.{get_last_log_index, persist}
use kv_raft_storage.Raft.Contiguous.{Contiguous}
use kv_raft_storage.Raft.Invariant.{IsWf, get_last_log_index-eq}
use kv_raft_storage.Raft.Append.{follow_commit, rejected, append_entries}
use kv_raft_storage.Raft.Append.Overlay.{overlay, overlay-Contiguous, length-overlay}
use kv_raft_storage.Raft.Append.Total.{
  Fits, after_accept, Checked, ahead, behind, conflict, matched, append_checked-Checked,
}
use kv_raft_storage.Raft.Append.Entered.{
  entered, entered-IsWf, entered-Fits, append_entries-stale, append_entries-entered,
}

module _ {F : Type 0} where
  persist-IsWf : ⦃ar : Archive F⦄ {r : Raft F} → IsWf r → IsWf (persist r)
  unfolding persist
  persist-IsWf w = assumption

  after_accept-IsWf :
      (args : AppendEntriesArgs) (r : Raft F)
      → IsWf r
      → Fits args r
      → r.last_snapshot_index ≤ args.prev_log_index
      → args.prev_log_index ≤ r.last_snapshot_index + length r.logs
      → IsWf (after_accept args r)
  unfolding follow_commit
  after_accept-IsWf args r w f lo hi = elim (Bool-cases (ltb r.commit_index args.leader_commit)) [
    | inl news ↦ rw news (record {
      contiguous = contiguous;
      commit_in_log = omega (arith, last, longer);
      applied_past_snapshot = w.applied_past_snapshot;
      applied_in_log = omega (arith, w.applied_in_log, longer);
      me_is_peer = w.me_is_peer;
      next_sized = w.next_sized;
      match_sized = w.match_sized;
    })
    | inr old ↦ rw old (record {
      contiguous = contiguous;
      commit_in_log = omega (arith, w.commit_in_log, longer);
      applied_past_snapshot = w.applied_past_snapshot;
      applied_in_log = omega (arith, w.applied_in_log, longer);
      me_is_peer = w.me_is_peer;
      next_sized = w.next_sized;
      match_sized = w.match_sized;
    })
  ]
    where
      p : ℕ
      p = args.prev_log_index - r.last_snapshot_index

      contiguous : Contiguous r.last_snapshot_index (overlay p r.logs args.entries)
      contiguous =
          overlay-Contiguous r.last_snapshot_index p args.prev_log_index r.logs args.entries
            w.contiguous f.follows (omega arith) (omega arith)

      longer :
          length (overlay p r.logs args.entries) ≡ max (length r.logs) (p + length args.entries)
      longer = length-overlay p r.logs args.entries (omega arith)

      last :
          get_last_log_index (record r { logs = overlay p r.logs args.entries })
          ≡ r.last_snapshot_index + length (overlay p r.logs args.entries)
      last = get_last_log_index-eq (record r { logs = overlay p r.logs args.entries }) contiguous

  pub Checked-IsWf :
      (args : AppendEntriesArgs) (r : Raft F) {o : Option (Raft F × AppendEntriesReply)}
      → IsWf r
      → Fits args r
      → Checked args r o
      → (out : Raft F) × (reply : AppendEntriesReply) × (o ≡ some (out, reply)) × IsWf out
  Checked-IsWf args r w f (ahead h) = (_, _, refl, w)
  Checked-IsWf args r w f (behind h) = (_, _, refl, w)
  Checked-IsWf args r w f (conflict t hint found ne is_hint) = (_, _, refl, w)
  Checked-IsWf args r w f (matched lo hi found) = (_, _, refl, after_accept-IsWf args r w f lo hi)

  module _ ⦃ar : Archive F⦄ where
    -- On a well-formed node, for a message whose entries follow its `prevlogindex` and agree in
    -- command with the node's entries of the same index and term, `AppendEntries1` returns: no
    -- assert ends the process and no read is out of range, and the node stays well formed.
    pub append_entries-IsWf :
        (now : ℕ) (args : AppendEntriesArgs) (r : Raft F)
        → IsWf r
        → Fits args r
        → (out : Raft F) × (reply : AppendEntriesReply) × (append_entries now args r
            ≡ some (out, reply))
          × IsWf out
    append_entries-IsWf now args r w f = elim (dec_lt args.term r.current_term) [
      | yes stale ↦ (r, rejected r none, append_entries-stale args now r stale, w)
      | no h ↦
          let w' = entered-IsWf args now w in
          let f' = entered-Fits args now f in
          let (out, reply, e, wf) =
            Checked-IsWf args (entered args now r) w' f'
              (append_checked-Checked args (entered args now r) w' f') in
          (persist out, reply, append_entries-entered args now r (omega arith) e, persist-IsWf wf)
    ]

    -- The ways that a return of the handler comes about.
    pub append_entries-cases :
        (now : ℕ) (args : AppendEntriesArgs) (r out : Raft F) (reply : AppendEntriesReply)
        → IsWf r
        → Fits args r
        → append_entries now args r ≡ some (out, reply)
        → ((args.term < r.current_term) × (out ≡ r) × (reply ≡ rejected r none))
          ⊎ ((out' : Raft F) × (r.current_term ≤ args.term)
              × (out ≡ persist out')
              × Checked args (entered args now r) (some (out', reply)))
    append_entries-cases now args r out reply w f e = elim (dec_lt args.term r.current_term) [
      | yes stale ↦ let h = append_entries-stale args now r stale in inl (stale, (cc), cc)
      | no h ↦
          let w' = entered-IsWf args now w in
          let f' = entered-Fits args now f in
          let c = append_checked-Checked args (entered args now r) w' f' in
          let (out', reply', e', wf) = Checked-IsWf args (entered args now r) w' f' c in
          let result = append_entries-entered args now r (omega arith) e' in
          let same : reply' ≡ reply = cc in inr (out', omega arith, (cc), rw (← same) (rw e' at c))
    ]
