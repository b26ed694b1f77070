-- ===== src/Raft/Append/Progress.antt =====
-- The term, the commit index and the length of the log across `AppendEntries1`
-- (raftCore/raft.cpp).
use kv_raft_storage.Common.{
  ℕ, ◌+◌, ◌-◌, ap, get_elem?, ◌≤◌, ◌≡◌, refl, ◌∙◌, some, max, arith, length, inl, inr, Bool-cases,
  Option, ltb,
}
use kv_raft_storage.Raft.State.{Raft, Archive, AppendEntriesArgs, AppendEntriesReply}
use kv_raft_storage.Raft.Log.{get_last_log_index, entry_at, get_log_term, persist}
use kv_raft_storage.Raft.Vote.{step_down}
use kv_raft_storage.Raft.Invariant.{IsWf, get_last_log_index-eq}
use kv_raft_storage.Raft.Append.{follow_commit, append_entries}
use kv_raft_storage.Raft.Append.Overlay.{
  overlay, overlay-Contiguous, length-overlay, overlay-behind,
}
use kv_raft_storage.Raft.Append.Total.{
  Fits, after_accept, Checked, ahead, behind, conflict, matched,
}
use kv_raft_storage.Raft.Append.Entered.{entered, entered-IsWf, entered-Fits, entered-term}
use kv_raft_storage.Raft.Append.Success.{append_entries-cases}

module _ {F : Type 0} where
  -- What only grows, and what stays: of the log, each entry behind those of the message.
  pub record Grows (args : AppendEntriesArgs) (r out : Raft F) : Type 0 where
    pub term : r.current_term ≤ out.current_term
    pub commit : r.commit_index ≤ out.commit_index
    pub log : r.last_snapshot_index + length r.logs ≤ out.last_snapshot_index + length out.logs
    pub applied : out.last_applied ≡ r.last_applied
    pub snapshot : out.last_snapshot_index ≡ r.last_snapshot_index
    pub behind_kept :
        (i : ℕ)
        → args.prev_log_index + length args.entries ≤ r.last_snapshot_index + i
        → get_elem? out.logs i ≡ get_elem? r.logs i

  after_accept-Grows :
      (args : AppendEntriesArgs) (r : Raft F)
      → IsWf r
      → Fits args r
      → r.last_snapshot_index ≤ args.prev_log_index
      → args.prev_log_index ≤ r.last_snapshot_index + length r.logs
      → Grows args r (after_accept args r)
  unfolding follow_commit
  after_accept-Grows args r w f lo hi = elim (Bool-cases (ltb r.commit_index args.leader_commit)) [
    | inl news ↦ rw news (record {
      term = omega arith;
      commit = ground (arith, last, longer, w.commit_in_log);
      log = omega (arith, longer);
      applied = refl;
      snapshot = refl;
      behind_kept = λ i h. overlay-behind p i r.logs args.entries (omega arith);
    })
    | inr old ↦ rw old (record {
      term = omega arith;
      commit = omega arith;
      log = omega (arith, longer);
      applied = refl;
      snapshot = refl;
      behind_kept = λ i h. overlay-behind p i r.logs args.entries (omega arith);
    })
  ]
    where
      p : ℕ
      p = args.prev_log_index - r.last_snapshot_index

      longer :
          length (overlay p r.logs args.entries) ≡ max (length r.logs) (p + length args.entries)
      longer = length-overlay p r.logs args.entries (omega arith)

      last :
          get_last_log_index (record r { logs = overlay p r.logs args.entries })
          ≡ r.last_snapshot_index + length (overlay p r.logs args.entries)
      last =
          get_last_log_index-eq (record r { logs = overlay p r.logs args.entries })
            (overlay-Contiguous r.last_snapshot_index p args.prev_log_index r.logs args.entries
              w.contiguous f.follows (omega arith) (omega arith))

  Grows-refl : (args : AppendEntriesArgs) (r : Raft F) → Grows args r r
  Grows-refl args r = record {
    term = omega arith;
    commit = omega arith;
    log = omega arith;
    applied = refl;
    snapshot = refl;
    behind_kept = λ i h. refl;
  }

  Checked-Grows :
      (args : AppendEntriesArgs) (r out : Raft F) (reply : AppendEntriesReply)
      {o : Option (Raft F × AppendEntriesReply)}
      → IsWf r
      → Fits args r
      → Checked args r o
      → o ≡ some (out, reply)
      → Grows args r out
  Checked-Grows args r out reply w f (ahead h) e =
      let s : r ≡ out = cc in rw (← s) (Grows-refl args r)
  Checked-Grows args r out reply w f (behind h) e =
      let s : r ≡ out = cc in rw (← s) (Grows-refl args r)
  Checked-Grows args r out reply w f (conflict t hint found ne is_hint) e =
      let s : r ≡ out = cc in rw (← s) (Grows-refl args r)
  Checked-Grows args r out reply w f (matched lo hi found) e =
      let s : after_accept args r ≡ out = cc in rw (← s) (after_accept-Grows args r w f lo hi)

  pub entered-fields :
      (args : AppendEntriesArgs) (now : ℕ) (r : Raft F)
      → ((entered args now r).logs ≡ r.logs)
        × ((entered args now r).last_snapshot_index ≡ r.last_snapshot_index)
        × ((entered args now r).commit_index ≡ r.commit_index)
        × ((entered args now r).last_applied ≡ r.last_applied)
        × ((j : ℕ) → get_log_term (entered args now r) j ≡ get_log_term r j)
  unfolding step_down get_log_term entry_at get_last_log_index
  entered-fields args now r = elim (Bool-cases (ltb r.current_term args.term)) [
    | inl later ↦ rw later (refl, refl, refl, refl, λ j. refl)
    | inr same ↦ rw same (refl, refl, refl, refl, λ j. refl)
  ]

  entered-Grows :
      (args : AppendEntriesArgs) (now : ℕ) (r out : Raft F)
      → r.current_term ≤ args.term
      → Grows args (entered args now r) out
      → Grows args r out
  entered-Grows args now r out h g =
      let (logs, snap, commit, applied, _) = entered-fields args now r in
      let longer : length (entered args now r).logs ≡ length r.logs = rw logs in
      record {
        term = omega (arith, g.term, entered-term args now r h);
        commit = omega (arith, g.commit, commit);
        log = omega (arith, g.log, longer, snap);
        applied = g.applied ∙ applied;
        snapshot = g.snapshot ∙ snap;
        behind_kept = λ i h. g.behind_kept i (omega (arith, snap)) ∙ ap (λ l. get_elem? l i) logs;
      }

  module _ ⦃ar : Archive F⦄ where
    persist-Grows :
        (args : AppendEntriesArgs) (r out : Raft F) → Grows args r out → Grows args r (persist out)
    unfolding persist
    persist-Grows args r out g = assumption

    -- A return of `AppendEntries1` on a well-formed node, for a message that follows and agrees,
    -- never lowers the term, the commit index or the index of the last entry, leaves
    -- `lastApplied` and the snapshot's index alone, and keeps each entry of the log behind those of
    -- the message: an entry that conflicts does not truncate the log, where the comment at
    -- raft.cpp:61 and the interview guide say that it does.
    pub append_entries-Grows :
        (now : ℕ) (args : AppendEntriesArgs) (r out : Raft F) (reply : AppendEntriesReply)
        → IsWf r
        → Fits args r
        → append_entries now args r ≡ some (out, reply)
        → Grows args r out
    append_entries-Grows now args r out reply w f e =
        elim (append_entries-cases now args r out reply w f e) [
          | inl (stale, same, _) ↦ rw same (Grows-refl args r)
          | inr (out', h, same, c) ↦ rw same (
              persist-Grows args r out' (
                entered-Grows args now r out' h (
                  Checked-Grows args (entered args now r) out' reply (entered-IsWf args now w)
                    (entered-Fits args now f) c refl)))
        ]
