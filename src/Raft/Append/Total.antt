-- ===== src/Raft/Append/Total.antt =====
-- The branches of `AppendEntries1` (raftCore/raft.cpp) behind the test of the term, on a
-- well-formed node.
use kv_raft_storage.Common.{
  ℕ, ◌+◌, ◌-◌, ◌≤◌, ◌<◌, ◌≡◌, ◌≢◌, ap, ◌∙◌, some, max, arith, length, ◌==◌, ==_iff, inl, inr,
  Bool-cases, my_assert_pass, le→leb, lt→ltb, le→not-ltb, dec_lt, ◌>>=◌, Option, ltb, if◌then◌else◌,
}
use kv_raft_storage.Raft.State.{Raft, AppendEntriesArgs, AppendEntriesReply}
use kv_raft_storage.Raft.Log.{get_last_log_index, get_log_term}
use kv_raft_storage.Raft.Contiguous.{Contiguous}
use kv_raft_storage.Raft.Invariant.{IsWf, get_last_log_index-eq, get_log_term-total, match_log-eq}
use kv_raft_storage.Raft.Append.{
  follow_commit, rejected, accepted, accept_entries, append_checked, back_off,
}
use kv_raft_storage.Raft.Append.Overlay.{overlay, Agree, overlay-Contiguous, length-overlay}
use kv_raft_storage.Raft.Append.Store.{store_entries-overlay}
use kv_raft_storage.Raft.Append.BackOff.{IsHint, back_off-IsHint}

module _ {F : Type 0} where
  follow_commit-in_log :
      (leader_commit : ℕ) (r : Raft F)
      → r.commit_index ≤ get_last_log_index r
      → (follow_commit leader_commit r).commit_index
        ≤ get_last_log_index (follow_commit leader_commit r)
  unfolding follow_commit get_last_log_index
  follow_commit-in_log leader_commit r h = elim (Bool-cases (ltb r.commit_index leader_commit)) [
    | inl news ↦ rw news (omega arith)
    | inr old ↦ rw old h
  ]

  follow_commit-last :
      (leader_commit : ℕ) (r : Raft F)
      → get_last_log_index (follow_commit leader_commit r) ≡ get_last_log_index r
  unfolding follow_commit get_last_log_index
  follow_commit-last leader_commit r = elim (Bool-cases (ltb r.commit_index leader_commit)) [
    | inl news ↦ rw news
    | inr old ↦ rw old
  ]

  accepted-follow_commit :
      (leader_commit : ℕ) (r : Raft F) → accepted (follow_commit leader_commit r) ≡ accepted r
  unfolding follow_commit accepted
  accepted-follow_commit leader_commit r = elim (Bool-cases (ltb r.commit_index leader_commit)) [
    | inl news ↦ rw news
    | inr old ↦ rw old
  ]

-- The entries of the message follow `prev_log_index`, and where the node's log has an entry of the
-- same index and term it has the same command (Raft's log matching).
pub record Fits {F : Type 0} (args : AppendEntriesArgs) (r : Raft F) : Type 0 where
  pub follows : Contiguous args.prev_log_index args.entries
  pub agrees : Agree (args.prev_log_index - r.last_snapshot_index) r.logs args.entries

module _ {F : Type 0} where
  -- The node once the entries are stored and the commit index follows.
  abbrev pub after_accept : AppendEntriesArgs → Raft F → Raft F
  after_accept args r = follow_commit args.leader_commit (record r {
    logs = overlay (args.prev_log_index - r.last_snapshot_index) r.logs args.entries;
  })

  -- The ways out of the handler once the terms are equal.
  pub data Checked (args : AppendEntriesArgs) (r : Raft F)
      : Option (Raft F × AppendEntriesReply) → Type 0 where
    ahead :
        r.last_snapshot_index + length r.logs < args.prev_log_index
        → Checked args r (some (r, rejected r (some (r.last_snapshot_index + length r.logs + 1))))
    behind :
        args.prev_log_index < r.last_snapshot_index
        → Checked args r (some (r, rejected r (some (r.last_snapshot_index + 1))))
    conflict :
        (t hint : ℕ)
        → get_log_term r args.prev_log_index ≡ some t
        → t ≢ args.prev_log_term
        → IsHint r args.prev_log_index hint
        → Checked args r (some (r, rejected r (some hint)))
    matched :
        r.last_snapshot_index ≤ args.prev_log_index
        → args.prev_log_index ≤ r.last_snapshot_index + length r.logs
        → get_log_term r args.prev_log_index ≡ some args.prev_log_term
        → Checked args r (some (after_accept args r, accepted r))

  module _ (args : AppendEntriesArgs) (r : Raft F) (w : IsWf r) (f : Fits args r) where
    p : ℕ
    p = args.prev_log_index - r.last_snapshot_index

    filled : Raft F
    unfolding p
    filled = record r { logs = overlay p r.logs args.entries }

    filled-last :
        r.last_snapshot_index ≤ args.prev_log_index
        → args.prev_log_index ≤ r.last_snapshot_index + length r.logs
        → get_last_log_index filled
          ≡ r.last_snapshot_index + max (length r.logs) (p + length args.entries)
    unfolding filled
    filled-last lo hi =
        get_last_log_index-eq filled (
          overlay-Contiguous r.last_snapshot_index p args.prev_log_index r.logs args.entries
            w.contiguous f.follows (omega arith) (omega arith))
        ∙ ap (λ n. r.last_snapshot_index + n) (length-overlay p r.logs args.entries (omega arith))

    accept_entries-eq :
        r.last_snapshot_index ≤ args.prev_log_index
        → args.prev_log_index ≤ r.last_snapshot_index + length r.logs
        → accept_entries args r ≡ some (after_accept args r, accepted r)
    unfolding accept_entries filled
    accept_entries-eq lo hi =
        let e : r.last_snapshot_index + p ≡ args.prev_log_index = omega arith in
        rw
          (store_entries-overlay args.entries p r w.contiguous (omega arith) (rw e f.follows)
            f.agrees)
          (my_assert_pass _ _ (le→leb _ _ (omega (arith, filled-last lo hi)))
            ∙ my_assert_pass _ _ (
                le→leb _ _ (
                  follow_commit-in_log args.leader_commit filled
                    (omega (arith, filled-last lo hi, w.commit_in_log))))
            ∙ ap (λ a. some (follow_commit args.leader_commit filled, a))
                (accepted-follow_commit args.leader_commit filled))

    pub append_checked-Checked : Checked args r (append_checked args r)
    unfolding append_checked
    append_checked-Checked =
        let last = get_last_log_index-eq r w.contiguous in
        elim (dec_lt (r.last_snapshot_index + length r.logs) args.prev_log_index) [
          | yes h ↦ rw (last, lt→ltb _ _ h) (ahead h)
          | no h ↦ elim (dec_lt args.prev_log_index r.last_snapshot_index) [
            | yes h' ↦
                rw
                  (
                    last,
                    le→not-ltb (r.last_snapshot_index + length r.logs) args.prev_log_index
                        (omega arith),
                    lt→ltb _ _ h',
                  )
                  (behind h')
            | no h' ↦
                let (t, found) =
                  get_log_term-total r w.contiguous args.prev_log_index (omega arith)
                    (omega arith) in
                rw
                  (
                    last,
                    le→not-ltb (r.last_snapshot_index + length r.logs) args.prev_log_index
                        (omega arith),
                    le→not-ltb args.prev_log_index r.last_snapshot_index (omega arith),
                    match_log-eq r w.contiguous args.prev_log_index args.prev_log_term t
                        (omega arith) (omega arith) found,
                  )
                  (compared t found (omega arith) (omega arith))
          ]
        ]
      where
        compared :
            (t : ℕ)
            → get_log_term r args.prev_log_index ≡ some t
            → r.last_snapshot_index ≤ args.prev_log_index
            → args.prev_log_index ≤ r.last_snapshot_index + length r.logs
            → Checked args r (
                if args.prev_log_term == t
                then accept_entries args r
                else (back_off r args.prev_log_index
                      (args.prev_log_index + 1 - r.last_snapshot_index)
                      args.prev_log_index
                    >>= λ hint. some (r, rejected r (some hint))))
        compared t found lo hi = elim (Bool-cases (args.prev_log_term == t)) [
          | inl same ↦
              rw (same, accept_entries-eq lo hi)
                (matched lo hi (found ∙ ap some (omega (arith, (==_iff _ _).0 same))))
          | inr other ↦
              let (hint, back, is_hint) =
                back_off-IsHint r w.contiguous args.prev_log_index t
                  (args.prev_log_index + 1 - r.last_snapshot_index) args.prev_log_index found hi
                  (omega arith) (omega arith) (λ j after before. absurd (omega arith)) in
              rw (other, back) (conflict t hint found (λ e. ground arith) is_hint)
        ]
