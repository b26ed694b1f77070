-- ===== src/Raft/Leader/Replies.antt =====
-- `sendAppendEntries` (raftCore/raft.cpp) from a reply on that reports success.
use kv_raft_storage.Common.{
  ℕ, ◌+◌, ◌/◌, ◌≤◌, ◌<◌, ◌≡◌, refl, ap, subst, ◌∙◌, ◌⊎◌, inl, inr, true, false, some, arith, length,
  set, max, length-set, get_elem?-lt, get_elem?-set_self, my_assert_pass, le→leb, Bool-cases, leb,
  dec_le, ltb,
}
use kv_raft_storage.Raft.State.{Raft, AppendEntriesArgs, AppendEntriesReply}
use kv_raft_storage.Raft.Log.{get_last_log_index}
use kv_raft_storage.Raft.Vote.{is_leader}
use kv_raft_storage.Raft.Invariant.{IsWf, get_last_log_index-eq}
use kv_raft_storage.Raft.Leader.{
  next_of, match_of, ends_in_term, commit_sent, note_success, handle_append_reply,
}

-- The index of the last entry that a message covers.
abbrev pub covered : AppendEntriesArgs → ℕ
covered args = args.prev_log_index + length args.entries

module _ {F : Type 0} where
  -- The leader after a success of `server`, which had matched `old`, as number `nums` of the round.
  pub record Noted (server old nums : ℕ) (args : AppendEntriesArgs) (r out : Raft F) : Type 0 where
    pub wf : IsWf out
    pub log_kept : out.logs ≡ r.logs
    pub matched : match_of out server ≡ some (max old (covered args))
    pub next : next_of out server ≡ some (max old (covered args) + 1)
    pub committed :
        (out.commit_index ≡ r.commit_index)
        ⊎ ((r.commit_index < out.commit_index)
            × (out.commit_index ≡ covered args)
            × (ends_in_term args.entries r.current_term ≡ true)
            × (1 + r.peers / 2 ≤ nums))

  -- Both vectors with their new values for `server`.
  advanced : ℕ → ℕ → Raft F → Raft F
  advanced server m r = record r {
    match_index = set r.match_index server m;
    next_index = set r.next_index server (m + 1);
  }

  advanced-Noted :
      (server old nums : ℕ) (args : AppendEntriesArgs) (r : Raft F)
      → IsWf r
      → match_of r server ≡ some old
      → Noted server old nums args r (advanced server (max old (covered args)) r)
  unfolding advanced
  advanced-Noted server old nums args r w at =
      let m = max old (covered args) in
      let known = get_elem?-lt r.match_index server at in
      record {
        wf = record {
          contiguous = w.contiguous;
          commit_in_log = w.commit_in_log;
          applied_past_snapshot = w.applied_past_snapshot;
          applied_in_log = w.applied_in_log;
          me_is_peer = w.me_is_peer;
          next_sized = length-set r.next_index server (m + 1) ∙ w.next_sized;
          match_sized = length-set r.match_index server m ∙ w.match_sized;
        };
        log_kept = refl;
        matched = get_elem?-set_self r.match_index server m known;
        next =
            get_elem?-set_self r.next_index server (m + 1)
              (omega (arith, known, w.next_sized, w.match_sized));
        committed = inl refl;
      }

  commit_sent-Noted :
      (server old nums : ℕ) (args : AppendEntriesArgs) (r s : Raft F)
      → Noted server old nums args r s
      → s.commit_index ≡ r.commit_index
      → s.current_term ≡ r.current_term
      → s.last_snapshot_index ≡ r.last_snapshot_index
      → covered args ≤ r.last_snapshot_index + length r.logs
      → 1 + r.peers / 2 ≤ nums
      → Noted server old nums args r (commit_sent args s)
        × ((commit_sent args s).commit_index ≤ r.last_snapshot_index + length r.logs)
  unfolding commit_sent
  commit_sent-Noted server old nums args r s n commit term snap hi enough =
      let w = n.wf in
      let long : length s.logs ≡ length r.logs = ap length n.log_kept in
      let kept : s.commit_index ≤ r.last_snapshot_index + length r.logs =
        omega (arith, w.commit_in_log, long, snap) in
      elim (Bool-cases (ends_in_term args.entries s.current_term)) [
        | inr old_term ↦ rw old_term (n, kept)
        | inl own_term ↦ rw own_term (
          record {
            wf = record {
              contiguous = w.contiguous;
              commit_in_log = omega (arith, w.commit_in_log, long, snap, hi);
              applied_past_snapshot = w.applied_past_snapshot;
              applied_in_log = w.applied_in_log;
              me_is_peer = w.me_is_peer;
              next_sized = w.next_sized;
              match_sized = w.match_sized;
            };
            log_kept = n.log_kept;
            matched = n.matched;
            next = n.next;
            committed = elim (dec_le (covered args) s.commit_index) [
              | yes below ↦ inl (omega (arith, commit))
              | no above ↦ inr (
                omega (arith, commit),
                omega arith,
                subst (λ t. ends_in_term args.entries t ≡ true) term own_term,
                enough,
              )
            ];
          },
          omega (arith, kept, hi),
        )
      ]

  note_success-Noted :
      (server old nums : ℕ) (args : AppendEntriesArgs) (r : Raft F)
      → IsWf r
      → match_of r server ≡ some old
      → old ≤ r.last_snapshot_index + length r.logs
      → covered args ≤ r.last_snapshot_index + length r.logs
      → (out : Raft F) × (nums' : ℕ) × (note_success server args r nums ≡ some (out, nums'))
        × Noted server old (nums + 1) args r out
  unfolding note_success advanced
  note_success-Noted server old nums args r w at lo hi =
      let m = max old (covered args) in
      let s = advanced server m r in
      let n = advanced-Noted server old (nums + 1) args r w at in
      let last = get_last_log_index-eq r w.contiguous in
      let inside : leb (m + 1) (get_last_log_index r + 1) ≡ true =
        le→leb _ _ (omega (arith, last)) in
      elim (Bool-cases (leb (1 + r.peers / 2) (nums + 1))) [
        | inr few ↦ (s, nums + 1, rw at (my_assert_pass _ _ inside ∙ rw few refl), n)
        | inl many ↦
            let (c, bound) =
              commit_sent-Noted server old (nums + 1) args r s n refl refl refl hi (ground arith) in
            (
              commit_sent args s,
              0,
              rw at (
                  my_assert_pass _ _ inside
                  ∙ rw many (my_assert_pass _ _ (le→leb _ _ (omega (arith, bound, last))))),
              c,
            )
      ]

  -- On a well-formed leader, for a success that is reported in its own term by a server whose
  -- `matchIndex` is in the log, and a message that does not reach past the log: no assert of
  -- `sendAppendEntries` fails, the leader stays well formed, its log is unchanged, the server's
  -- `matchIndex` becomes the greater of its old value and the index of the last entry that the message
  -- covers, and its `nextIndex` is set to the one after that, whatever it was. The commit index stays,
  -- or rises to the last entry that the message covers; it rises only if a majority has reported,
  -- this success included, and the last entry sent is of the leader's current term.
  pub handle_append_reply-Noted :
      (server old nums : ℕ) (args : AppendEntriesArgs) (reply : AppendEntriesReply) (r : Raft F)
      → IsWf r
      → is_leader r.status ≡ true
      → reply.app_normal ≡ true
      → reply.term ≡ r.current_term
      → reply.success ≡ true
      → match_of r server ≡ some old
      → old ≤ r.last_snapshot_index + length r.logs
      → covered args ≤ r.last_snapshot_index + length r.logs
      → (out : Raft F) × (nums' : ℕ) × (handle_append_reply server args reply r nums
          ≡ some (out, nums'))
        × Noted server old (nums + 1) args r out
  unfolding handle_append_reply
  handle_append_reply-Noted server old nums args reply r w leads normal now success at lo hi =
      let same : ltb r.current_term reply.term ≡ false = ground arith in
      let same' : ltb reply.term r.current_term ≡ false = ground arith in
      rw (normal, same, same', leads, success)
        (note_success-Noted server old nums args r w at lo hi)
