-- ===== src/Raft/Leader/Elected.antt =====
-- `sendRequestVote` (raftCore/raft.cpp) from the reply on: counting votes, and the new leader.
use kv_raft_storage.Common.{
  ℕ, suc, ◌+◌, ◌/◌, ◌≤◌, ◌<◌, ◌≡◌, refl, ◌∙◌, true, false, [], ◌∷◌, some, arith, length, replicate,
  length-append, length-replicate, get_elem?-replicate, le→leb, my_assert_pass, ltb, lt→not-leb,
}
use kv_raft_storage.Raft.State.{LogEntry, Raft, Archive, leader, RequestVoteReply}
use kv_raft_storage.Raft.Log.{
  get_last_log_index, get_new_command_index, entry_at, persist, persist_data,
}
use kv_raft_storage.Raft.Vote.{is_leader, append_noop, become_leader, handle_vote_reply}
use kv_raft_storage.Raft.Invariant.{IsWf, get_last_log_index-eq}
use kv_raft_storage.Raft.Leader.Sends.{NextInRange}
use kv_raft_storage.Raft.Leader.Entries.{
  last_index, Extends, with_entry, with_entry-Extends, persist-Extends,
}

module _ {F : Type 0} ⦃ar : Archive F⦄ where
  -- The leader that a candidate with these votes becomes.
  pub record Leads (r out : Raft F) : Type 0 where
    pub extends :
        Extends
          (record {
            command = ar.noop_text r.current_term;
            log_term = r.current_term;
            log_index = suc (last_index r);
          })
          r
          out
    pub is_leader_now : out.status ≡ leader
    pub same_term : out.current_term ≡ r.current_term
    pub next_in_range : NextInRange out
    pub saved : ar.load out.raft_file ≡ some (persist_data out)

  -- The first assignments of a new leader.
  promoted : Raft F → Raft F
  promoted r = record r {
    status = leader;
    next_index = replicate (length r.next_index) (get_last_log_index r + 1);
    match_index = replicate (length r.next_index) 0;
  }

  promoted-IsWf : (r : Raft F) → IsWf r → IsWf (promoted r)
  unfolding promoted
  promoted-IsWf r w = record {
    contiguous = w.contiguous;
    commit_in_log = w.commit_in_log;
    applied_past_snapshot = w.applied_past_snapshot;
    applied_in_log = w.applied_in_log;
    me_is_peer = w.me_is_peer;
    next_sized = length-replicate (length r.next_index) _ ∙ w.next_sized;
    match_sized = length-replicate (length r.next_index) 0 ∙ w.next_sized;
  }

  promoted-Extends : (e : LogEntry) (r out : Raft F) → Extends e (promoted r) out → Extends e r out
  unfolding promoted entry_at get_last_log_index
  promoted-Extends e r out x = record {
    wf = x.wf;
    last = x.last;
    new_entry = x.new_entry;
    old_entries = x.old_entries;
  }

  noop_of : Raft F → LogEntry
  noop_of r = record {
    command = ar.noop_text r.current_term;
    log_term = r.current_term;
    log_index = suc (last_index r);
  }

  become_leader-eq :
      (r : Raft F) → IsWf r → become_leader r ≡ persist (with_entry (noop_of r) (promoted r))
  unfolding become_leader append_noop get_new_command_index promoted noop_of
  become_leader-eq r w =
      let at : get_last_log_index (promoted r) + 1 ≡ suc (last_index r) =
        omega (arith, get_last_log_index-eq (promoted r) w.contiguous) in
      rw at

  promoted-NextInRange :
      (e : LogEntry) (r : Raft F) → IsWf r → NextInRange (persist (with_entry e (promoted r)))
  unfolding promoted persist
  promoted-NextInRange e r w server next at =
      let same = get_elem?-replicate (length r.next_index) server (get_last_log_index r + 1) at in
      let longer = length-append r.logs (e ∷ []) in
      (omega (arith, same), omega (arith, same, longer, get_last_log_index-eq r w.contiguous))

  become_leader-Leads : (r : Raft F) → IsWf r → Leads r (become_leader r)
  unfolding noop_of promoted persist
  become_leader-Leads r w =
      let e = noop_of r in
      let s = promoted r in
      rw (become_leader-eq r w) (record {
        extends = promoted-Extends e r (persist (with_entry e s)) (
            persist-Extends e s (with_entry e s) (with_entry-Extends e s (promoted-IsWf r w) refl));
        is_leader_now = refl;
        same_term = refl;
        next_in_range = promoted-NextInRange e r w;
        saved = ar.load-dump _;
      })

  -- On a well-formed candidate, a vote that is granted in its own term and makes a majority makes it
  -- the leader: it stays well formed and in its term, has one entry more, the no-op of its term, has
  -- persisted, and its `nextIndex` values are ready for `doHeartBeat`. A vote that makes no majority
  -- is counted, and changes nothing else.
  pub handle_vote_reply-Leads :
      (reply : RequestVoteReply) (voted_num : ℕ) (r : Raft F)
      → IsWf r
      → is_leader r.status ≡ false
      → reply.term ≡ r.current_term
      → reply.vote_granted ≡ true
      → (r.peers / 2 + 1 ≤ voted_num + 1
          → (out : Raft F) × (handle_vote_reply reply (r, voted_num) ≡ some (out, 0)) × Leads r out)
        × (voted_num + 1 < r.peers / 2 + 1
            → handle_vote_reply reply (r, voted_num) ≡ some (r, voted_num + 1))
  unfolding handle_vote_reply
  handle_vote_reply-Leads reply voted_num r w not_leader same granted =
      let below : ltb r.current_term reply.term ≡ false = ground arith in
      let above : ltb reply.term r.current_term ≡ false = ground arith in
      (
        (λ enough. (
          become_leader r,
          rw (below, above, granted, le→leb _ _ enough, not_leader) (my_assert_pass true _ refl),
          become_leader-Leads r w,
        )),
        (λ few. rw (below, above, granted, lt→not-leb _ _ few) refl),
      )
