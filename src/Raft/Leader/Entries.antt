-- ===== src/Raft/Leader/Entries.antt =====
-- The entries that a leader appends itself: the command of `Start`, and the no-op of a new leader.
use kv_raft_storage.Common.{
  ℕ, suc, ◌+◌, ◌-◌, ◌≤◌, ◌<◌, ◌≡◌, refl, sym, ap, ◌∙◌, true, [], ◌∷◌, ◌++◌, some, arith, length,
  get_elem?, length-append, get_elem?-append_left, get_elem?-append_last, Bytes,
}
use kv_raft_storage.Raft.State.{LogEntry, Raft, Archive}
use kv_raft_storage.Raft.Log.{
  get_last_log_index, get_new_command_index, entry_at, persist, persist_data,
}
use kv_raft_storage.Raft.Vote.{is_leader}
use kv_raft_storage.Raft.Contiguous.{append-Contiguous}
use kv_raft_storage.Raft.Invariant.{IsWf, get_last_log_index-eq, entry_at-eq}
use kv_raft_storage.Raft.Leader.{start}

module _ {F : Type 0} where
  -- The last index of the node's log.
  abbrev pub last_index : Raft F → ℕ
  last_index r = r.last_snapshot_index + length r.logs

  -- `out` has the log of `r` and one entry more, `e`.
  pub record Extends (e : LogEntry) (r out : Raft F) : Type 0 where
    pub wf : IsWf out
    pub last : last_index out ≡ suc (last_index r)
    pub new_entry : entry_at out (suc (last_index r)) ≡ some e
    pub old_entries :
        (j : ℕ) → r.last_snapshot_index < j → j ≤ last_index r → entry_at out j ≡ entry_at r j

  abbrev pub with_entry : LogEntry → Raft F → Raft F
  with_entry e r = record r { logs = r.logs ++ e ∷ [] }

  with_entry-IsWf :
      (e : LogEntry) (r : Raft F)
      → IsWf r
      → e.log_index ≡ suc (last_index r)
      → IsWf (with_entry e r)
  with_entry-IsWf e r w at =
      let longer = length-append r.logs (e ∷ []) in
      record {
        contiguous =
            append-Contiguous r.last_snapshot_index r.logs e w.contiguous (omega (arith, at));
        commit_in_log = omega (arith, longer, w.commit_in_log);
        applied_past_snapshot = w.applied_past_snapshot;
        applied_in_log = omega (arith, longer, w.applied_in_log);
        me_is_peer = w.me_is_peer;
        next_sized = w.next_sized;
        match_sized = w.match_sized;
      }

  pub with_entry-Extends :
      (e : LogEntry) (r : Raft F)
      → IsWf r
      → e.log_index ≡ suc (last_index r)
      → Extends e r (with_entry e r)
  with_entry-Extends e r w at =
      let wf = with_entry-IsWf e r w at in
      let longer = length-append r.logs (e ∷ []) in
      let place : suc (last_index r) - r.last_snapshot_index - 1 ≡ length r.logs = omega arith in
      record {
        wf = wf;
        last = omega (arith, longer);
        new_entry =
            entry_at-eq (with_entry e r) wf.contiguous (suc (last_index r)) (omega arith)
              (omega (arith, longer))
            ∙ ap (get_elem? (r.logs ++ e ∷ [])) place
            ∙ get_elem?-append_last r.logs e;
        old_entries = λ j lo hi.
            entry_at-eq (with_entry e r) wf.contiguous j lo (omega (arith, longer))
            ∙ get_elem?-append_left r.logs (e ∷ []) (j - r.last_snapshot_index - 1) (omega arith)
            ∙ sym (entry_at-eq r w.contiguous j lo hi);
      }

module _ {F : Type 0} ⦃ar : Archive F⦄ where
  pub persist-Extends :
      (e : LogEntry) (r out : Raft F) → Extends e r out → Extends e r (persist out)
  unfolding persist entry_at get_last_log_index
  persist-Extends e r out x = record {
    wf = (let w = x.wf in assumption);
    last = x.last;
    new_entry = x.new_entry;
    old_entries = x.old_entries;
  }

  -- On a well-formed leader `Start` gives the command the index behind the last entry and the
  -- leader's term; the node stays well formed, its log has the new entry there and all others as
  -- before, and the file holds the new state.
  pub start-Extends :
      (command : Bytes) (r : Raft F)
      → IsWf r
      → is_leader r.status ≡ true
      → ((start command r).1 ≡ some (suc (last_index r), r.current_term))
        × Extends
            (record {
              command = command;
              log_term = r.current_term;
              log_index = suc (last_index r);
            })
            r
            (start command r).0
        × (ar.load (start command r).0.raft_file ≡ some (persist_data (start command r).0))
  unfolding start get_new_command_index
  start-Extends command r w leads =
      let at : get_last_log_index r + 1 ≡ suc (last_index r) =
        omega (arith, get_last_log_index-eq r w.contiguous) in
      let e : LogEntry = record {
        command = command;
        log_term = r.current_term;
        log_index = suc (last_index r);
      } in
      rw (leads, at)
        (refl, persist-Extends e r (with_entry e r) (with_entry-Extends e r w refl), ar.load-dump _)
