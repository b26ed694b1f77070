-- ===== src/Raft/Snapshot/Apply.antt =====
-- `getApplyLogs` of raftCore/raft.cpp on a well-formed node.
use kv_raft_storage.Common.{
  ℕ, zero, suc, ◌+◌, ◌-◌, ◌≤◌, ◌≡◌, refl, sym, ap, ◌∙◌, List, [], ◌∷◌, some, arith, max, length,
  my_assert_pass, le→leb, eq→==,
}
use kv_raft_storage.Raft.State.{LogEntry, Raft, ApplyMsg, command_msg}
use kv_raft_storage.Raft.Log.{get_last_log_index, entry_at}
use kv_raft_storage.Raft.Invariant.{IsWf, entry_at-total, get_last_log_index-eq}
use kv_raft_storage.Raft.Snapshot.{apply_next, apply_loop, get_apply_logs}

module _ {F : Type 0} where
  -- The messages are the commands of the entries `from + 1`, `from + 2`, … of the log, in order.
  abbrev pub Delivers : Raft F → ℕ → List ApplyMsg → Type 0
  Delivers r from [] = Unit
  Delivers r from (m ∷ ms) =
      ((e : LogEntry) × (entry_at r (suc from) ≡ some e) × (m ≡ command_msg e.command (suc from)))
      × Delivers r (suc from) ms

  apply_next-eq :
      (r : Raft F) (e : LogEntry)
      → entry_at r (suc r.last_applied) ≡ some e
      → e.log_index ≡ suc r.last_applied
      → apply_next r
        ≡ some (
          record r { last_applied = suc r.last_applied },
          command_msg e.command (suc r.last_applied),
        )
  unfolding apply_next
  apply_next-eq r e found at =
      let n : r.last_applied + 1 ≡ suc r.last_applied = omega arith in
      rw (n, found) (my_assert_pass _ _ (eq→== _ _ at))

  -- A different `lastApplied` reads the same log.
  Delivers-moved :
      (r : Raft F) (applied from : ℕ) (ms : List ApplyMsg)
      → Delivers (record r { last_applied = applied }) from ms
      → Delivers r from ms
  unfolding entry_at get_last_log_index
  Delivers-moved r applied from [] d = tt
  Delivers-moved r applied from (m ∷ ms) d = (d.0, Delivers-moved r applied (suc from) ms d.1)

  apply_loop-eq :
      (n : ℕ) (r : Raft F)
      → IsWf r
      → r.last_applied + n ≤ r.last_snapshot_index + length r.logs
      → (ms : List ApplyMsg) × (apply_loop n r
          ≡ some (record r { last_applied = r.last_applied + n }, ms))
        × (length ms ≡ n)
        × Delivers r r.last_applied ms
  unfolding apply_loop
  apply_loop-eq zero r w h =
      let e : r.last_applied + 0 ≡ r.last_applied = omega arith in
      ([], ap (λ a. some (record r { last_applied = a }, [])) (sym e), refl, tt)
  apply_loop-eq (suc n) r w h =
      let (e, found, at, _) =
        entry_at-total r w.contiguous (suc r.last_applied) (omega (arith, w.applied_past_snapshot))
          (omega arith) in
      let s : Raft F = record r { last_applied = suc r.last_applied } in
      let ws : IsWf s = record {
        contiguous = w.contiguous;
        commit_in_log = w.commit_in_log;
        applied_past_snapshot = omega (arith, w.applied_past_snapshot);
        applied_in_log = omega arith;
        me_is_peer = w.me_is_peer;
        next_sized = w.next_sized;
        match_sized = w.match_sized;
      } in
      let (ms, loop, long, delivers) = apply_loop-eq n s ws (omega arith) in
      let end : suc r.last_applied + n ≡ r.last_applied + suc n = omega arith in
      (
        command_msg e.command (suc r.last_applied) ∷ ms,
        rw (apply_next-eq r e found at, loop, end),
        ap suc long,
        ((e, found, refl), Delivers-moved r (suc r.last_applied) (suc r.last_applied) ms delivers),
      )

  -- On a well-formed node `getApplyLogs` returns: the messages are exactly the entries behind
  -- `lastApplied` up to the commit index, each once and in order, `lastApplied` moves to the
  -- commit index unless it is past it, and nothing else changes.
  pub get_apply_logs-Delivers :
      (r : Raft F)
      → IsWf r
      → (ms : List ApplyMsg) × (get_apply_logs r
          ≡ some (record r { last_applied = max r.last_applied r.commit_index }, ms))
        × (length ms ≡ r.commit_index - r.last_applied)
        × Delivers r r.last_applied ms
  unfolding get_apply_logs
  get_apply_logs-Delivers r w =
      let (ms, loop, long, delivers) =
        apply_loop-eq (r.commit_index - r.last_applied) r w
          (omega (arith, w.commit_in_log, w.applied_in_log)) in
      let end : r.last_applied + (r.commit_index - r.last_applied)
          ≡ max r.last_applied r.commit_index =
        omega arith in
      (
        ms,
        my_assert_pass _ _
              (le→leb _ _ (omega (arith, get_last_log_index-eq r w.contiguous, w.commit_in_log)))
            ∙ loop
            ∙ ap (λ a. some (record r { last_applied = a }, ms)) end,
        long,
        delivers,
      )
