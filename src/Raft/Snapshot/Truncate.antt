-- ===== src/Raft/Snapshot/Truncate.antt =====
-- Cutting the log at a snapshot, and `Snapshot` of raftCore/raft.cpp on a well-formed node.
use kv_raft_storage.Common.{
  ℕ, zero, suc, ◌+◌, ◌-◌, ◌≤◌, ◌<◌, ◌≡◌, refl, sym, ap, ◌∙◌, ◌∷◌, some, arith, max, length, drop,
  length-drop, drop-get_elem?, drop_past, get_elem?-drop, get_elem?, my_assert_pass, eq→==, Bytes,
  dec_lt, lt→ltb, le→not-ltb, false, ◌||◌, leb, ltb,
}
use kv_raft_storage.Raft.State.{Raft, Archive}
use kv_raft_storage.Raft.Log.{get_last_log_index, entry_at, persist_data}
use kv_raft_storage.Raft.Contiguous.{drop-Contiguous}
use kv_raft_storage.Raft.Invariant.{
  IsWf, entry_at-total, entry_at-eq, get_last_log_index-eq, get_slices_index-eq,
}
use kv_raft_storage.Raft.Snapshot.{copy_logs, logs_behind, save_both, take_snapshot}

module _ {F : Type 0} where
  -- The node that has cut its log at `index`.
  abbrev pub cut_at : ℕ → ℕ → Raft F → Raft F
  cut_at index term r = record r {
    logs = drop (index - r.last_snapshot_index) r.logs;
    commit_index = max r.commit_index index;
    last_applied = max r.last_applied index;
    last_snapshot_index = index;
    last_snapshot_term = term;
  }

  -- `out` is cut at `index`, behind which it reads the entries of `r`.
  pub record IsCut (r out : Raft F) (index : ℕ) : Type 0 where
    pub wf : IsWf out
    pub at_index : out.last_snapshot_index ≡ index
    pub last_kept :
        out.last_snapshot_index + length out.logs
        ≡ max index (r.last_snapshot_index + length r.logs)
    pub reads :
        (j : ℕ)
        → index < j
        → j ≤ r.last_snapshot_index + length r.logs
        → entry_at out j ≡ entry_at r j

module _ {F : Type 0} (r : Raft F) (w : IsWf r) where
  -- The loop of `Snapshot` copies the end of the log.
  copy_logs-eq :
      (from n : ℕ)
      → r.last_snapshot_index < from
      → from + n ≡ r.last_snapshot_index + length r.logs + 1
      → copy_logs r from n ≡ some (drop (from - r.last_snapshot_index - 1) r.logs)
  unfolding copy_logs
  copy_logs-eq from zero lo end =
      ap some (sym (drop_past r.logs (from - r.last_snapshot_index - 1) (omega arith)))
  copy_logs-eq from (suc n) lo end =
      let (e, found, at, place) = entry_at-total r w.contiguous from lo (omega arith) in
      let p : from + 1 - r.last_snapshot_index - 1 ≡ suc (from - r.last_snapshot_index - 1) =
        omega arith in
      rw (found, copy_logs-eq (from + 1) n (omega arith) (omega arith))
        (ap some (ap (λ k. e ∷ drop k r.logs) p ∙ sym (drop-get_elem? r.logs _ place)))

  pub logs_behind-eq :
      (index : ℕ)
      → r.last_snapshot_index < index
      → logs_behind index r ≡ some (drop (index - r.last_snapshot_index) r.logs)
  unfolding logs_behind
  logs_behind-eq index lo = elim (dec_lt index (r.last_snapshot_index + length r.logs)) [
    | yes inside ↦
        let p : index - r.last_snapshot_index - 1 + 1 ≡ index - r.last_snapshot_index =
          omega arith in
        rw (
          get_last_log_index-eq r w.contiguous,
          lt→ltb _ _ inside,
          get_slices_index-eq r w.contiguous index lo (omega arith),
          p,
        )
    | no past ↦
        rw
          (
            get_last_log_index-eq r w.contiguous,
            le→not-ltb index (r.last_snapshot_index + length r.logs) (omega arith),
          )
          (ap some (sym (drop_past r.logs (index - r.last_snapshot_index) (omega arith))))
  ]

  cut_at-IsWf : (index term : ℕ) → r.last_snapshot_index < index → IsWf (cut_at index term r)
  cut_at-IsWf index term lo =
      let n = index - r.last_snapshot_index in
      record {
        contiguous =
            drop-Contiguous r.last_snapshot_index n index r.logs w.contiguous (omega arith);
        commit_in_log = omega (arith, w.commit_in_log, length-drop n r.logs);
        applied_past_snapshot = omega arith;
        applied_in_log = omega (arith, w.applied_in_log, length-drop n r.logs);
        me_is_peer = w.me_is_peer;
        next_sized = w.next_sized;
        match_sized = w.match_sized;
      }

  pub cut_at-IsCut :
      (index term : ℕ) → r.last_snapshot_index < index → IsCut r (cut_at index term r) index
  cut_at-IsCut index term lo =
      let n = index - r.last_snapshot_index in
      let wf = cut_at-IsWf index term lo in
      record {
        wf = wf;
        at_index = refl;
        last_kept = omega (arith, length-drop n r.logs);
        reads = λ j behind inside.
            let place : n + (j - index - 1) ≡ j - r.last_snapshot_index - 1 = omega arith in
            entry_at-eq (cut_at index term r) wf.contiguous j behind
              (omega (arith, length-drop n r.logs))
            ∙ get_elem?-drop r.logs n (j - index - 1)
            ∙ ap (λ k. get_elem? r.logs k) place
            ∙ sym (entry_at-eq r w.contiguous j (omega arith) inside);
      }

module _ {F : Type 0} ⦃ar : Archive F⦄ where
  saved-IsCut :
      (snapshot : Bytes) (r out : Raft F) (index : ℕ)
      → IsCut r out index
      → IsCut r (save_both snapshot out) index
  unfolding save_both entry_at get_last_log_index
  saved-IsCut snapshot r out index c = record {
    wf = (let w = c.wf in assumption);
    at_index = c.at_index;
    last_kept = c.last_kept;
    reads = c.reads;
  }

  -- On a well-formed node, for an index behind the last snapshot and not past the commit index,
  -- `Snapshot` returns: the node is well formed and cut at that index, reads every later entry as
  -- before, has kept its last index, and has written the snapshot and a state that reads back.
  pub take_snapshot-IsCut :
      (index : ℕ) (snapshot : Bytes) (r : Raft F)
      → IsWf r
      → r.last_snapshot_index < index
      → index ≤ r.commit_index
      → (out : Raft F) × (take_snapshot index snapshot r ≡ some out)
        × IsCut r out index
        × (out.snapshot_file ≡ snapshot)
        × (ar.load out.raft_file ≡ some (persist_data out))
  unfolding take_snapshot
  take_snapshot-IsCut index snapshot r w lo hi =
      let (e, found, _, _) =
        entry_at-total r w.contiguous index lo (omega (arith, w.commit_in_log)) in
      let c = cut_at-IsCut r w index e.log_term lo in
      let last = get_last_log_index-eq r w.contiguous in
      let n : index + 1 - r.last_snapshot_index - 1 ≡ index - r.last_snapshot_index = omega arith in
      let passes : (leb index r.last_snapshot_index || ltb r.commit_index index) ≡ false =
        ground arith in
      (
        save_both snapshot (cut_at index e.log_term r),
        rw
            (
              passes,
              found,
              copy_logs-eq r w (index + 1) (get_last_log_index r - index) (omega arith)
                  (omega (arith, last, w.commit_in_log)),
              n,
            )
            (my_assert_pass _ _ (
              eq→== _ _ (
                omega (
                  arith,
                  last,
                  length-drop (index - r.last_snapshot_index) r.logs,
                  w.commit_in_log,
                )))),
        saved-IsCut snapshot r (cut_at index e.log_term r) index c,
        refl,
        ar.load-dump _,
      )
