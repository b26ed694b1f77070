-- ===== src/Raft/Invariant.antt =====
-- The well-formed node, and the accessors of raftCore/raft.cpp on it.
use kv_raft_storage.Common.{
  ℕ, ◌+◌, ◌-◌, ◌≤◌, ◌<◌, ◌≡◌, inl, inr, some, arith, length, get_elem?, get_elem?-total, ◌==◌,
  Bool-cases,
}
use kv_raft_storage.Raft.State.{LogEntry, Raft}
use kv_raft_storage.Raft.Log.{
  get_last_log_index, get_slices_index, entry_at, get_log_term, match_log,
}
use kv_raft_storage.Raft.Contiguous.{Contiguous, last_of-index, get_elem?-index}

-- What holds of a node between two handlers.
pub record IsWf {F : Type 0} (r : Raft F) : Type 0 where
  pub contiguous : Contiguous r.last_snapshot_index r.logs
  pub commit_in_log : r.commit_index ≤ r.last_snapshot_index + length r.logs
  pub applied_past_snapshot : r.last_snapshot_index ≤ r.last_applied
  pub applied_in_log : r.last_applied ≤ r.last_snapshot_index + length r.logs
  pub me_is_peer : r.me < r.peers
  pub next_sized : length r.next_index ≡ r.peers
  pub match_sized : length r.match_index ≡ r.peers

module _ {F : Type 0} (r : Raft F) (c : Contiguous r.last_snapshot_index r.logs) where
  pub get_last_log_index-eq : get_last_log_index r ≡ r.last_snapshot_index + length r.logs
  unfolding get_last_log_index
  get_last_log_index-eq = last_of-index r.last_snapshot_index r.last_snapshot_term r.logs c

  pub get_slices_index-eq :
      (i : ℕ)
      → r.last_snapshot_index < i
      → i ≤ r.last_snapshot_index + length r.logs
      → get_slices_index r i ≡ some (i - r.last_snapshot_index - 1)
  unfolding get_slices_index
  get_slices_index-eq i lo hi = ground (arith, get_last_log_index-eq)

  -- An entry inside the log is found, and carries the index that was asked for.
  pub entry_at-total :
      (i : ℕ)
      → r.last_snapshot_index < i
      → i ≤ r.last_snapshot_index + length r.logs
      → (e : LogEntry) × (entry_at r i ≡ some e)
        × (e.log_index ≡ i)
        × (get_elem? r.logs (i - r.last_snapshot_index - 1) ≡ some e)
  unfolding entry_at
  entry_at-total i lo hi =
      let (e, found) = get_elem?-total r.logs (i - r.last_snapshot_index - 1) (omega arith) in
      (
        e,
        rw (get_slices_index-eq i lo hi) found,
        omega (arith, get_elem?-index r.last_snapshot_index r.logs _ c found),
        found,
      )

  pub get_log_term-total :
      (i : ℕ)
      → r.last_snapshot_index ≤ i
      → i ≤ r.last_snapshot_index + length r.logs
      → (t : ℕ) × (get_log_term r i ≡ some t)
  unfolding get_log_term
  get_log_term-total i lo hi = elim (Bool-cases (i == r.last_snapshot_index)) [
    | inl here ↦ (r.last_snapshot_term, ground (arith, get_last_log_index-eq))
    | inr above ↦
        let (e, found, at, place) = entry_at-total i (ground arith) hi in
        (e.log_term, ground (arith, get_last_log_index-eq, entry_at-total i (ground arith) hi))
  ]

  -- Behind the snapshot the term of an index is that of the entry there.
  pub get_log_term-entry :
      (i : ℕ) (e : LogEntry)
      → r.last_snapshot_index < i
      → entry_at r i ≡ some e
      → get_log_term r i ≡ some e.log_term
  unfolding get_log_term
  get_log_term-entry i e lo found = ground (arith, get_last_log_index-eq)

  pub get_log_term-snapshot : get_log_term r r.last_snapshot_index ≡ some r.last_snapshot_term
  unfolding get_log_term
  get_log_term-snapshot = ground (arith, get_last_log_index-eq)

  pub match_log-eq :
      (i term t : ℕ)
      → r.last_snapshot_index ≤ i
      → i ≤ r.last_snapshot_index + length r.logs
      → get_log_term r i ≡ some t
      → match_log r i term ≡ some (term == t)
  unfolding match_log
  match_log-eq i term t lo hi found = ground (arith, get_last_log_index-eq)

  pub entry_at-eq :
      (i : ℕ)
      → r.last_snapshot_index < i
      → i ≤ r.last_snapshot_index + length r.logs
      → entry_at r i ≡ get_elem? r.logs (i - r.last_snapshot_index - 1)
  unfolding entry_at
  entry_at-eq i lo hi = rw (get_slices_index-eq i lo hi)
