-- ===== src/Raft/Log.antt =====
-- Reading the log: the accessors of raftCore/raft.cpp, which translate a logical index into a place
-- in `m_logs` and end the process where their `myAssert` fails.
use kv_raft_storage.Common.{
  ℕ, ◌+◌, ◌-◌, Bool, ◌&&◌, ◌||◌, List, [], ◌∷◌, Option, some, ltb, leb, ◌==◌, if◌then◌else◌,
  get_elem?, ◌>>=◌, ◌>>◌, my_assert,
}
use kv_raft_storage.Raft.State.{LogEntry, Persisted, Archive, Raft}

-- The index and the term of the last entry, or those given for an empty log.
abbrev pub last_of : ℕ → ℕ → List LogEntry → ℕ × ℕ
last_of index term [] = (index, term)
last_of index term (e ∷ es) = last_of e.log_index e.log_term es

module _ {F : Type 0} where
  unfoldable pub get_last_log_index_and_term : Raft F → ℕ × ℕ
  get_last_log_index_and_term r = last_of r.last_snapshot_index r.last_snapshot_term r.logs

  unfoldable pub get_last_log_index : Raft F → ℕ
  unfolding get_last_log_index_and_term
  get_last_log_index r = (get_last_log_index_and_term r).0

  unfoldable pub get_last_log_term : Raft F → ℕ
  unfolding get_last_log_index_and_term
  get_last_log_term r = (get_last_log_index_and_term r).1

  unfoldable pub get_new_command_index : Raft F → ℕ
  get_new_command_index r = get_last_log_index r + 1

  -- `getSlicesIndexFromLogIndex`: both asserts, then the subtraction.
  unfoldable pub get_slices_index : Raft F → ℕ → Option ℕ
  unfolding my_assert
  get_slices_index r log_index = do
    my_assert (ltb r.last_snapshot_index log_index)
    my_assert (leb log_index (get_last_log_index r))
    some (log_index - r.last_snapshot_index - 1)

  -- `m_logs[getSlicesIndexFromLogIndex(logIndex)]`
  unfoldable pub entry_at : Raft F → ℕ → Option LogEntry
  unfolding get_slices_index
  entry_at r log_index = do i ← get_slices_index r log_index; get_elem? r.logs i

  unfoldable pub get_log_term : Raft F → ℕ → Option ℕ
  unfolding my_assert entry_at
  get_log_term r log_index = do
    my_assert (leb r.last_snapshot_index log_index)
    my_assert (leb log_index (get_last_log_index r))
    if log_index == r.last_snapshot_index
        then some r.last_snapshot_term
        else do e ← entry_at r log_index; some e.log_term

  unfoldable pub match_log : Raft F → ℕ → ℕ → Option Bool
  unfolding my_assert get_log_term
  match_log r log_index log_term = do
    my_assert (leb r.last_snapshot_index log_index && leb log_index (get_last_log_index r))
    t ← get_log_term r log_index
    some (log_term == t)

  unfoldable pub up_to_date : Raft F → ℕ → ℕ → Bool
  up_to_date r index term =
      let last_index = get_last_log_index r in
      let last_term = get_last_log_term r in
      ltb last_term term || (term == last_term && leb last_index index)

  unfoldable pub persist_data : Raft F → Persisted
  persist_data r = record {
    current_term = r.current_term;
    voted_for = r.voted_for;
    last_snapshot_index = r.last_snapshot_index;
    last_snapshot_term = r.last_snapshot_term;
    logs = r.logs;
  }

  module _ ⦃ar : Archive F⦄ where
    unfoldable pub persist : Raft F → Raft F
    unfolding persist_data
    persist r = record r { raft_file = ar.dump (persist_data r) }
