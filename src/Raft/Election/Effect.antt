-- ===== src/Raft/Election/Effect.antt =====
-- What a step may do to the term, the vote and the file that holds them.
use kv_raft_storage.Common.{ℕ, ◌≤◌, ◌<◌, ◌≡◌, ◌⊎◌, List, [], ◌∷◌, Option, none, some}
use kv_raft_storage.Raft.State.{Archive, Persisted, Raft}
use kv_raft_storage.Raft.Log.{persist_data}
use kv_raft_storage.Raft.Election.{Vote}

abbrev pub term_of : Option Persisted → ℕ
term_of none = 0
term_of (some p) = p.current_term

abbrev pub vote_of : Option Persisted → Option ℕ
vote_of none = none
vote_of (some p) = p.voted_for

module _ {F : Type 0} ⦃ar : Archive F⦄ where
  -- What a restart would read.
  abbrev pub disk_term : Raft F → ℕ
  disk_term r = term_of (ar.load r.raft_file)

  abbrev pub disk_vote : Raft F → Option ℕ
  disk_vote r = vote_of (ar.load r.raft_file)

  pub data Effect (r : Raft F) (votes : List Vote) (r' : Raft F) : Type 0 where
    quiet :
        votes ≡ []
        → r'.raft_file ≡ r.raft_file
        → r'.current_term ≡ r.current_term
        → r'.voted_for ≡ r.voted_for
        → Effect r votes r'
    -- `sendAppendEntries` goes to a later term and does not persist it.
    later :
        votes ≡ []
        → r'.raft_file ≡ r.raft_file
        → r.current_term < r'.current_term
        → Effect r votes r'
    saved :
        ar.load r'.raft_file ≡ some (persist_data r')
        → r.current_term ≤ r'.current_term
        → ((c : ℕ)
            → r'.current_term ≡ r.current_term
            → r.voted_for ≡ some c
            → r'.voted_for ≡ some c)
        → (votes ≡ [])
          ⊎ ((c : ℕ) × (votes ≡ record { term = r'.current_term; candidate = c } ∷ [])
              × (r'.voted_for ≡ some c))
        → Effect r votes r'
    restarted :
        votes ≡ []
        → r'.raft_file ≡ r.raft_file
        → r'.current_term ≡ disk_term r
        → r'.voted_for ≡ disk_vote r
        → Effect r votes r'
