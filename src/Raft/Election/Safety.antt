-- ===== src/Raft/Election/Safety.antt =====
-- The votes of one node of raftCore/raft.cpp through its life.
use kv_raft_storage.Common.{
  some_inj, ℕ, ◌≤◌, ◌≡◌, sym, ap, ◌∙◌, inl, inr, List, [], ◌∷◌, ◌++◌, none, some, arith, All,
}
use kv_raft_storage.Raft.State.{Archive, Raft}
use kv_raft_storage.Raft.Log.{persist_data}
use kv_raft_storage.Raft.Election.{Vote, Life, born, lives}
use kv_raft_storage.Raft.Snapshot.{init}
use kv_raft_storage.Raft.Election.Others.{Step-Effect}
use kv_raft_storage.Raft.Election.Effect.{
  Effect, quiet, later, saved, restarted, term_of, vote_of, disk_term, disk_vote,
}

abbrev pub SameIfSameTerm : Vote → Vote → Type 0
SameIfSameTerm v w = v.term ≡ w.term → v.candidate ≡ w.candidate

-- Two votes of one term are for one candidate.
abbrev pub Consistent : List Vote → Type 0
Consistent [] = Unit
Consistent (v ∷ vs) = All (SameIfSameTerm v) vs × Consistent vs

module _ {F : Type 0} ⦃ar : Archive F⦄ where
  -- A vote is not of a later term than the file, and of the file's term only if the file has it.
  abbrev pub OnDisk : Raft F → Vote → Type 0
  OnDisk r v = (v.term ≤ disk_term r) × (v.term ≡ disk_term r → disk_vote r ≡ some v.candidate)

  pub record IsSafe (votes : List Vote) (r : Raft F) : Type 0 where
    pub disk_behind : disk_term r ≤ r.current_term
    pub disk_same : disk_term r ≡ r.current_term → disk_vote r ≡ r.voted_for
    pub on_disk : All (OnDisk r) votes
    pub consistent : Consistent votes

  All-OnDisk :
      (r r' : Raft F) (votes : List Vote)
      → disk_term r ≤ disk_term r'
      → ((c : ℕ) → disk_term r ≡ disk_term r' → disk_vote r ≡ some c → disk_vote r' ≡ some c)
      → All (OnDisk r) votes
      → All (OnDisk r') votes
  All-OnDisk r r' [] le keep h = tt
  All-OnDisk r r' (v ∷ vs) le keep ((below, same), hs) = (
    (omega arith, λ e. keep v.candidate (omega arith) (same (omega arith))),
    All-OnDisk r r' vs le keep hs,
  )

  -- A vote for the candidate that the file names agrees with all votes of its term.
  All-Same :
      (r : Raft F) (v : Vote) (votes : List Vote)
      → v.term ≡ disk_term r
      → disk_vote r ≡ some v.candidate
      → All (OnDisk r) votes
      → All (SameIfSameTerm v) votes
  All-Same r v [] at for h = tt
  All-Same r v (w ∷ ws) at for ((below, same), hs) =
      ((λ e. some_inj (sym for ∙ same (sym e ∙ at))), All-Same r v ws at for hs)

  disk-same :
      (r r' : Raft F)
      → r'.raft_file ≡ r.raft_file
      → (disk_term r' ≡ disk_term r) × (disk_vote r' ≡ disk_vote r)
  disk-same r r' e = (ap (λ f. term_of (ar.load f)) e, ap (λ f. vote_of (ar.load f)) e)

  disk-saved :
      (r' : Raft F)
      → ar.load r'.raft_file ≡ some (persist_data r')
      → (disk_term r' ≡ r'.current_term) × (disk_vote r' ≡ r'.voted_for)
  unfolding persist_data
  disk-saved r' e = (ap term_of e, ap vote_of e)

  still-OnDisk :
      (r r' : Raft F) (votes : List Vote)
      → r'.raft_file ≡ r.raft_file
      → All (OnDisk r) votes
      → All (OnDisk r') votes
  still-OnDisk r r' votes e h =
      let (dt, dv) = disk-same r r' e in
      All-OnDisk r r' votes (omega (arith, dt)) (λ c same has. dv ∙ has) h

  -- The votes of before, on the file that has just been written.
  saved-OnDisk :
      (r r' : Raft F) (votes : List Vote)
      → IsSafe votes r
      → ar.load r'.raft_file ≡ some (persist_data r')
      → r.current_term ≤ r'.current_term
      → ((c : ℕ) → r'.current_term ≡ r.current_term → r.voted_for ≡ some c → r'.voted_for ≡ some c)
      → All (OnDisk r') votes
  saved-OnDisk r r' votes s e le keep =
      let (dt, dv) = disk-saved r' e in
      All-OnDisk r r' votes (omega (arith, s.disk_behind, dt))
        (λ c same has.
          let at : disk_term r ≡ r.current_term = omega (arith, s.disk_behind, dt) in
          dv ∙ keep c (omega (arith, dt)) (sym (s.disk_same at) ∙ has))
        s.on_disk

  pub Effect-IsSafe :
      (r r' : Raft F) (cast votes : List Vote)
      → Effect r cast r'
      → IsSafe votes r
      → IsSafe (cast ++ votes) r'
  Effect-IsSafe r r' cast votes (quiet none_cast file term vote) s =
      let (dt, dv) = disk-same r r' file in
      rw none_cast (record {
        disk_behind = omega (arith, s.disk_behind, dt, term);
        disk_same = λ e. dv ∙ s.disk_same (omega (arith, dt, term)) ∙ sym vote;
        on_disk = still-OnDisk r r' votes file s.on_disk;
        consistent = s.consistent;
      })
  Effect-IsSafe r r' cast votes (later none_cast file lt) s =
      let (dt, dv) = disk-same r r' file in
      rw none_cast (record {
        disk_behind = omega (arith, s.disk_behind, dt);
        disk_same = λ e. absurd (omega (arith, s.disk_behind, dt));
        on_disk = still-OnDisk r r' votes file s.on_disk;
        consistent = s.consistent;
      })
  Effect-IsSafe r r' cast votes (restarted none_cast file term vote) s =
      let (dt, dv) = disk-same r r' file in
      rw none_cast (record {
        disk_behind = omega (arith, dt, term);
        disk_same = λ e. dv ∙ sym vote;
        on_disk = still-OnDisk r r' votes file s.on_disk;
        consistent = s.consistent;
      })
  Effect-IsSafe r r' cast votes (saved file le keep (inl none_cast)) s =
      let (dt, dv) = disk-saved r' file in
      rw none_cast (record {
        disk_behind = omega (arith, dt);
        disk_same = λ e. dv;
        on_disk = saved-OnDisk r r' votes s file le keep;
        consistent = s.consistent;
      })
  Effect-IsSafe r r' cast votes (saved file le keep (inr (c, one_cast, has))) s =
      let (dt, dv) = disk-saved r' file in
      let old = saved-OnDisk r r' votes s file le keep in
      rw one_cast (record {
        disk_behind = omega (arith, dt);
        disk_same = λ e. dv;
        on_disk = ((omega (arith, dt), λ e. dv ∙ has), old);
        consistent = (
          All-Same r' (record { term = r'.current_term; candidate = c }) votes (sym dt) (dv ∙ has)
              old,
          s.consistent,
        );
      })

  module _ (now peers me : ℕ) where
    abbrev newborn : Raft F
    newborn = init now peers me ar.blank []

    newborn-fields :
        (newborn.raft_file ≡ ar.blank) × (newborn.current_term ≡ 0) × (newborn.voted_for ≡ none)
    unfolding init
    newborn-fields = ground (arith, ar.load-blank)

    IsSafe-init : IsSafe [] newborn
    IsSafe-init =
        let (file, term, vote) = newborn-fields in
        let dt : disk_term newborn ≡ 0 =
          ap (λ f. term_of (ar.load f)) file ∙ ap term_of ar.load-blank in
        let dv : disk_vote newborn ≡ none =
          ap (λ f. vote_of (ar.load f)) file ∙ ap vote_of ar.load-blank in
        record {
          disk_behind = omega (arith, dt);
          disk_same = λ _. dv ∙ sym vote;
          on_disk = tt;
          consistent = tt;
        }

  pub Life-IsSafe :
      {now peers me : ℕ} {votes : List Vote} {r : Raft F}
      → Life now peers me votes r
      → IsSafe votes r
  Life-IsSafe {now} {peers} {me} born = IsSafe-init now peers me
  Life-IsSafe (lives {votes = votes} {r = r} r' cast life step) =
      Effect-IsSafe r r' cast votes (Step-Effect step) (Life-IsSafe life)

  -- Through any sequence of handlers, crashes and restarts from its first start on, a node never
  -- casts two votes in one term for different candidates, its own candidacies included; and what
  -- its file holds is never of a later term than its memory.
  pub one_vote_per_term :
      {now peers me : ℕ} {votes : List Vote} {r : Raft F}
      → Life now peers me votes r
      → Consistent votes × (disk_term r ≤ r.current_term)
  one_vote_per_term life = let s = Life-IsSafe life in (s.consistent, s.disk_behind)
