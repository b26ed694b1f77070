-- ===== src/Raft/Election/Installs.antt =====
-- The effect of `InstallSnapshot` on the vote.
use kv_raft_storage.Common.{
  ℕ, ◌≡◌, refl, sym, ap, ◌∙◌, ◌⊎◌, inl, inr, [], some, arith, false, ltb, if◌then◌else◌, dec_lt,
  some_inj, ◌>>=◌, >>=-eq-some, le→not-ltb, lt→ltb, lt→not-leb,
}
use kv_raft_storage.Raft.State.{Archive, Raft, follower, InstallSnapshotRequest}
use kv_raft_storage.Raft.Log.{persist_data, persist}
use kv_raft_storage.Raft.Vote.{step_down}
use kv_raft_storage.Raft.Snapshot.{logs_behind, replace_log, install_snapshot}
use kv_raft_storage.Raft.Election.Effect.{Effect, quiet}
use kv_raft_storage.Raft.Election.Handlers.{persisted, stepped}

module _ {F : Type 0} ⦃ar : Archive F⦄ where
  replace_log-saved :
      (args : InstallSnapshotRequest) (r : Raft F) {r' : Raft F}
      → replace_log args r ≡ some r'
      → (ar.load r'.raft_file ≡ some (persist_data r'))
        × (r'.current_term ≡ r.current_term)
        × (r'.voted_for ≡ r.voted_for)
  unfolding replace_log
  replace_log-saved args r {r'} h =
      let (rest, _, done) = >>=-eq-some (logs_behind args.last_snapshot_index r) _ h in
      let end = some_inj done in
      (
        rw (← end) (ar.load-dump _),
        sym (ap (λ (x : Raft F). x.current_term) end),
        sym (ap (λ (x : Raft F). x.voted_for) end),
      )

  -- `InstallSnapshot` once the term is taken over.
  abbrev settled : ℕ → InstallSnapshotRequest → Raft F → Raft F
  settled now args r =
      record (if ltb r.current_term args.term then persist (step_down r args.term) else r) {
        status = follower;
        last_reset_election = now;
      }

  settled-Effect :
      (now : ℕ) (args : InstallSnapshotRequest) (r : Raft F) → Effect r [] (settled now args r)
  unfolding persist step_down
  settled-Effect now args r = elim (dec_lt r.current_term args.term) [
    | yes h ↦ rw (lt→ltb _ _ h) (stepped r _ args.term [] refl h refl (ar.load-dump _))
    | no h ↦ rw (le→not-ltb r.current_term args.term (omega arith)) (quiet refl refl refl refl)
  ]

  replaced-Effect :
      (now : ℕ) (args : InstallSnapshotRequest) (r r' : Raft F)
      → ar.load r'.raft_file ≡ some (persist_data r')
      → r'.current_term ≡ (settled now args r).current_term
      → r'.voted_for ≡ (settled now args r).voted_for
      → Effect r [] r'
  unfolding persist step_down
  replaced-Effect now args r r' file term vote = elim (dec_lt r.current_term args.term) [
    | yes h ↦
        let t : r'.current_term ≡ args.term = rw (lt→ltb _ _ h) at term in
        stepped r r' args.term [] refl h t file
    | no h ↦
        let old : ltb r.current_term args.term ≡ false = le→not-ltb _ _ (omega arith) in
        let t : r'.current_term ≡ r.current_term = rw old at term in
        let v : r'.voted_for ≡ r.voted_for = rw old at vote in persisted r r' [] refl file t v
  ]

  install-cases :
      (now : ℕ) (args : InstallSnapshotRequest) (r : Raft F) {r' : Raft F} {t : ℕ}
      → install_snapshot now args r ≡ some (r', t)
      → (r' ≡ r) ⊎ ((r' ≡ settled now args r) ⊎ (replace_log args (settled now args r) ≡ some r'))
  unfolding install_snapshot
  install-cases now args r {r'} {t} h = elim (dec_lt args.term r.current_term) [
    | yes stale ↦ inl (ground arith)
    | no fresh ↦ elim (dec_lt (settled now args r).last_snapshot_index args.last_snapshot_index) [
      | no outdated ↦ inr (inl (ground arith))
      | yes newer ↦
          let e : (replace_log args (settled now args r) >>= λ out. some (out, out.current_term))
              ≡ some (r', t) =
            rw
              (
                le→not-ltb args.term r.current_term (omega arith),
                lt→not-leb args.last_snapshot_index (settled now args r).last_snapshot_index newer,
              )
              at h in
          let (out, replaced, done) = >>=-eq-some _ _ e in
          inr (inr (replaced ∙ ap (λ (o : Raft F × ℕ). some o.0) (some_inj done)))
    ]
  ]

  pub answers_install-Effect :
      (now : ℕ) (args : InstallSnapshotRequest) (r : Raft F) {r' : Raft F} {t : ℕ}
      → install_snapshot now args r ≡ some (r', t)
      → Effect r [] r'
  answers_install-Effect now args r {r'} h = elim (install-cases now args r h) [
    | inl same ↦ rw same (quiet refl refl refl refl)
    | inr (inl settles) ↦ rw settles (settled-Effect now args r)
    | inr (inr replaced) ↦
        let (file, term, vote) = replace_log-saved args (settled now args r) replaced in
        replaced-Effect now args r r' file term vote
  ]
