-- ===== src/Raft/Append/Entered.antt =====
-- The first part of `AppendEntries1`: a stale leader is refused, else its term is taken over.
use mathlib.Core.Path.{fun_ext}
use kv_raft_storage.Common.{
  ◌>>=◌, ap, refl, ℕ, ◌≤◌, ◌<◌, ◌≡◌, ◌∙◌, some, arith, inl, inr, Bool-cases, my_assert_pass, lt→ltb,
  le→not-ltb, eq→==, sym, none, ltb, if◌then◌else◌,
}
use kv_raft_storage.Raft.State.{Raft, Archive, follower, AppendEntriesArgs, AppendEntriesReply}
use kv_raft_storage.Raft.Log.{persist}
use kv_raft_storage.Raft.Vote.{step_down}
use kv_raft_storage.Raft.Invariant.{IsWf}
use kv_raft_storage.Raft.Append.{rejected, append_checked, append_entries}
use kv_raft_storage.Raft.Append.Total.{Fits}

module _ {F : Type 0} (args : AppendEntriesArgs) where
  -- The node when the message's term has been taken over.
  abbrev pub entered : ℕ → Raft F → Raft F
  entered now r = record (if ltb r.current_term args.term then step_down r args.term else r) {
    status = follower;
    last_reset_election = now;
  }

  pub entered-IsWf : (now : ℕ) {r : Raft F} → IsWf r → IsWf (entered now r)
  unfolding step_down
  entered-IsWf now {r} w = elim (Bool-cases (ltb r.current_term args.term)) [
    | inl later ↦ rw later assumption
    | inr same ↦ rw same assumption
  ]

  pub entered-Fits : (now : ℕ) {r : Raft F} → Fits args r → Fits args (entered now r)
  unfolding step_down
  entered-Fits now {r} f = elim (Bool-cases (ltb r.current_term args.term)) [
    | inl later ↦ rw later assumption
    | inr same ↦ rw same assumption
  ]

  pub entered-term :
      (now : ℕ) (r : Raft F) → r.current_term ≤ args.term → (entered now r).current_term ≡ args.term
  unfolding step_down
  entered-term now r h = ground arith

  module _ ⦃ar : Archive F⦄ where
    pub append_entries-stale :
        (now : ℕ) (r : Raft F)
        → args.term < r.current_term
        → append_entries now args r ≡ some (r, rejected r none)
    unfolding append_entries
    append_entries-stale now r h = rw (lt→ltb _ _ h)

    pub append_entries-entered :
        (now : ℕ) (r : Raft F) {out : Raft F} {reply : AppendEntriesReply}
        → r.current_term ≤ args.term
        → append_checked args (entered now r) ≡ some (out, reply)
        → append_entries now args r ≡ some (persist out, reply)
    unfolding append_entries
    append_entries-entered now r h e =
        rw (le→not-ltb _ _ h) (my_assert_pass _ _ (eq→== _ _ (sym (entered-term now r h))) ∙ rw e)

    pub append_entries-bind :
        (now : ℕ) (r : Raft F)
        → r.current_term ≤ args.term
        → append_entries now args r
          ≡ (append_checked args (entered now r) >>= λ out. some (persist out.0, out.1))
    unfolding append_entries
    append_entries-bind now r h = rw (le→not-ltb _ _ h) (
        my_assert_pass _ _ (eq→== _ _ (sym (entered-term now r h)))
        ∙ ap (λ k. append_checked args (entered now r) >>= k) (fun_ext λ out. refl))
