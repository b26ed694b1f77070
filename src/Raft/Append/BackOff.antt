-- ===== src/Raft/Append/BackOff.antt =====
-- The search of `AppendEntries1` for the index that it asks the leader to go back to.
use kv_raft_storage.Common.{
  ℕ, zero, suc, ◌+◌, ◌-◌, ◌≤◌, ◌<◌, ◌≡◌, refl, ap, ◌≢◌, some, false, ℕ_discrete, arith, length,
  ◌==◌, ==_iff, inl, inr, Bool-cases,
}
use kv_raft_storage.Raft.State.{Raft}
use kv_raft_storage.Raft.Log.{get_log_term}
use kv_raft_storage.Raft.Contiguous.{Contiguous}
use kv_raft_storage.Raft.Invariant.{get_log_term-total}
use kv_raft_storage.Raft.Append.{back_off}

module _ {F : Type 0} (r : Raft F) where
  -- The hint is not behind `prev`, and every entry from it to `prev` is of the term that conflicts.
  pub record IsHint (prev hint : ℕ) : Type 0 where
    pub le_prev : hint ≤ prev
    pub one_term : (j : ℕ) → hint ≤ j → j ≤ prev → get_log_term r j ≡ get_log_term r prev

  pub IsHint-self : (prev : ℕ) → IsHint prev prev
  IsHint-self prev = record {
    le_prev = omega arith;
    one_term = λ j lo hi. let e : j ≡ prev = omega arith in rw e;
  }

module _ {F : Type 0} (r : Raft F) (c : Contiguous r.last_snapshot_index r.logs) where
  -- The loop ends with a hint, from any round on.
  pub back_off-IsHint :
      (prev s n index : ℕ)
      → get_log_term r prev ≡ some s
      → prev ≤ r.last_snapshot_index + length r.logs
      → index ≤ prev
      → r.last_snapshot_index + n ≤ index + 1
      → ((j : ℕ) → index < j → j ≤ prev → get_log_term r j ≡ some s)
      → (hint : ℕ) × (back_off r prev n index ≡ some hint) × IsHint r prev hint
  unfolding back_off
  back_off-IsHint prev s zero index ps hi le fits same = (prev, refl, IsHint-self r prev)
  back_off-IsHint prev s (suc n) index ps hi le fits same =
      let (t, found) = get_log_term-total r c index (omega arith) (omega arith) in
      elim (Bool-cases (t == s)) [
        | inr other ↦ (
          index + 1,
          rw (found, ps, other),
          record {
            le_prev = let ne = elsewhere found other in omega arith;
            one_term = λ j lo hi'. rw (same j (omega arith) hi', ps);
          },
        )
        | inl equal ↦
            rw (found, ps, equal)
              (back_off-IsHint prev s n (index - 1) ps hi (omega arith) (omega arith) (λ j lo hi'.
                elim (ℕ_discrete j index) [
                  | yes e ↦ rw (e, found) (ap some ((==_iff t s).0 equal))
                  | no ne ↦ same j (omega arith) hi'
                ]))
      ]
    where
      elsewhere : {t : ℕ} → get_log_term r index ≡ some t → (t == s) ≡ false → index ≢ prev
      elsewhere found other e = ground (arith, ap (λ i. get_log_term r i) e)
