-- ===== src/Raft/Leader/Commit.antt =====
-- `leaderUpdateCommitIndex`: the commit index that a leader works out from what its followers have.
use kv_raft_storage.Common.{
  ℕ, zero, suc, ◌+◌, ◌-◌, ◌/◌, ◌≤◌, ◌<◌, ◌≡◌, ◌⊎◌, refl, sym, ap, ◌∙◌, inl, inr, some, arith,
  length, leb, ◌==◌, if◌then◌else◌, Bool-cases, get_elem?-total, some_inj,
}
use kv_raft_storage.Raft.State.{Raft}
use kv_raft_storage.Raft.Log.{get_log_term}
use kv_raft_storage.Raft.Invariant.{IsWf, get_last_log_index-eq, get_log_term-total}
use kv_raft_storage.Raft.Leader.{count_matched, commit_search, leader_update_commit_index}

module _ {F : Type 0} (r : Raft F) where
  -- More than half of the nodes are known to hold the entry, the leader among them.
  pub Majority : ℕ → Type 0
  Majority index =
      (holders : ℕ) × (count_matched r index r.peers ≡ some holders) × (r.peers / 2 + 1 ≤ holders)

  -- What may be committed: an entry of the current term that a majority holds.
  pub CanCommit : ℕ → Type 0
  CanCommit index = Majority index × (get_log_term r index ≡ some r.current_term)

  -- The highest index up to `bound` that may be committed, or the snapshot's.
  pub record IsHighest (bound index : ℕ) : Type 0 where
    pub past_snapshot : r.last_snapshot_index ≤ index
    pub in_bound : index ≤ bound
    pub committed : (index ≡ r.last_snapshot_index) ⊎ CanCommit index
    pub none_above : (j : ℕ) → index < j → j ≤ bound → ¬ CanCommit j

  module _ (w : IsWf r) where
    count_matched-total :
        (index n : ℕ) → n ≤ r.peers → (sum : ℕ) × (count_matched r index n ≡ some sum)
    unfolding count_matched
    count_matched-total index zero le = (0, refl)
    count_matched-total index (suc n) le =
        let (sum, e) = count_matched-total index n (omega arith) in
        let (m, at) = get_elem?-total r.match_index n (omega (arith, w.match_sized)) in
        elim (Bool-cases (n == r.me)) [
          | inl here ↦ (sum + 1, rw (e, here))
          | inr away ↦ (if leb index m then sum + 1 else sum, rw (e, away, at))
        ]

    commit_search-IsHighest :
        (n index : ℕ)
        → index ≡ r.last_snapshot_index + n
        → index ≤ r.last_snapshot_index + length r.logs
        → (c : ℕ) × (commit_search r n index ≡ some (record r { commit_index = c }))
          × IsHighest index c
    unfolding commit_search CanCommit Majority
    commit_search-IsHighest zero index e le = (
      r.last_snapshot_index,
      refl,
      record {
        past_snapshot = omega arith;
        in_bound = omega arith;
        committed = inl refl;
        none_above = λ j lo hi. absurd (omega arith);
      },
    )
    commit_search-IsHighest (suc n) index e le =
        let (sum, counted) = count_matched-total index r.peers (omega arith) in
        let (term, at) = get_log_term-total r w.contiguous index (omega arith) le in
        let (c, rest, h) = commit_search-IsHighest n (index - 1) (omega arith) (omega arith) in
        let below : ¬ CanCommit index → IsHighest index c = λ cannot. record {
          past_snapshot = h.past_snapshot;
          in_bound = let b = h.in_bound in omega arith;
          committed = h.committed;
          none_above = λ j lo hi. at_or_below index c j h cannot lo hi;
        } in
        elim (Bool-cases (leb (r.peers / 2 + 1) sum)) [
          | inl many ↦ elim (Bool-cases (term == r.current_term)) [
            | inl current ↦
                let same : term ≡ r.current_term = ground arith in
                (
                  index,
                  rw (counted, many, at, current),
                  record {
                    past_snapshot = omega arith;
                    in_bound = omega arith;
                    committed = inr ((sum, counted, ground arith), at ∙ ap some same);
                    none_above = λ j lo hi. absurd (omega arith);
                  },
                )
            | inr older ↦ (
              c,
              rw (counted, many, at, older) rest,
              below (λ can. let t = some_inj (sym at ∙ can.1) in absurd (ground arith)),
            )
          ]
          | inr few ↦ (
            c,
            rw (counted, few) rest,
            below (λ can.
                let (k, again, more) = can.0 in
                let t = some_inj (sym counted ∙ again) in absurd (ground arith)),
          )
        ]
      where
        at_or_below :
            (index c j : ℕ)
            → IsHighest (index - 1) c
            → ¬ CanCommit index
            → c < j
            → j ≤ index
            → ¬ CanCommit j
        at_or_below index c j h cannot lo hi = elim (Bool-cases (j == index)) [
          | inl top ↦ let same : j ≡ index = ground arith in rw same cannot
          | inr lower ↦ h.none_above j lo (ground arith)
        ]

    -- On a well-formed leader the result is the highest index of the log whose entry is of the leader's
    -- current term and is held by more than half of the nodes, and the index of the last snapshot where
    -- there is none. Nothing else of the node changes.
    pub leader_update_commit_index-IsHighest :
        (c : ℕ) × (leader_update_commit_index r ≡ some (record r { commit_index = c }))
        × IsHighest (r.last_snapshot_index + length r.logs) c
    unfolding leader_update_commit_index
    leader_update_commit_index-IsHighest =
        let last = get_last_log_index-eq r w.contiguous in
        let rounds : r.last_snapshot_index + length r.logs - r.last_snapshot_index ≡ length r.logs =
          omega arith in
        rw (last, rounds)
          (commit_search-IsHighest (length r.logs) (r.last_snapshot_index + length r.logs) refl
            (omega arith))
