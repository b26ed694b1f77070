-- ===== src/Raft/Leader/Sends.antt =====
-- The messages of `doHeartBeat` (raftCore/raft.cpp).
use kv_raft_storage.Common.{
  ℕ, zero, suc, ◌+◌, ◌-◌, ◌≤◌, ◌<◌, ◌≡◌, refl, sym, ap, subst, ◌∙◌, inl, inr, true, List, [], ◌∷◌,
  some, arith, length, drop, get_elem?, length-drop, get_elem?-drop, my_assert_pass, le→leb,
  lt→not-leb, eq→==, Bool-cases, ◌==◌, dec_le, All, All-append, ==_iff, get_elem?-total,
}
use kv_raft_storage.Raft.State.{Raft, AppendEntriesArgs}
use kv_raft_storage.Raft.Log.{entry_at, get_log_term}
use kv_raft_storage.Raft.Contiguous.{Contiguous, drop-Contiguous}
use kv_raft_storage.Raft.Invariant.{
  IsWf, get_last_log_index-eq, get_slices_index-eq, entry_at-total, entry_at-eq, get_log_term-entry,
  get_log_term-snapshot,
}
use kv_raft_storage.Raft.Vote.{is_leader, others_below}
use kv_raft_storage.Raft.Leader.{
  Send, send_entries, send_snapshot, next_of, get_prev_log_info, entries_from, heartbeat_for,
  heartbeats, do_heartbeat,
}

module _ {F : Type 0} where
  -- The message carries the log of `r` behind its `prev_log_index`, to the end.
  pub record IsSuffix (args : AppendEntriesArgs) (r : Raft F) : Type 0 where
    pub prev_term : get_log_term r args.prev_log_index ≡ some args.prev_log_term
    pub from_snapshot : r.last_snapshot_index ≤ args.prev_log_index
    pub reaches_end :
        args.prev_log_index + length args.entries ≡ r.last_snapshot_index + length r.logs
    pub follows : Contiguous args.prev_log_index args.entries
    pub entry :
        (i : ℕ)
        → i < length args.entries
        → get_elem? args.entries i ≡ entry_at r (args.prev_log_index + i + 1)
    pub term : args.term ≡ r.current_term
    pub commit : args.leader_commit ≡ r.commit_index

  -- What is sent to a node whose `nextIndex` is `next`.
  pub data Sent (r : Raft F) (server next : ℕ) : Send → Type 0 where
    sends_snapshot : next ≤ r.last_snapshot_index → Sent r server next (send_snapshot server)
    sends_suffix :
        (args : AppendEntriesArgs)
        → suc args.prev_log_index ≡ next
        → IsSuffix args r
        → Sent r server next (send_entries server args)

module _ {F : Type 0} (r : Raft F) (w : IsWf r) where
  entries_from-eq :
      (prev : ℕ)
      → r.last_snapshot_index ≤ prev
      → prev ≤ r.last_snapshot_index + length r.logs
      → entries_from r prev ≡ some (drop (prev - r.last_snapshot_index) r.logs)
  unfolding entries_from
  entries_from-eq prev lo hi = elim (Bool-cases (prev == r.last_snapshot_index)) [
    | inl here ↦
        let e : prev ≡ r.last_snapshot_index = (==_iff _ _).0 here in
        let z : prev - r.last_snapshot_index ≡ 0 = omega arith in rw (here, z)
    | inr behind ↦
        let less : r.last_snapshot_index < prev = ground arith in
        let p : prev - r.last_snapshot_index - 1 + 1 ≡ prev - r.last_snapshot_index = omega arith in
        rw (behind, get_slices_index-eq r w.contiguous prev less hi, p)
  ]

  get_prev_log_info-eq :
      (server next : ℕ)
      → next_of r server ≡ some next
      → r.last_snapshot_index < next
      → next ≤ r.last_snapshot_index + length r.logs + 1
      → (t : ℕ) × (get_prev_log_info r server ≡ some (next - 1, t))
        × (get_log_term r (next - 1) ≡ some t)
  unfolding get_prev_log_info
  get_prev_log_info-eq server next at lo hi =
      elim (Bool-cases (next == r.last_snapshot_index + 1)) [
        | inl first ↦
            let e : next ≡ r.last_snapshot_index + 1 = (==_iff _ _).0 first in
            let z : next - 1 ≡ r.last_snapshot_index = omega arith in
            (r.last_snapshot_term, rw (at, first, z), rw z (get_log_term-snapshot r w.contiguous))
        | inr later ↦
            let less : r.last_snapshot_index < next - 1 = ground arith in
            let (e, found, _, _) = entry_at-total r w.contiguous (next - 1) less (omega arith) in
            (
              e.log_term,
              rw (at, later, found),
              get_log_term-entry r w.contiguous (next - 1) e less found,
            )
      ]

  suffix : ℕ → ℕ → AppendEntriesArgs
  suffix prev t = record {
    term = r.current_term;
    leader_id = r.me;
    prev_log_index = prev;
    prev_log_term = t;
    entries = drop (prev - r.last_snapshot_index) r.logs;
    leader_commit = r.commit_index;
  }

  suffix-IsSuffix :
      (prev t : ℕ)
      → r.last_snapshot_index ≤ prev
      → prev ≤ r.last_snapshot_index + length r.logs
      → get_log_term r prev ≡ some t
      → IsSuffix (suffix prev t) r
  unfolding suffix
  suffix-IsSuffix prev t lo hi found =
      let n = prev - r.last_snapshot_index in
      record {
        prev_term = found;
        from_snapshot = lo;
        reaches_end = omega (arith, length-drop n r.logs);
        follows = drop-Contiguous r.last_snapshot_index n prev r.logs w.contiguous (omega arith);
        entry = λ i inside.
            let place : n + i ≡ prev + i + 1 - r.last_snapshot_index - 1 = omega arith in
            get_elem?-drop r.logs n i
            ∙ ap (λ k. get_elem? r.logs k) place
            ∙ sym (
                entry_at-eq r w.contiguous (prev + i + 1) (omega arith)
                  (omega (arith, inside, length-drop n r.logs)));
        term = refl;
        commit = refl;
      }

  heartbeat_for-Sent :
      (server next : ℕ)
      → next_of r server ≡ some next
      → 1 ≤ next
      → next ≤ r.last_snapshot_index + length r.logs + 1
      → (m : Send) × (heartbeat_for r server ≡ some m) × Sent r server next m
  unfolding heartbeat_for suffix
  heartbeat_for-Sent server next at one hi = elim (dec_le next r.last_snapshot_index) [
    | yes old ↦ (
      send_snapshot server,
      rw at (my_assert_pass _ _ (le→leb 1 next one) ∙ rw (le→leb next r.last_snapshot_index old)),
      sends_snapshot old,
    )
    | no new ↦
        let lo : r.last_snapshot_index < next = omega arith in
        let (t, info, found) = get_prev_log_info-eq server next at lo hi in
        let entries = drop (next - 1 - r.last_snapshot_index) r.logs in
        (
          send_entries server (suffix (next - 1) t),
          rw at (
              my_assert_pass _ _ (le→leb 1 next one)
              ∙ rw
                  (
                    lt→not-leb next r.last_snapshot_index lo,
                    info,
                    entries_from-eq (next - 1) (omega arith) (omega arith),
                  )
                  (my_assert_pass _ _ (
                    eq→== _ _ (
                      omega (
                        arith,
                        get_last_log_index-eq r w.contiguous,
                        length-drop (next - 1 - r.last_snapshot_index) r.logs,
                      ))))),
          sends_suffix (suffix (next - 1) t) (omega arith)
              (suffix-IsSuffix (next - 1) t (omega arith) (omega arith) found),
        )
  ]

-- The messages for the servers, in order.
pub data SentAll {F : Type 0} (r : Raft F) : List ℕ → List Send → Type 0 where
  no_more : SentAll r [] []
  one_more :
      {server next : ℕ} {m : Send} {servers : List ℕ} {ms : List Send}
      → next_of r server ≡ some next
      → Sent r server next m
      → SentAll r servers ms
      → SentAll r (server ∷ servers) (m ∷ ms)

others_below-known : (me n : ℕ) → All (λ s. s < n) (others_below me n)
unfolding others_below
others_below-known me zero = tt
others_below-known me (suc n) = elim (Bool-cases (n == me)) [
  | inl self ↦ rw self (weaker n (others_below me n) (others_below-known me n))
  | inr other ↦ rw other (
      All-append (λ s. s < suc n) (others_below me n) (n ∷ [])
        (weaker n (others_below me n) (others_below-known me n)) (omega arith, tt))
]
  where
    weaker : (n : ℕ) (xs : List ℕ) → All (λ s. s < n) xs → All (λ s. s < suc n) xs
    weaker n [] h = tt
    weaker n (x ∷ xs) h = (omega (arith, h.0), weaker n xs h.1)

module _ {F : Type 0} where
  -- Every `nextIndex` is from 1 to one past the log.
  abbrev pub NextInRange : Raft F → Type 0
  NextInRange r =
      (server next : ℕ)
      → next_of r server ≡ some next
      → (1 ≤ next) × (next ≤ r.last_snapshot_index + length r.logs + 1)

  heartbeats-SentAll :
      (r : Raft F) (servers : List ℕ)
      → IsWf r
      → NextInRange r
      → All (λ s. s < length r.next_index) servers
      → (ms : List Send) × (heartbeats r servers ≡ some ms) × SentAll r servers ms
  unfolding heartbeats
  heartbeats-SentAll r [] w range known = ([], refl, no_more)
  heartbeats-SentAll r (server ∷ servers) w range known =
      let (next, at) = get_elem?-total r.next_index server known.0 in
      let (one, hi) = range server next at in
      let (m, sent, is) = heartbeat_for-Sent r w server next at one hi in
      let (ms, rest, are) = heartbeats-SentAll r servers w range known.1 in
      (m ∷ ms, rw (sent, rest), one_more at is are)

  -- On a well-formed leader whose `nextIndex` values are from 1 to one past its log, `doHeartBeat`
  -- returns, so that no assert fails. Each other node gets, in order, a snapshot if its `nextIndex`
  -- is not behind the snapshot; else a message whose `prevlogindex` is one before `nextIndex`, with
  -- the term that the log has there, and whose entries are the rest of the log, whole and in order.
  pub do_heartbeat-SentAll :
      (now : ℕ) (r : Raft F)
      → IsWf r
      → is_leader r.status ≡ true
      → NextInRange r
      → (ms : List Send) × (do_heartbeat now r ≡ some (record r { last_reset_heartbeat = now }, ms))
        × SentAll r (others_below r.me r.peers) ms
  unfolding do_heartbeat
  do_heartbeat-SentAll now r w leads range =
      let known =
        subst (λ n. All (λ s. s < n) (others_below r.me r.peers)) (sym w.next_sized)
          (others_below-known r.me r.peers) in
      let (ms, sent, are) = heartbeats-SentAll r (others_below r.me r.peers) w range known in
      (ms, rw (leads, sent), are)
