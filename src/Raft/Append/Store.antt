-- ===== src/Raft/Append/Store.antt =====
-- The loop of `AppendEntries1` (raftCore/raft.cpp) over the entries of a message, and the log of
-- `Overlay`.
use kv_raft_storage.Common.{
  ℕ, zero, suc, ◌+◌, ◌≤◌, ◌<◌, ◌≡◌, refl, ap, subst, List, [], ◌∷◌, ◌++◌, some, true, false, dec_lt,
  arith, length, get_elem?, set, get_elem?-total, ◌==◌, bytes_eq_iff, inl, inr, ◌∙◌, ==_iff,
  Bool-cases,
}
use kv_raft_storage.Raft.State.{LogEntry, Raft}
use kv_raft_storage.Raft.Log.{get_last_log_index, get_slices_index}
use kv_raft_storage.Raft.Contiguous.{Contiguous}
use kv_raft_storage.Raft.Invariant.{get_last_log_index-eq, get_slices_index-eq}
use kv_raft_storage.Raft.Append.{store_entry, store_entries}
use kv_raft_storage.Raft.Append.Overlay.{keep_or_replace, overlay, Agree, overlay-nil}

-- One entry at position `p`.
abbrev pub stored : ℕ → LogEntry → List LogEntry → List LogEntry
stored zero n [] = n ∷ []
stored zero n (o ∷ os) = keep_or_replace o n ∷ os
stored (suc p) n [] = []
stored (suc p) n (o ∷ os) = o ∷ stored p n os

stored-end : (logs : List LogEntry) (n : LogEntry) → stored (length logs) n logs ≡ logs ++ n ∷ []
stored-end [] n = refl
stored-end (o ∷ os) n = ap (◌∷◌ o) (stored-end os n)

stored-same :
    (p : ℕ) (logs : List LogEntry) (n o : LogEntry)
    → get_elem? logs p ≡ some o
    → (o.log_term == n.log_term) ≡ true
    → stored p n logs ≡ logs
stored-same p [] n o h e = ground arith
stored-same zero (x ∷ os) n o h e = ground arith
stored-same (suc p) (x ∷ os) n o h e = ap (◌∷◌ x) (stored-same p os n o h e)

stored-other :
    (p : ℕ) (logs : List LogEntry) (n o : LogEntry)
    → get_elem? logs p ≡ some o
    → (o.log_term == n.log_term) ≡ false
    → stored p n logs ≡ set logs p n
stored-other p [] n o h e = ground arith
stored-other zero (x ∷ os) n o h e = ground arith
stored-other (suc p) (x ∷ os) n o h e = ap (◌∷◌ x) (stored-other p os n o h e)

pub stored-Contiguous :
    (base p : ℕ) (n : LogEntry) (logs : List LogEntry)
    → Contiguous base logs
    → n.log_index ≡ base + p + 1
    → Contiguous base (stored p n logs)
stored-Contiguous base zero n [] c h = (omega arith, tt)
stored-Contiguous base zero n (o ∷ os) c h = elim (Bool-cases (o.log_term == n.log_term)) [
  | inl same ↦ rw same c
  | inr other ↦ rw other (omega arith, c.1)
]
stored-Contiguous base (suc p) n [] c h = tt
stored-Contiguous base (suc p) n (o ∷ os) c h =
    (c.0, stored-Contiguous (suc base) p n os c.1 (omega arith))

pub length-stored :
    (p : ℕ) (n : LogEntry) (logs : List LogEntry)
    → p ≤ length logs
    → (length logs ≤ length (stored p n logs)) × (p < length (stored p n logs))
length-stored zero n [] h = omega arith
length-stored zero n (o ∷ os) h = omega arith
length-stored (suc p) n [] h = absurd (omega arith)
length-stored (suc p) n (o ∷ os) h = omega (arith, length-stored p n os (omega arith))

-- The entries before the one stored do not change, so those behind still agree.
stored-Agree :
    (p : ℕ) (n : LogEntry) (ns logs : List LogEntry)
    → Agree p logs (n ∷ ns)
    → Agree (suc p) (stored p n logs) ns
stored-Agree zero n [] [] a = tt
stored-Agree zero n (m ∷ ns) [] a = tt
stored-Agree zero n ns (o ∷ os) a = a.1
stored-Agree (suc p) n ns [] a = tt
stored-Agree (suc p) n ns (o ∷ os) a = stored-Agree p n ns os a

Agree-head :
    (p : ℕ) (n o : LogEntry) (ns logs : List LogEntry)
    → Agree p logs (n ∷ ns)
    → get_elem? logs p ≡ some o
    → o.log_term ≡ n.log_term
    → o.command ≡ n.command
Agree-head p n o ns [] a h e = ground arith
Agree-head zero n o ns (x ∷ os) a h e = ground (arith, a.0)
Agree-head (suc p) n o ns (x ∷ os) a h e = Agree-head p n o ns os a h e

overlay-stored :
    (p : ℕ) (n : LogEntry) (ns logs : List LogEntry)
    → p ≤ length logs
    → overlay (suc p) (stored p n logs) ns ≡ overlay p logs (n ∷ ns)
overlay-stored zero n [] [] h = refl
overlay-stored zero n (m ∷ ns) [] h = refl
overlay-stored zero n ns (o ∷ os) h = refl
overlay-stored (suc p) n ns [] h = absurd (omega arith)
overlay-stored (suc p) n ns (o ∷ os) h = ap (◌∷◌ o) (overlay-stored p n ns os (omega arith))

module _ {F : Type 0} (n : LogEntry) (r : Raft F) where
  store_entry-end :
      get_last_log_index r < n.log_index
      → store_entry n r ≡ some (record r { logs = r.logs ++ n ∷ [] })
  unfolding store_entry
  store_entry-end h = ground arith

  store_entry-same :
      (i : ℕ) (o : LogEntry)
      → n.log_index ≤ get_last_log_index r
      → get_slices_index r n.log_index ≡ some i
      → get_elem? r.logs i ≡ some o
      → (o.log_term == n.log_term) ≡ true
      → o.command ≡ n.command
      → store_entry n r ≡ some r
  unfolding store_entry
  store_entry-same i o h place found same agree =
      ground (arith, (bytes_eq_iff o.command n.command).1 agree)

  store_entry-other :
      (i : ℕ) (o : LogEntry)
      → n.log_index ≤ get_last_log_index r
      → get_slices_index r n.log_index ≡ some i
      → get_elem? r.logs i ≡ some o
      → (o.log_term == n.log_term) ≡ false
      → store_entry n r ≡ some (record r { logs = set r.logs i n })
  unfolding store_entry
  store_entry-other i o h place found other = ground arith

module _ {F : Type 0} where
  store_entry-stored :
      (p : ℕ) (n : LogEntry) (ns : List LogEntry) (r : Raft F)
      → Contiguous r.last_snapshot_index r.logs
      → p ≤ length r.logs
      → n.log_index ≡ r.last_snapshot_index + p + 1
      → Agree p r.logs (n ∷ ns)
      → store_entry n r ≡ some (record r { logs = stored p n r.logs })
  store_entry-stored p n ns r c h at a = elim (dec_lt p (length r.logs)) [
    | no end ↦
        let e : p ≡ length r.logs = omega arith in
        rw (e, stored-end) (store_entry-end n r (omega (arith, last)))
    | yes inside ↦
        let (o, found) = get_elem?-total r.logs p inside in
        let place : get_slices_index r n.log_index ≡ some p =
          get_slices_index-eq r c n.log_index (omega arith) (omega arith) ∙ ap some (omega arith) in
        elim (Bool-cases (o.log_term == n.log_term)) [
          | inl same ↦ rw (stored-same p r.logs n o found same) (
              store_entry-same n r p o (omega (arith, last)) place found same
                (Agree-head p n o ns r.logs a found ((==_iff _ _).0 same)))
          | inr other ↦
              rw (stored-other p r.logs n o found other)
                (store_entry-other n r p o (omega (arith, last)) place found other)
        ]
  ]
    where
      last : get_last_log_index r ≡ r.last_snapshot_index + length r.logs
      last = get_last_log_index-eq r c

  -- The loop never ends the process, and leaves the log described by `overlay`, nothing else changed.
  pub store_entries-overlay :
      (es : List LogEntry) (p : ℕ) (r : Raft F)
      → Contiguous r.last_snapshot_index r.logs
      → p ≤ length r.logs
      → Contiguous (r.last_snapshot_index + p) es
      → Agree p r.logs es
      → store_entries es r ≡ some (record r { logs = overlay p r.logs es })
  unfolding store_entries
  store_entries-overlay [] p r c h ce a = rw (overlay-nil p r.logs)
  store_entries-overlay (n ∷ ns) p r c h ce a =
      rw (store_entry-stored p n ns r c h (omega arith) a) (
        store_entries-overlay ns (suc p) (record r { logs = stored p n r.logs })
          (stored-Contiguous r.last_snapshot_index p n r.logs c (omega arith))
          (length-stored p n r.logs h).1
          (let e : suc (r.last_snapshot_index + p) ≡ r.last_snapshot_index + suc p = omega arith in
            subst (λ b. Contiguous b ns) e ce.1)
          (stored-Agree p n ns r.logs a)
        ∙ ap (λ l. some (record r { logs = l })) (overlay-stored p n ns r.logs h))
