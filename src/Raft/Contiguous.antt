-- ===== src/Raft/Contiguous.antt =====
-- Logs whose entries carry consecutive indices, as the accessors of raftCore/raft.cpp take for granted.
use kv_raft_storage.Common.{
  ℕ, zero, suc, ◌+◌, ◌≡◌, List, [], ◌∷◌, ◌++◌, some, arith, length, get_elem?, set, drop,
}
use kv_raft_storage.Raft.State.{LogEntry}
use kv_raft_storage.Raft.Log.{last_of}

-- The entries carry the indices `base + 1`, `base + 2`, ….
abbrev pub Contiguous : ℕ → List LogEntry → Type 0
Contiguous base [] = Unit
Contiguous base (e ∷ es) = (e.log_index ≡ suc base) × Contiguous (suc base) es

pub last_of-index :
    (base term : ℕ) (es : List LogEntry)
    → Contiguous base es
    → (last_of base term es).0 ≡ base + length es
last_of-index base term [] c = omega arith
last_of-index base term (e ∷ es) c =
    let h : (last_of (suc base) e.log_term es).0 ≡ suc base + length es =
      last_of-index (suc base) e.log_term es c.1 in
    rw c.0 (omega (arith, h))

pub get_elem?-index :
    (base : ℕ) (es : List LogEntry) (i : ℕ) {e : LogEntry}
    → Contiguous base es
    → get_elem? es i ≡ some e
    → e.log_index ≡ base + i + 1
get_elem?-index base [] i c h = ground arith
get_elem?-index base (x ∷ es) zero c h = ground arith
get_elem?-index base (x ∷ es) (suc i) c h = omega (arith, get_elem?-index (suc base) es i c.1 h)

pub append-Contiguous :
    (base : ℕ) (es : List LogEntry) (e : LogEntry)
    → Contiguous base es
    → e.log_index ≡ base + length es + 1
    → Contiguous base (es ++ e ∷ [])
append-Contiguous base [] e c h = (omega arith, tt)
append-Contiguous base (x ∷ es) e c h = (c.0, append-Contiguous (suc base) es e c.1 (omega arith))

pub set-Contiguous :
    (base : ℕ) (es : List LogEntry) (i : ℕ) (e : LogEntry)
    → Contiguous base es
    → e.log_index ≡ base + i + 1
    → Contiguous base (set es i e)
set-Contiguous base [] i e c h = tt
set-Contiguous base (x ∷ es) zero e c h = (omega arith, c.1)
set-Contiguous base (x ∷ es) (suc i) e c h =
    (c.0, set-Contiguous (suc base) es i e c.1 (omega arith))

pub drop-Contiguous :
    (base n new : ℕ) (es : List LogEntry)
    → Contiguous base es
    → new ≡ base + n
    → Contiguous new (drop n es)
drop-Contiguous base zero new es c e = let e' : new ≡ base = omega arith in rw e' c
drop-Contiguous base (suc n) new [] c e = tt
drop-Contiguous base (suc n) new (x ∷ es) c e =
    drop-Contiguous (suc base) n new es c.1 (omega arith)
