-- ===== src/Raft/Append/Overlay.antt =====
-- The log that the loop of `AppendEntries1` over a message leaves, described position by position:
-- the entry that was there if the terms agree, else the message's. Nothing behind is cut off.
use kv_raft_storage.Common.{
  ℕ, max, sym, zero, suc, ◌+◌, ◌≤◌, ◌<◌, ◌≡◌, refl, ap, subst, List, [], ◌∷◌, some, none, arith,
  length, get_elem?, ◌==◌, if◌then◌else◌, inl, inr, ◌∙◌, ==_iff, Bool-cases,
}
use kv_raft_storage.Raft.State.{LogEntry}
use kv_raft_storage.Raft.Contiguous.{Contiguous}

-- The entry kept where `old` stands and `new` arrives.
abbrev pub keep_or_replace : LogEntry → LogEntry → LogEntry
keep_or_replace old new = if old.log_term == new.log_term then old else new

abbrev pub merge : List LogEntry → List LogEntry → List LogEntry
merge old [] = old
merge [] (n ∷ ns) = n ∷ ns
merge (o ∷ os) (n ∷ ns) = keep_or_replace o n ∷ merge os ns

-- `merge` from position `p` on.
abbrev pub overlay : ℕ → List LogEntry → List LogEntry → List LogEntry
overlay zero old new = merge old new
overlay (suc p) [] new = []
overlay (suc p) (o ∷ os) new = o ∷ overlay p os new

-- Where the log and the message have an entry of one term, they have the same command.
abbrev pub Agree : ℕ → List LogEntry → List LogEntry → Type 0
Agree zero (o ∷ os) (n ∷ ns) = (o.log_term ≡ n.log_term → o.command ≡ n.command) × Agree zero os ns
Agree (suc p) (o ∷ os) new = Agree p os new
Agree _ _ _ = Unit

merge-Contiguous :
    (base : ℕ) (old new : List LogEntry)
    → Contiguous base old
    → Contiguous base new
    → Contiguous base (merge old new)
merge-Contiguous base old [] c d = c
merge-Contiguous base [] (n ∷ ns) c d = d
merge-Contiguous base (o ∷ os) (n ∷ ns) c d = elim (Bool-cases (o.log_term == n.log_term)) [
  | inl same ↦ rw same (c.0, merge-Contiguous (suc base) os ns c.1 d.1)
  | inr other ↦ rw other (d.0, merge-Contiguous (suc base) os ns c.1 d.1)
]

pub overlay-Contiguous :
    (base p new : ℕ) (logs es : List LogEntry)
    → Contiguous base logs
    → Contiguous new es
    → new ≡ base + p
    → p ≤ length logs
    → Contiguous base (overlay p logs es)
overlay-Contiguous base zero new logs es c d e h =
    let e' : new ≡ base = omega arith in
    merge-Contiguous base logs es c (subst (λ b. Contiguous b es) e' d)
overlay-Contiguous base (suc p) new [] es c d e h = tt
overlay-Contiguous base (suc p) new (o ∷ os) es c d e h =
    (c.0, overlay-Contiguous (suc base) p new os es c.1 d (omega arith) (omega arith))

length-merge : (old new : List LogEntry) → length (merge old new) ≡ max (length old) (length new)
length-merge old [] = omega arith
length-merge [] (n ∷ ns) = omega arith
length-merge (o ∷ os) (n ∷ ns) = omega (arith, length-merge os ns)

pub length-overlay :
    (p : ℕ) (logs es : List LogEntry)
    → p ≤ length logs
    → length (overlay p logs es) ≡ max (length logs) (p + length es)
length-overlay zero logs es h = omega (arith, length-merge logs es)
length-overlay (suc p) [] es h = absurd (omega arith)
length-overlay (suc p) (o ∷ os) es h = omega (arith, length-overlay p os es (omega arith))

-- Before the message's first position nothing changes.
pub overlay-before :
    (p i : ℕ) (logs es : List LogEntry) → i < p → get_elem? (overlay p logs es) i ≡ get_elem? logs i
overlay-before zero i logs es h = absurd (omega arith)
overlay-before (suc p) i [] es h = refl
overlay-before (suc p) zero (o ∷ os) es h = refl
overlay-before (suc p) (suc i) (o ∷ os) es h = overlay-before p i os es (omega arith)

LogEntry-eq :
    (a b : LogEntry)
    → a.command ≡ b.command
    → a.log_term ≡ b.log_term
    → a.log_index ≡ b.log_index
    → a ≡ b
LogEntry-eq a b p q r = λ i. record { command = p i; log_term = q i; log_index = r i }

merge-new :
    (base i : ℕ) (old new : List LogEntry) {e : LogEntry}
    → Contiguous base old
    → Contiguous base new
    → Agree 0 old new
    → get_elem? new i ≡ some e
    → get_elem? (merge old new) i ≡ some e
merge-new base i old [] c d a h = ground arith
merge-new base i [] (n ∷ ns) c d a h = h
merge-new base zero (o ∷ os) (n ∷ ns) {e} c d a h = elim (Bool-cases (o.log_term == n.log_term)) [
  | inl same ↦
      let t : o.log_term ≡ n.log_term = (==_iff _ _).0 same in
      rw same (ap some (LogEntry-eq o n (a.0 t) t (c.0 ∙ sym d.0)) ∙ h)
  | inr other ↦ rw other h
]
merge-new base (suc i) (o ∷ os) (n ∷ ns) c d a h = merge-new (suc base) i os ns c.1 d.1 a.1 h

-- From there on the log holds the message's entries.
pub overlay-new :
    (base p new i : ℕ) (logs es : List LogEntry) {e : LogEntry}
    → Contiguous base logs
    → Contiguous new es
    → new ≡ base + p
    → p ≤ length logs
    → Agree p logs es
    → get_elem? es i ≡ some e
    → get_elem? (overlay p logs es) (p + i) ≡ some e
overlay-new base zero new i logs es c d e h a found =
    let e' : new ≡ base = omega arith in
    let z : 0 + i ≡ i = omega arith in
    rw z (merge-new base i logs es c (subst (λ b. Contiguous b es) e' d) a found)
overlay-new base (suc p) new i [] es c d e h a found = absurd (omega arith)
overlay-new base (suc p) new i (o ∷ os) es c d e h a found =
    let z : suc p + i ≡ suc (p + i) = omega arith in
    rw z (overlay-new (suc base) p new i os es c.1 d (omega arith) (omega arith) a found)

get_elem?-past : (i : ℕ) (es : List LogEntry) → length es ≤ i → get_elem? es i ≡ none
get_elem?-past i [] h = refl
get_elem?-past zero (e ∷ es) h = absurd (omega arith)
get_elem?-past (suc i) (e ∷ es) h = get_elem?-past i es (omega arith)

merge-behind :
    (i : ℕ) (logs es : List LogEntry)
    → length es ≤ i
    → get_elem? (merge logs es) i ≡ get_elem? logs i
merge-behind i logs [] h = refl
merge-behind zero logs (n ∷ ns) h = absurd (omega arith)
merge-behind (suc i) [] (n ∷ ns) h = get_elem?-past i ns (omega arith)
merge-behind (suc i) (o ∷ os) (n ∷ ns) h = merge-behind i os ns (omega arith)

-- Behind the entries that arrive nothing changes.
pub overlay-behind :
    (p i : ℕ) (logs es : List LogEntry)
    → p + length es ≤ i
    → get_elem? (overlay p logs es) i ≡ get_elem? logs i
overlay-behind zero i logs es h = merge-behind i logs es (omega arith)
overlay-behind (suc p) i [] es h = refl
overlay-behind (suc p) zero (o ∷ os) es h = absurd (omega arith)
overlay-behind (suc p) (suc i) (o ∷ os) es h = overlay-behind p i os es (omega arith)

pub overlay-nil : (p : ℕ) (logs : List LogEntry) → overlay p logs [] ≡ logs
overlay-nil zero logs = refl
overlay-nil (suc p) [] = refl
overlay-nil (suc p) (o ∷ os) = ap (◌∷◌ o) (overlay-nil p os)

pub Agree-nil : (p : ℕ) (logs : List LogEntry) → Agree p logs []
Agree-nil zero [] = tt
Agree-nil zero (o ∷ os) = tt
Agree-nil (suc p) [] = tt
Agree-nil (suc p) (o ∷ os) = Agree-nil p os
