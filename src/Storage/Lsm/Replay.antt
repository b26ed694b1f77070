-- ===== src/Storage/Lsm/Replay.antt =====
-- The loop of `RecoverFromWALLocked` over the records of a log.
use kv_raft_storage.Storage.Layers.{Lsm, live}
use kv_raft_storage.Storage.Lsm.Recovery.{replay}
use kv_raft_storage.Common.{
  ℕ, zero, suc, ◌^◌, ◌≤◌, ◌<◌, ◌≡◌, refl, sym, ap, ◌∙◌, List, [], ◌∷◌, ◌++◌, Option, some, All,
  length, if◌then◌else◌, Bytes, bytes_eq, arith, length-append,
}
use kv_raft_storage.Storage.SortedMap.{insert}
use kv_raft_storage.Storage.Codec.{Entry, WalRecord, write_record}
use kv_raft_storage.Storage.Codec.RoundTrip.{read_record-write_record}
use kv_raft_storage.Storage.Table.{Hasher}
use kv_raft_storage.Storage.Lsm.{get, flush_if_needed}
use kv_raft_storage.Storage.Lsm.Sound.{IsWf}
use kv_raft_storage.Storage.Lsm.Refine.{visible, get-visible, write-visible, live-if}

-- The bytes of a log.
abbrev pub log_bytes : List WalRecord → Bytes
log_bytes [] = []
log_bytes (r ∷ rs) = write_record r ++ log_bytes rs

-- Lengths that eight bytes can hold.
abbrev pub Short : WalRecord → Type 0
Short r = (length r.key < 2 ^ 64) × (length r.value < 2 ^ 64)

abbrev pub entry_of : WalRecord → Entry
entry_of r = record { entry_type = r.entry_type; value = r.value }

-- What a log does to a map from keys to values.
abbrev pub spec_log : List WalRecord → (Bytes → Option Bytes) → Bytes → Option Bytes
spec_log [] m = m
spec_log (r ∷ rs) m = spec_log rs (λ j. if bytes_eq j r.key then live (some (entry_of r)) else m j)

spec_log-ext :
    (rs : List WalRecord) (m n : Bytes → Option Bytes)
    → ((j : Bytes) → m j ≡ n j)
    → (j : Bytes) → spec_log rs m j ≡ spec_log rs n j
spec_log-ext [] m n h j = h j
spec_log-ext (r ∷ rs) m n h j =
    spec_log-ext rs (λ k. if bytes_eq k r.key then live (some (entry_of r)) else m k)
      (λ k. if bytes_eq k r.key then live (some (entry_of r)) else n k)
      (λ k. ap (λ o. if bytes_eq k r.key then live (some (entry_of r)) else o) (h k)) j

module _ ⦃hasher : Hasher⦄ where
  abbrev pub applied : WalRecord → Lsm → Lsm
  applied r e = flush_if_needed (record e { mem_table = insert r.key (entry_of r) e.mem_table })

  abbrev pub replayed : List WalRecord → Lsm → Lsm
  replayed [] e = e
  replayed (r ∷ rs) e = replayed rs (applied r e)

  pub replay-log_bytes :
      (rs : List WalRecord) (n : ℕ) (e : Lsm)
      → All Short rs
      → length rs ≤ n
      → replay n (log_bytes rs) e ≡ some (replayed rs e)
  unfolding replay write_record
  replay-log_bytes [] n e s h = refl
  replay-log_bytes (r ∷ rs) zero e s h = absurd (omega arith)
  replay-log_bytes (r ∷ rs) (suc n) e s h =
      rw (read_record-write_record r (log_bytes rs) s.0.0 s.0.1)
        (replay-log_bytes rs n (applied r e) s.1 (omega arith))

  applied-get :
      (r : WalRecord) (e : Lsm)
      → IsWf e
      → IsWf (applied r e)
        × ((j : Bytes)
            → get j (applied r e)
              ≡ (if bytes_eq j r.key then live (some (entry_of r)) else get j e))
  applied-get r e w = ((write-visible [] r.key (entry_of r) e w).0, reads)
    where
      reads :
          (j : Bytes)
          → get j (applied r e) ≡ (if bytes_eq j r.key then live (some (entry_of r)) else get j e)
      reads j =
          let (wf, shown) = write-visible j r.key (entry_of r) e w in
          get-visible j (applied r e) wf
          ∙ ap live shown
          ∙ live-if (bytes_eq j r.key) (some (entry_of r)) (visible j e)
          ∙ ap (λ o. if bytes_eq j r.key then live (some (entry_of r)) else o)
              (sym (get-visible j e w))

  pub replayed-get :
      (rs : List WalRecord) (e : Lsm)
      → IsWf e
      → IsWf (replayed rs e) × ((j : Bytes) → get j (replayed rs e) ≡ spec_log rs (λ k. get k e) j)
  replayed-get [] e w = (w, λ j. refl)
  replayed-get (r ∷ rs) e w =
      let (w', first) = applied-get r e w in
      let (w'', rest) = replayed-get rs (applied r e) w' in
      (
        w'',
        λ j.
            rest j
            ∙ spec_log-ext rs (λ k. get k (applied r e))
                (λ k. if bytes_eq k r.key then live (some (entry_of r)) else get k e) first j,
      )

length-write_record : (r : WalRecord) → 1 ≤ length (write_record r)
unfolding write_record
length-write_record r = omega arith

-- A log has at least as many bytes as records.
pub length-log_bytes : (rs : List WalRecord) → length rs ≤ length (log_bytes rs)
length-log_bytes [] = omega arith
length-log_bytes (r ∷ rs) = omega (
  arith,
  length-log_bytes rs,
  length-write_record r,
  length-append (write_record r) (log_bytes rs),
)
