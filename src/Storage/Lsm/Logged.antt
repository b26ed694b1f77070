-- ===== src/Storage/Lsm/Logged.antt =====
-- The write-ahead log of an engine without a manifest, and `RecoverFromWALLocked` over it.
use kv_raft_storage.Storage.Layers.{Lsm, live, content_at, content_or_empty, blank_engine}
use kv_raft_storage.Storage.Lsm.Recovery.{
  recover_manifest, recover_wal, replay, replay_file, open_engine,
}
use kv_raft_storage.Common.{
  ℕ, ◌≡◌, refl, sym, ap, ◌∙◌, List, [], ◌∷◌, ◌++◌, Option, none, some, All, length, Bytes, arith,
  append_assoc, append-nil, is_empty,
}
use kv_raft_storage.Storage.SortedMap.{SortedMap, insert, find, find-insert_self}
use kv_raft_storage.Storage.Codec.{EntryType, put_type, delete_type, WalRecord, write_record}
use kv_raft_storage.Storage.Table.{Hasher}
use kv_raft_storage.Storage.Lsm.{get, append_wal, put, delete, enable_async_flush, find_entry}
use kv_raft_storage.Storage.Lsm.Sound.{IsWf}
use kv_raft_storage.Storage.Lsm.History.{
  Operation, puts, deletes, flushes, compacts, works, sets_async, step, run, spec_step, spec_run,
  run-refines, spec_run-ext, blank_engine-IsWf,
}
use kv_raft_storage.Storage.Lsm.Replay.{
  log_bytes, Short, spec_log, replayed, replay-log_bytes, replayed-get, length-log_bytes,
}
use kv_raft_storage.Storage.Lsm.SameFiles.{
  SameFiles, flush-SameFiles, flush_if_needed-SameFiles, compact-SameFiles,
  background_round-SameFiles,
}

-- The engine logs to `path` without a manifest, and the file holds the records.
pub record IsLogged (path : Bytes) (rs : List WalRecord) (e : Lsm) : Type 0 where
  pub wal : e.wal_path ≡ path
  pub manifest : e.manifest_path ≡ []
  pub content : content_at path e.files ≡ log_bytes rs

SameFiles-IsLogged :
    {e e' : Lsm} {path : Bytes} {rs : List WalRecord}
    → SameFiles e e'
    → IsLogged path rs e
    → IsLogged path rs e'
SameFiles-IsLogged {e} {e'} {path} s l = record {
  wal = s.wal ∙ l.wal;
  manifest = s.manifest ∙ l.manifest;
  content = ap (content_at path) (s.files l.manifest) ∙ l.content;
}

log_bytes-append :
    (rs : List WalRecord) (r : WalRecord)
    → log_bytes (rs ++ r ∷ []) ≡ log_bytes rs ++ write_record r
log_bytes-append [] r = append-nil (write_record r)
log_bytes-append (x ∷ rs) r =
    ap (λ l. write_record x ++ l) (log_bytes-append rs r)
    ∙ sym (append_assoc (write_record x) (log_bytes rs) (write_record r))

append_wal-IsLogged :
    (entry_type : EntryType) (key value : Bytes) (c : ℕ) (path : Bytes) (rs : List WalRecord)
    (e : Lsm)
    → IsLogged (c ∷ path) rs e
    → IsLogged
        (c ∷ path)
        (rs ++ record { entry_type = entry_type; key = key; value = value } ∷ [])
        (append_wal entry_type key value e)
unfolding append_wal
append_wal-IsLogged entry_type key value c path rs e l =
    let r : WalRecord = record { entry_type = entry_type; key = key; value = value } in
    rw (ap is_empty l.wal) (record {
      wal = l.wal;
      manifest = l.manifest;
      content =
          ap
            (λ p. content_at (c ∷ path) (insert p (content_at p e.files ++ write_record r) e.files))
            l.wal
          ∙ ap content_or_empty (
              find-insert_self (c ∷ path) (content_at (c ∷ path) e.files ++ write_record r) e.files)
          ∙ ap (λ b. b ++ write_record r) l.content
          ∙ sym (log_bytes-append rs r);
    })

-- The records that an operation writes.
abbrev pub records_of : Operation → List WalRecord
records_of (puts key value) = record { entry_type = put_type; key = key; value = value } ∷ []
records_of (deletes key) = record { entry_type = delete_type; key = key; value = [] } ∷ []
records_of _ = []

abbrev pub history_records : List Operation → List WalRecord
history_records [] = []
history_records (o ∷ os) = records_of o ++ history_records os

module _ ⦃hasher : Hasher⦄ where
  step-IsLogged :
      (o : Operation) (c : ℕ) (path : Bytes) (rs : List WalRecord) (e : Lsm)
      → IsLogged (c ∷ path) rs e
      → IsLogged (c ∷ path) (rs ++ records_of o) (step o e)
  unfolding put delete enable_async_flush
  step-IsLogged (puts key value) c path rs e l =
      let w = append_wal-IsLogged put_type key value c path rs e l in
      SameFiles-IsLogged (flush_if_needed-SameFiles _)
        (record { wal = w.wal; manifest = w.manifest; content = w.content })
  step-IsLogged (deletes key) c path rs e l =
      let w = append_wal-IsLogged delete_type key [] c path rs e l in
      SameFiles-IsLogged (flush_if_needed-SameFiles _)
        (record { wal = w.wal; manifest = w.manifest; content = w.content })
  step-IsLogged flushes c path rs e l =
      rw (append-nil rs) (SameFiles-IsLogged (flush-SameFiles e) l)
  step-IsLogged compacts c path rs e l =
      rw (append-nil rs) (SameFiles-IsLogged (compact-SameFiles e) l)
  step-IsLogged works c path rs e l =
      rw (append-nil rs) (SameFiles-IsLogged (background_round-SameFiles e) l)
  step-IsLogged (sets_async enabled) c path rs e l =
      rw (append-nil rs) (record { wal = l.wal; manifest = l.manifest; content = l.content })

  run-IsLogged :
      (os : List Operation) (c : ℕ) (path : Bytes) (rs : List WalRecord) (e : Lsm)
      → IsLogged (c ∷ path) rs e
      → IsLogged (c ∷ path) (rs ++ history_records os) (run os e)
  run-IsLogged [] c path rs e l = rw (append-nil rs) l
  run-IsLogged (o ∷ os) c path rs e l =
      rw (← append_assoc rs (records_of o) (history_records os))
        (run-IsLogged os c path (rs ++ records_of o) (step o e) (step-IsLogged o c path rs e l))

  replay_file-eq :
      (content : Option Bytes) (rs : List WalRecord) (e : Lsm)
      → content_or_empty content ≡ log_bytes rs
      → All Short rs
      → replay_file content e ≡ some (replayed rs e)
  replay_file-eq none [] e h s = refl
  replay_file-eq none (r ∷ rs) e h s =
      absurd (omega (arith, ap length h, length-log_bytes (r ∷ rs)))
  replay_file-eq (some input) rs e h s =
      ap (λ b. replay (length b) b e) h
      ∙ replay-log_bytes rs (length (log_bytes rs)) e s (length-log_bytes rs)

  recover_wal-eq :
      (c : ℕ) (path : Bytes) (rs : List WalRecord) (e : Lsm)
      → IsLogged (c ∷ path) rs e
      → All Short rs
      → recover_wal e ≡ some (replayed rs e)
  unfolding recover_wal
  recover_wal-eq c path rs e l s = rw (ap is_empty l.wal) (
      ap (λ p. replay_file (find p e.files) e) l.wal
      ∙ replay_file-eq (find (c ∷ path) e.files) rs e l.content s)

  spec_log-records_of :
      (o : Operation) (rs : List WalRecord) (m : Bytes → Option Bytes) (j : Bytes)
      → spec_log (records_of o ++ rs) m j ≡ spec_log rs (spec_step o m) j
  unfolding live
  spec_log-records_of (puts key value) rs m j = refl
  spec_log-records_of (deletes key) rs m j = refl
  spec_log-records_of flushes rs m j = refl
  spec_log-records_of compacts rs m j = refl
  spec_log-records_of works rs m j = refl
  spec_log-records_of (sets_async enabled) rs m j = refl

  spec_log-history_records :
      (os : List Operation) (m : Bytes → Option Bytes) (j : Bytes)
      → spec_log (history_records os) m j ≡ spec_run os m j
  spec_log-history_records [] m j = refl
  spec_log-history_records (o ∷ os) m j =
      spec_log-records_of o (history_records os) m j ∙ spec_log-history_records os (spec_step o m) j

  -- An engine with a log and no manifest after some operations.
  abbrev pub logged_run : ℕ → ℕ → Bytes → List Operation → Lsm
  logged_run threshold c path os = run os (blank_engine threshold (c ∷ path) [] [])

  blank-IsLogged :
      (threshold c : ℕ) (path : Bytes) (files : SortedMap Bytes) (rs : List WalRecord)
      → content_at (c ∷ path) files ≡ log_bytes rs
      → IsLogged (c ∷ path) rs (blank_engine threshold (c ∷ path) [] files)
  unfolding blank_engine
  blank-IsLogged threshold c path files rs h = record { wal = refl; manifest = refl; content = h }

  open_engine-eq :
      (threshold c : ℕ) (path : Bytes) (files : SortedMap Bytes)
      → open_engine threshold (c ∷ path) [] files
        ≡ recover_wal (blank_engine threshold (c ∷ path) [] files)
  unfolding open_engine recover_manifest blank_engine
  open_engine-eq threshold c path files = refl

  blank-get :
      (j : Bytes) (threshold threshold' : ℕ) (wal_path manifest_path : Bytes)
      (files files' : SortedMap Bytes)
      → get j (blank_engine threshold wal_path manifest_path files)
        ≡ get j (blank_engine threshold' wal_path manifest_path files')
  unfolding get find_entry blank_engine
  blank-get j threshold threshold' wal_path manifest_path files files' = refl

  -- Whatever was put, deleted, flushed and compacted on an engine with a log, no manifest and no
  -- files at first, with keys and values shorter than 2^64 bytes: a new engine that is opened over the files
  -- that are left, with any threshold, recovers without an exception, is well formed, and returns
  -- for every key what the old engine returned.
  pub open_engine-get :
      (threshold threshold' c : ℕ) (path : Bytes) (os : List Operation)
      → All Short (history_records os)
      → (e : Lsm) × (open_engine threshold' (c ∷ path) [] (logged_run threshold c path os).files
          ≡ some e)
        × IsWf e
        × ((j : Bytes) → get j e ≡ get j (logged_run threshold c path os))
  unfolding find
  open_engine-get threshold threshold' c path os s =
      let first = blank_engine threshold (c ∷ path) [] [] in
      let old = run-IsLogged os c path [] first (blank-IsLogged threshold c path [] [] refl) in
      let files = (logged_run threshold c path os).files in
      let fresh = blank_engine threshold' (c ∷ path) [] files in
      let rs = history_records os in
      let fresh-IsWf = blank_engine-IsWf threshold' (c ∷ path) [] files in
      let (wf, reads) = replayed-get rs fresh fresh-IsWf in
      let (_, old_reads) = run-refines os first (blank_engine-IsWf threshold (c ∷ path) [] []) in
      (
        replayed rs fresh,
        open_engine-eq threshold' c path files
            ∙ recover_wal-eq c path rs fresh (blank-IsLogged threshold' c path files rs old.content)
                s,
        wf,
        λ j.
            reads j
            ∙ spec_log-history_records os (λ k. get k fresh) j
            ∙ spec_run-ext os (λ k. get k fresh) (λ k. get k first)
                (λ k. blank-get k threshold' threshold (c ∷ path) [] files []) j
            ∙ sym (old_reads j),
      )
