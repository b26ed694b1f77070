-- ===== src/Storage/Lsm/SameFiles.antt =====
-- What the operations of `LSMTreeEngine` do to its paths and files.
use kv_raft_storage.Storage.Layers.{Lsm, table_maps}
use kv_raft_storage.Common.{
  ◌+◌, ◌≡◌, refl, ap, ◌∙◌, List, [], ◌∷◌, ◌++◌, length, if◌then◌else◌, inl, inr, Bool, true, false,
  Bool-cases, is_empty, leb, ltb,
}
use kv_raft_storage.Storage.SortedMap.{SortedMap}
use kv_raft_storage.Storage.Codec.{Entry}
use kv_raft_storage.Storage.Table.{Hasher, SsTable}
use kv_raft_storage.Storage.Lsm.{
  rewrite_manifest, persist_table, delete_table_files, rotate, new_table, flush_each,
  flush_immutables, flush, flush_if_needed, compact, background_round,
}
use kv_raft_storage.Storage.Lsm.Compact.{merged}

-- The paths are the same, and without a manifest the files too.
pub record SameFiles (e e' : Lsm) : Type 0 where
  pub wal : e'.wal_path ≡ e.wal_path
  pub manifest : e'.manifest_path ≡ e.manifest_path
  pub files : e.manifest_path ≡ [] → e'.files ≡ e.files

SameFiles-refl : (e : Lsm) → SameFiles e e
SameFiles-refl e = record { wal = refl; manifest = refl; files = λ h. refl }

pub SameFiles-trans : {a b c : Lsm} → SameFiles a b → SameFiles b c → SameFiles a c
SameFiles-trans s t = record {
  wal = t.wal ∙ s.wal;
  manifest = t.manifest ∙ s.manifest;
  files = λ h. t.files (s.manifest ∙ h) ∙ s.files h;
}

pub if-SameFiles :
    {e a b : Lsm} (c : Bool) → SameFiles e a → SameFiles e b → SameFiles e (if c then a else b)
if-SameFiles true s t = s
if-SameFiles false s t = t

pub rewrite_manifest-SameFiles : (e : Lsm) → SameFiles e (rewrite_manifest e)
unfolding rewrite_manifest
rewrite_manifest-SameFiles e = elim (Bool-cases (is_empty e.manifest_path)) [
  | inl none_ ↦ rw none_ (SameFiles-refl e)
  | inr path ↦
      rw path
        (record { wal = refl; manifest = refl; files = λ h. absurd (let p = rw h at path in cc) })
]

pub delete_table_files-SameFiles : (e : Lsm) → SameFiles e (delete_table_files e)
unfolding delete_table_files
delete_table_files-SameFiles e = elim (Bool-cases (is_empty e.manifest_path)) [
  | inl none_ ↦ rw none_ (SameFiles-refl e)
  | inr path ↦
      rw path
        (record { wal = refl; manifest = refl; files = λ h. absurd (let p = rw h at path in cc) })
]

pub rotate-SameFiles : (e : Lsm) → SameFiles e (rotate e)
unfolding rotate
rotate-SameFiles e =
    if-SameFiles (is_empty e.mem_table) (SameFiles-refl e)
      (record { wal = refl; manifest = refl; files = λ h. refl })

pub retabled :
    {e e' : Lsm}
    → SameFiles e e'
    → (tables : List SsTable) → SameFiles e (record e' { tables = tables })
retabled s tables = record { wal = s.wal; manifest = s.manifest; files = s.files }

module _ ⦃hasher : Hasher⦄ where
  new_table-files :
      (entries : SortedMap Entry) (e : Lsm)
      → e.manifest_path ≡ []
      → (new_table entries e).1 ≡ e.files
  unfolding new_table persist_table
  new_table-files entries e h = rw (ap is_empty h)

  pub flush_each-SameFiles :
      (pending : List (SortedMap Entry)) (e : Lsm) → SameFiles e (flush_each pending e)
  unfolding flush_each
  flush_each-SameFiles [] e = SameFiles-refl e
  flush_each-SameFiles (entries ∷ rest) e =
      let made = new_table entries e in
      let next : Lsm = record e {
        immutables = rest;
        next_sequence = e.next_sequence + 1;
        tables = e.tables ++ made.0 ∷ [];
        files = made.1;
      } in
      let first : SameFiles e next = record {
        wal = refl;
        manifest = refl;
        files = λ h. new_table-files entries e h;
      } in
      SameFiles-trans (SameFiles-trans first (rewrite_manifest-SameFiles next))
        (flush_each-SameFiles rest (rewrite_manifest next))

  pub flush-SameFiles : (e : Lsm) → SameFiles e (flush e)
  unfolding flush flush_immutables
  flush-SameFiles e =
      SameFiles-trans (rotate-SameFiles e) (flush_each-SameFiles (rotate e).immutables (rotate e))

  pub flush_if_needed-SameFiles : (e : Lsm) → SameFiles e (flush_if_needed e)
  unfolding flush_if_needed
  flush_if_needed-SameFiles e =
      let r = rotate-SameFiles e in
      if-SameFiles (leb e.flush_threshold (length e.mem_table))
        (if-SameFiles e.async_flush (record { wal = r.wal; manifest = r.manifest; files = r.files })
          (flush-SameFiles e))
        (SameFiles-refl e)

  pub compact-SameFiles : (e : Lsm) → SameFiles e (compact e)
  unfolding compact
  compact-SameFiles e =
      let maps = table_maps e.tables in
      let made = new_table (merged maps) e in
      let numbered : Lsm = record e { next_sequence = e.next_sequence + 1; files = made.1 } in
      let numbered_same : SameFiles e numbered = record {
        wal = refl;
        manifest = refl;
        files = λ h. new_table-files (merged maps) e h;
      } in
      if-SameFiles (leb (length e.tables) 1) (SameFiles-refl e) (
        if-SameFiles (is_empty (merged maps))
          (SameFiles-trans (retabled (delete_table_files-SameFiles e) [])
            (rewrite_manifest-SameFiles _))
          (SameFiles-trans
            (retabled (SameFiles-trans numbered_same (delete_table_files-SameFiles numbered))
              (made.0 ∷ []))
            (rewrite_manifest-SameFiles _)))

  pub background_round-SameFiles : (e : Lsm) → SameFiles e (background_round e)
  unfolding background_round
  background_round-SameFiles e =
      let woken : Lsm = record e { work_pending = false } in
      let first : SameFiles e woken = record { wal = refl; manifest = refl; files = λ h. refl } in
      let f = SameFiles-trans first (flush-SameFiles woken) in
      if-SameFiles (ltb 1 (length (flush woken).tables))
        (SameFiles-trans f (compact-SameFiles (flush woken))) f
