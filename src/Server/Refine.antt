-- ===== src/Server/Refine.antt =====
-- `KvServer` over any engine that shows a map runs the key-value machine.
use kv_raft_storage.Common.{
  ℕ, true, false, List, Option, none, some, ◌≡◌, refl, sym, ap, ◌∙◌, ltb, Bytes, bytes_eq, inl, inr,
  Bool-cases, bytes_eq_iff,
}
use kv_raft_storage.Storage.SortedMap.{find, Ascending, insert-Ascending}
use kv_raft_storage.Storage.SortedMap.Erase.{find-insert, find-erase, erase-Ascending}
use kv_raft_storage.Storage.Engine.{KvEngine, IsMap}
use kv_raft_storage.Raft.State.{Raft}
use kv_raft_storage.Server.State.{Channel, Op, KvServer}
use kv_raft_storage.Server.Execute.{
  put_word, append_word, passed, not_newer, extended, is_key_expired, set_key_expire,
  is_request_duplicate, note_request, delete_expired, execute_append, execute_put,
  execute_read_only_get, execute_op,
}
use kv_raft_storage.Server.Machine.{Machine, updated, deadline_of, visible, assign, machine_step}

updated-same :
    {A : Type 0} (key : Bytes) (v : A) {m n : Bytes → A}
    → ((j : Bytes) → m j ≡ n j)
    → (j : Bytes) → updated key v m j ≡ updated key v n j
updated-same key v same j = elim (Bool-cases (bytes_eq j key)) [
  | inl here ↦ rw here
  | inr away ↦ rw away (same j)
]

module _ {F E : Type 0} (ops : KvEngine E) (laws : IsMap ops) where
  -- The server stands for the machine.
  pub record Refines (s : KvServer F E) (m : Machine) : Type 0 where
    pub good : laws.IsGood s.engine
    pub ascends : Ascending s.expire_map
    pub values : (key : Bytes) → laws.shows s.engine key ≡ m.values key
    pub deadlines : (key : Bytes) → find key s.expire_map ≡ m.deadlines key
    pub last : (client : Bytes) → find client s.last_request_id ≡ m.last client

  -- The node and the queues are not part of the machine.
  pub Refines-moved :
      (node : Raft F) (channels : List (ℕ × Channel)) (made : ℕ) (s : KvServer F E) (m : Machine)
      → Refines s m
      → Refines (record s { node = node; wait_apply_ch = channels; queues_made = made }) m
  Refines-moved node channels made s m r = record {
    good = r.good;
    ascends = r.ascends;
    values = r.values;
    deadlines = r.deadlines;
    last = r.last;
  }

  deadlines-set :
      (key : Bytes) (at : ℕ) (s : KvServer F E) {d : Bytes → Option ℕ}
      → Ascending s.expire_map
      → ((j : Bytes) → find j s.expire_map ≡ d j)
      → Ascending (set_key_expire key at s).expire_map
        × ((j : Bytes)
            → find j (set_key_expire key at s).expire_map ≡ updated key (deadline_of at) d j)
  unfolding set_key_expire
  deadlines-set key at s a same = elim (Bool-cases (ltb 0 at)) [
    | inl on ↦ rw on (
      insert-Ascending key at s.expire_map a,
      λ j. find-insert j key at s.expire_map ∙ updated-same key (some at) same j,
    )
    | inr off ↦ rw off (
      erase-Ascending key s.expire_map a,
      λ j. find-erase j key s.expire_map a ∙ updated-same key none same j,
    )
  ]

  -- A value is written under a key, with the operation's deadline and request.
  assign-Refines :
      (op : Op) (value : Bytes) (s : KvServer F E) (m : Machine)
      → Refines s m
      → Refines
          (note_request op (
            set_key_expire op.key op.expire_at_ms
              (record s { engine = ops.put op.key value s.engine })))
          (assign op value m)
  unfolding note_request set_key_expire
  assign-Refines op value s m r =
      let (ascends, deadlines) = deadlines-set op.key op.expire_at_ms s r.ascends r.deadlines in
      record {
        good = laws.put_good op.key value s.engine r.good;
        ascends = ascends;
        values = λ j.
            laws.put_writes op.key value s.engine r.good j
            ∙ updated-same op.key (some value) r.values j;
        deadlines = deadlines;
        last = λ j.
            find-insert j op.client_id op.request_id s.last_request_id
            ∙ updated-same op.client_id (some op.request_id) r.last j;
      }

  -- What the append sees of the key.
  append-Refines :
      (op : Op) (s : KvServer F E) (m : Machine)
      → Refines s m
      → (old : Option Bytes) → laws.shows s.engine op.key ≡ old
      → Refines
          (note_request op (
            set_key_expire op.key op.expire_at_ms (record s {
              engine =
                  ops.put op.key
                    (extended (ops.get op.key s.engine).1 op.value)
                    (ops.get op.key s.engine).0;
            })))
          (assign op (extended old op.value) m)
  append-Refines op s m r old seen =
      let got = ops.get op.key s.engine in
      rw (laws.get_answers op.key s.engine r.good, seen)
        (assign-Refines op (extended old op.value) (record s { engine = got.0 }) m
          (record {
            good = laws.get_good op.key s.engine r.good;
            ascends = r.ascends;
            values = λ j. laws.get_keeps op.key s.engine r.good j ∙ r.values j;
            deadlines = r.deadlines;
            last = r.last;
          }))

  -- What is hidden of the key makes no difference to what is assigned to it.
  assign-over :
      (op : Op) (value : Bytes) (s : KvServer F E) (m : Machine)
      → Refines s (
          assign op value (record m {
            values = updated op.key none m.values;
            deadlines = updated op.key none m.deadlines;
          }))
      → Refines s (assign op value m)
  assign-over op value s m r = record {
    good = r.good;
    ascends = r.ascends;
    values = λ j. r.values j ∙ over (some value) m.values j;
    deadlines = λ j. r.deadlines j ∙ over (deadline_of op.expire_at_ms) m.deadlines j;
    last = r.last;
  }
    where
      over :
          {A : Type 0} (v : Option A) (n : Bytes → Option A)
          → (j : Bytes) → updated op.key v (updated op.key none n) j ≡ updated op.key v n j
      over v n j = elim (Bool-cases (bytes_eq j op.key)) [ inl b ↦ rw b | inr b ↦ rw b ]

  delete_expired-Refines :
      (key : Bytes) (s : KvServer F E) (m : Machine)
      → Refines s m
      → Refines (delete_expired ops key s) (record m {
        values = updated key none m.values;
        deadlines = updated key none m.deadlines;
      })
  unfolding delete_expired
  delete_expired-Refines key s m r = record {
    good = laws.delete_good key s.engine r.good;
    ascends = erase-Ascending key s.expire_map r.ascends;
    values = λ j. laws.delete_writes key s.engine r.good j ∙ updated-same key none r.values j;
    deadlines = λ j. find-erase j key s.expire_map r.ascends ∙ updated-same key none r.deadlines j;
    last = r.last;
  }

  is_key_expired-eq :
      (now : ℕ) (key : Bytes) (s : KvServer F E) (m : Machine)
      → Refines s m
      → is_key_expired now key s ≡ passed now (m.deadlines key)
  unfolding is_key_expired
  is_key_expired-eq now key s m r = ap (passed now) (r.deadlines key)

  execute_append-Refines :
      (now : ℕ) (op : Op) (s : KvServer F E) (m : Machine)
      → Refines s m
      → Refines
          (execute_append ops now op s)
          (assign op (extended (visible now op.key m) op.value) m)
  unfolding execute_append
  execute_append-Refines now op s m r =
      let same = is_key_expired-eq now op.key s m r in
      elim (Bool-cases (is_key_expired now op.key s)) [
        | inl past ↦
            let gone : passed now (m.deadlines op.key) ≡ true = sym same ∙ past in
            let hidden = delete_expired-Refines op.key s m r in
            rw (past, gone)
              (assign-over op op.value _ m (
                append-Refines op (delete_expired ops op.key s) _ hidden none
                  (hidden.values op.key ∙ updated_self op.key m.values)))
        | inr open_ ↦
            let there : passed now (m.deadlines op.key) ≡ false = sym same ∙ open_ in
            rw (open_, there) (append-Refines op s m r (m.values op.key) (r.values op.key))
      ]
    where
      updated_self : (key : Bytes) (n : Bytes → Option Bytes) → updated key none n key ≡ none
      updated_self key n = elim (Bool-cases (bytes_eq key key)) [
        | inl b ↦ rw b
        | inr b ↦ absurd (let e = (bytes_eq_iff key key).1 refl in cc)
      ]

  -- The machine's step, for an operation that is not a duplicate.
  pub execute_op-Refines :
      (now : ℕ) (op : Op) (s : KvServer F E) (m : Machine)
      → Refines s m
      → is_request_duplicate op.client_id op.request_id s ≡ false
      → Refines (execute_op ops now op s) (machine_step now op m)
  unfolding execute_op execute_put machine_step is_request_duplicate
  execute_op-Refines now op s m r new =
      let new' : not_newer op.request_id (m.last op.client_id) ≡ false =
        ap (not_newer op.request_id) (sym (r.last op.client_id)) ∙ new in
      elim (Bool-cases (bytes_eq op.operation put_word)) [
        | inl put ↦ rw (new', put) (assign-Refines op op.value s m r)
        | inr other ↦ elim (Bool-cases (bytes_eq op.operation append_word)) [
          | inl append ↦ rw (new', other, append) (execute_append-Refines now op s m r)
          | inr none_ ↦ rw (new', other, none_) r
        ]
      ]

  pub duplicate-machine_step :
      (now : ℕ) (op : Op) (s : KvServer F E) (m : Machine)
      → Refines s m
      → is_request_duplicate op.client_id op.request_id s ≡ true
      → machine_step now op m ≡ m
  unfolding machine_step is_request_duplicate
  duplicate-machine_step now op s m r old =
      let old' : not_newer op.request_id (m.last op.client_id) ≡ true =
        ap (not_newer op.request_id) (sym (r.last op.client_id)) ∙ old in
      rw old'

  -- What a read at an index answers, and that the server stands for the same machine after it.
  pub execute_read_only_get-visible :
      (now : ℕ) (op : Op) (s : KvServer F E) (m : Machine)
      → Refines s m
      → ((execute_read_only_get ops now op s).1 ≡ visible now op.key m)
        × Refines (execute_read_only_get ops now op s).0 m
  unfolding execute_read_only_get
  execute_read_only_get-visible now op s m r =
      let same = is_key_expired-eq now op.key s m r in
      elim (Bool-cases (is_key_expired now op.key s)) [
        | inl past ↦
            let gone : passed now (m.deadlines op.key) ≡ true = sym same ∙ past in
            rw (past, gone) (refl, r)
        | inr open_ ↦
            let there : passed now (m.deadlines op.key) ≡ false = sym same ∙ open_ in
            rw (open_, there)
              (
                laws.get_answers op.key s.engine r.good ∙ r.values op.key,
                record {
                  good = laws.get_good op.key s.engine r.good;
                  ascends = r.ascends;
                  values = λ j. laws.get_keeps op.key s.engine r.good j ∙ r.values j;
                  deadlines = r.deadlines;
                  last = r.last;
                },
              )
      ]
