-- ===== src/Server/Retry.antt =====
-- A request that a client sends again is applied once.
use kv_raft_storage.Common.{
  ℕ, ◌≤◌, ◌<◌, true, false, List, [], ◌∷◌, ◌++◌, Option, none, some, ◌≡◌, refl, sym, ap, ◌∙◌, Bytes,
  bytes_eq, bytes_eq_iff, inl, inr, ◌⊎◌, Bool-cases, All, arith,
}
use kv_raft_storage.Storage.Engine.{KvEngine, IsMap}
use kv_raft_storage.Raft.State.{Archive}
use kv_raft_storage.Raft.Invariant.{IsWf}
use kv_raft_storage.Server.State.{Op, KvServer, ServerText, GetArgs}
use kv_raft_storage.Server.Execute.{put_word, append_word, not_newer, extended, fill_get_reply}
use kv_raft_storage.Server.Apply.{read_apply_loop}
use kv_raft_storage.Server.Requests.{get_at_read_index}
use kv_raft_storage.Server.Machine.{Machine, visible, assign, machine_step, machine_run}
use kv_raft_storage.Server.Refine.{Refines}
use kv_raft_storage.Server.Commands.{timed, timed_ops, read_apply_loop-visible}

-- `Put` and `Append`, the operations that are noted with their request.
abbrev pub IsWrite : Op → Type 0
IsWrite op = (op.operation ≡ put_word) ⊎ (op.operation ≡ append_word)

-- The machine has seen a request of the client with this number or a later one.
abbrev pub Seen : Bytes → ℕ → Machine → Type 0
Seen client id m = not_newer id (m.last client) ≡ true

assign-Seen_self :
    (op : Op) (value : Bytes) (m : Machine) (id : ℕ)
    → id ≤ op.request_id
    → Seen op.client_id id (assign op value m)
assign-Seen_self op value m id le =
    let same : bytes_eq op.client_id op.client_id ≡ true =
      (bytes_eq_iff op.client_id op.client_id).1 refl in
    rw same (ground arith)

not_newer_mono :
    (a b : ℕ) (last : Option ℕ) → not_newer b last ≡ true → a ≤ b → not_newer a last ≡ true
not_newer_mono a b none h le = absurd (cc)
not_newer_mono a b (some l) h le = ground arith

not_newer_lt :
    (a b : ℕ) (last : Option ℕ) → not_newer a last ≡ true → not_newer b last ≡ false → a ≤ b
not_newer_lt a b none h k = absurd (cc)
not_newer_lt a b (some l) h k = ground arith

assign-Seen :
    (op : Op) (value : Bytes) (client : Bytes) (id : ℕ) (m : Machine)
    → not_newer op.request_id (m.last op.client_id) ≡ false
    → Seen client id m
    → Seen client id (assign op value m)
assign-Seen op value client id m new seen = elim (Bool-cases (bytes_eq client op.client_id)) [
  | inl here ↦
      let e : client ≡ op.client_id = (bytes_eq_iff client op.client_id).0 here in
      let seen' : not_newer id (m.last op.client_id) ≡ true =
        ap (λ c. not_newer id (m.last c)) (sym e) ∙ seen in
      let le = not_newer_lt id op.request_id (m.last op.client_id) seen' new in
      rw here (ground arith)
  | inr away ↦ rw away seen
]

-- What was seen stays seen.
pub machine_step-Seen :
    (now : ℕ) (op : Op) (client : Bytes) (id : ℕ) (m : Machine)
    → Seen client id m
    → Seen client id (machine_step now op m)
unfolding machine_step
machine_step-Seen now op client id m seen =
    elim (Bool-cases (not_newer op.request_id (m.last op.client_id))) [
      | inl old ↦ rw old seen
      | inr new ↦ elim (Bool-cases (bytes_eq op.operation put_word)) [
        | inl put ↦ rw (new, put) (assign-Seen op op.value client id m new seen)
        | inr other ↦ elim (Bool-cases (bytes_eq op.operation append_word)) [
          | inl append ↦
              rw (new, other, append)
                (assign-Seen op (extended (visible now op.key m) op.value) client id m new seen)
          | inr none_ ↦ rw (new, other, none_) seen
        ]
      ]
    ]

-- An operation by which a request comes to be seen is new, of its client, and has its number or a later
-- one.
pub machine_step-new :
    (now : ℕ) (op : Op) (client : Bytes) (id : ℕ) (m : Machine)
    → not_newer id (m.last client) ≡ false
    → Seen client id (machine_step now op m)
    → (op.client_id ≡ client)
      × (not_newer op.request_id (m.last op.client_id) ≡ false)
      × (id ≤ op.request_id)
unfolding machine_step
machine_step-new now op client id m unseen seen =
    elim (Bool-cases (not_newer op.request_id (m.last op.client_id))) [
      | inl old ↦ absurd (let s = rw old at seen in cc)
      | inr new ↦ elim (Bool-cases (bytes_eq client op.client_id)) [
        | inl here ↦
            let noted : id ≤ op.request_id = ground arith in
            (sym ((bytes_eq_iff client op.client_id).0 here), new, noted)
        | inr away ↦ absurd (ground arith)
      ]
    ]

machine_run-Seen :
    (ops : List (ℕ × Op)) (client : Bytes) (id : ℕ) (m : Machine)
    → Seen client id m
    → Seen client id (machine_run ops m)
unfolding machine_run
machine_run-Seen [] client id m seen = seen
machine_run-Seen (x ∷ ops) client id m seen =
    machine_run-Seen ops client id (machine_step x.0 x.1 m)
      (machine_step-Seen x.0 x.1 client id m seen)

-- A write is seen after its step.
pub machine_step-IsWrite :
    (now : ℕ) (op : Op) (id : ℕ) (m : Machine)
    → IsWrite op
    → id ≤ op.request_id
    → Seen op.client_id id (machine_step now op m)
unfolding machine_step
machine_step-IsWrite now op id m write le =
    elim (Bool-cases (not_newer op.request_id (m.last op.client_id))) [
      | inl old ↦ rw old (not_newer_mono id op.request_id (m.last op.client_id) old le)
      | inr new ↦ elim (Bool-cases (bytes_eq op.operation put_word)) [
        | inl put ↦ rw (new, put) (assign-Seen_self op op.value m id le)
        | inr other ↦ elim (Bool-cases (bytes_eq op.operation append_word)) [
          | inl append ↦
              rw (new, other, append)
                (assign-Seen_self op (extended (visible now op.key m) op.value) m id le)
          | inr none_ ↦ absurd (neither write other none_)
        ]
      ]
    ]
  where
    neither :
        IsWrite op
        → bytes_eq op.operation put_word ≡ false
        → bytes_eq op.operation append_word ≡ false
        → ⊥
    neither (inl e) p a = let t = (bytes_eq_iff op.operation put_word).1 e in cc
    neither (inr e) p a = let t = (bytes_eq_iff op.operation append_word).1 e in cc

machine_run-append :
    (xs ys : List (ℕ × Op)) (m : Machine)
    → machine_run (xs ++ ys) m ≡ machine_run ys (machine_run xs m)
unfolding machine_run
machine_run-append [] ys m = refl
machine_run-append (x ∷ xs) ys m = machine_run-append xs ys (machine_step x.0 x.1 m)

timed_ops-append : (xs ys : List (ℕ × Op × ℕ)) → timed_ops (xs ++ ys) ≡ timed_ops xs ++ timed_ops ys
timed_ops-append [] ys = refl
timed_ops-append ((now, op, index) ∷ xs) ys = ap (λ l. (now, op) ∷ l) (timed_ops-append xs ys)

-- A request that was seen does nothing.
Seen-machine_step :
    (now : ℕ) (op : Op) (m : Machine)
    → Seen op.client_id op.request_id m
    → machine_step now op m ≡ m
unfolding machine_step
Seen-machine_step now op m seen = rw seen

-- A retry makes no difference to the machine, wherever it comes after the write.
pub machine_run-retry :
    (between after : List (ℕ × Op)) (t t' : ℕ) (op retry : Op) (m : Machine)
    → IsWrite op
    → retry.client_id ≡ op.client_id
    → retry.request_id ≤ op.request_id
    → machine_run ((t, op) ∷ between ++ (t', retry) ∷ after) m
      ≡ machine_run ((t, op) ∷ between ++ after) m
unfolding machine_run
machine_run-retry between after t t' op retry m write same le =
    let m1 = machine_step t op m in
    let seen = machine_step-IsWrite t op retry.request_id m write le in
    let still = machine_run-Seen between op.client_id retry.request_id m1 seen in
    let still' : Seen retry.client_id retry.request_id (machine_run between m1) =
      ap (λ c. not_newer retry.request_id ((machine_run between m1).last c)) same ∙ still in
    machine_run-append between ((t', retry) ∷ after) m1
    ∙ ap (machine_run after) (Seen-machine_step t' retry (machine_run between m1) still')
    ∙ sym (machine_run-append between after m1)

module _ {F E : Type 0} (ops : KvEngine E) ⦃ar : Archive F⦄ ⦃text : ServerText F⦄
    (laws : IsMap ops) where
  -- A write that is in the log again, as a retry of the same client with the same or an earlier request
  -- number, is applied once: on a server as in `read_apply_loop-visible` the loop over the whole log
  -- succeeds, and a later read answers what the machine shows after the log without the retry.
  pub retry-visible :
      (before between after : List (ℕ × Op × ℕ)) (t t' i j now : ℕ) (op retry : Op)
      (s : KvServer F E) (m : Machine) (args : GetArgs)
      → IsWf s.node
      → Refines ops laws s m
      → All
          (λ (c : ℕ × Op × ℕ). s.last_snapshot_raft_log_index < c.2)
          (before ++ (t, op, i) ∷ (between ++ (t', retry, j) ∷ after))
      → IsWrite op
      → retry.client_id ≡ op.client_id
      → retry.request_id ≤ op.request_id
      → (out : KvServer F E) × (read_apply_loop ops
            (timed text (before ++ (t, op, i) ∷ (between ++ (t', retry, j) ∷ after)))
            s
          ≡ some out)
        × ((get_at_read_index ops now args out).1
            ≡ fill_get_reply (
                visible now args.key
                  (machine_run (timed_ops (before ++ (t, op, i) ∷ (between ++ after))) m)))
  retry-visible before between after t t' i j now op retry s m args w r later write same le =
      let (out, run, answer) =
        read_apply_loop-visible ops laws
          (before ++ (t, op, i) ∷ (between ++ (t', retry, j) ∷ after)) s m now args w r later in
      let whole = (t, op, i) ∷ (between ++ (t', retry, j) ∷ after) in
      let once = (t, op, i) ∷ (between ++ after) in
      let m1 = machine_run (timed_ops before) m in
      let split =
        ap (λ l. machine_run l m) (timed_ops-append before whole)
        ∙ machine_run-append (timed_ops before) (timed_ops whole) m in
      let join =
        ap (λ l. machine_run l m) (timed_ops-append before once)
        ∙ machine_run-append (timed_ops before) (timed_ops once) m in
      let step =
        ap (λ l. machine_run ((t, op) ∷ l) m1) (timed_ops-append between ((t', retry, j) ∷ after))
        ∙ machine_run-retry (timed_ops between) (timed_ops after) t t' op retry m1 write same le
        ∙ ap (λ l. machine_run ((t, op) ∷ l) m1) (sym (timed_ops-append between after)) in
      (
        out,
        run,
        answer ∙ ap (λ n. fill_get_reply (visible now args.key n)) (split ∙ step ∙ sym join),
      )
