-- ===== src/Server/Expiry.antt =====
-- The time to live of a `Put`, from the request to the reads that follow.
use kv_raft_storage.Common.{
  ℕ, sym, ap, ◌+◌, ◌%◌, ◌^◌, ◌<◌, ◌≡◌, refl, ◌∙◌, true, false, none, some, ltb, if◌then◌else◌,
  bytes_eq, bytes_eq_iff, arith,
}
use kv_raft_storage.Storage.Engine.{KvEngine, IsMap}
use kv_raft_storage.Raft.State.{Archive}
use kv_raft_storage.Raft.Invariant.{IsWf}
use kv_raft_storage.Server.State.{Op, KvServer, ServerText, GetArgs, PutAppendArgs}
use kv_raft_storage.Server.Apply.{apply_command}
use kv_raft_storage.Server.Refine.{Refines, execute_read_only_get-visible}
use kv_raft_storage.Server.Commands.{Steps, apply_command-Steps}
use kv_raft_storage.Server.Execute.{
  put_word, passed, not_newer, is_request_duplicate, fill_get_reply,
}
use kv_raft_storage.Server.Requests.{expire_at, put_append_op, get_op, get_at_read_index}
use kv_raft_storage.Server.Machine.{Machine, deadline_of, visible, assign, machine_step}

-- The deadline of a request is the sum of the clock and the time to live, as long as that is a positive
-- `int64_t`. From 2^63 to 2^64 - 1 the sum is a negative one, and the key does not expire.
expire_at_bounds :
    (now ttl : ℕ)
    → 0 < ttl
    → now + ttl < 2 ^ 64
    → expire_at now ttl ≡ (if ltb (now + ttl) (2 ^ 63) then now + ttl else 0)
unfolding expire_at
expire_at_bounds now ttl on fits =
    let whole : (now + ttl) % 2 ^ 64 ≡ now + ttl = omega arith in
    let positive : ltb 0 ttl ≡ true = ground arith in rw (positive, whole)

assigned-visible :
    (now : ℕ) (op : Op) (m : Machine)
    → visible now op.key (assign op op.value m)
      ≡ (if passed now (deadline_of op.expire_at_ms) then none else some op.value)
assigned-visible now op m =
    let self : bytes_eq op.key op.key ≡ true = (bytes_eq_iff op.key op.key).1 refl in rw self

put_step-visible :
    (sent_at applied_at now : ℕ) (args : PutAppendArgs) (m : Machine)
    → args.op ≡ put_word
    → 0 < args.ttl_ms
    → sent_at + args.ttl_ms < 2 ^ 63
    → not_newer args.request_id (m.last args.client_id) ≡ false
    → visible now args.key (machine_step applied_at (put_append_op sent_at args) m)
      ≡ (if ltb (sent_at + args.ttl_ms) now then none else some args.value)
unfolding machine_step put_append_op
put_step-visible sent_at applied_at now args m put on fits new =
    let is_put : bytes_eq args.op put_word ≡ true = (bytes_eq_iff args.op put_word).1 put in
    let at = expire_at_bounds sent_at args.ttl_ms on (omega arith) in
    let below : ltb (sent_at + args.ttl_ms) (2 ^ 63) ≡ true = ground arith in
    let positive : ltb 0 (sent_at + args.ttl_ms) ≡ true = ground arith in
    rw (new, is_put)
      (assigned-visible now (put_append_op sent_at args) m ∙ rw (at, below, positive))

module _ {F E : Type 0} (ops : KvEngine E) ⦃ar : Archive F⦄ ⦃text : ServerText F⦄
    (laws : IsMap ops) where
  -- On a server whose node is well formed and which stands for a machine, over any engine that shows a
  -- map, a `Put` with a positive time to live that ends before 2^63 is applied at an index behind the
  -- last snapshot, as a request that is not a duplicate: no exception is taken, and a read at an index
  -- that follows answers with the value until its clock is past the time of the request plus the time to
  -- live, and from then on with `ErrNoKey`.
  pub put-readable :
      (sent_at applied_at now index : ℕ) (args : PutAppendArgs) (read : GetArgs) (s : KvServer F E)
      (m : Machine)
      → IsWf s.node
      → Refines ops laws s m
      → s.last_snapshot_raft_log_index < index
      → args.op ≡ put_word
      → 0 < args.ttl_ms
      → sent_at + args.ttl_ms < 2 ^ 63
      → is_request_duplicate args.client_id args.request_id s ≡ false
      → read.key ≡ args.key
      → (out : KvServer F E) × (apply_command ops applied_at (put_append_op sent_at args) index s
          ≡ some out)
        × ((get_at_read_index ops now read out).1
            ≡ fill_get_reply (if ltb (sent_at + args.ttl_ms) now then none else some args.value))
  unfolding Steps is_request_duplicate get_at_read_index get_op
  put-readable sent_at applied_at now index args read s m w r later put on fits new key =
      let op = put_append_op sent_at args in
      let (out, e, (wf, refined, _), _, _) =
        apply_command-Steps ops laws applied_at op index s m w r later in
      let unseen : not_newer args.request_id (m.last args.client_id) ≡ false =
        ap (not_newer args.request_id) (sym (r.last args.client_id)) ∙ new in
      let shown =
        (execute_read_only_get-visible ops laws now (get_op read) out (machine_step applied_at op m)
          refined).0 in
      (
        out,
        e,
        ap fill_get_reply (
            shown
            ∙ ap (λ k. visible now k (machine_step applied_at op m)) key
            ∙ put_step-visible sent_at applied_at now args m put on fits unseen),
      )
