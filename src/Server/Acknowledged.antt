-- ===== src/Server/Acknowledged.antt =====
-- A write that `PutAppend` answers with `OK` has been applied, if its client sends no later request before
-- it has the answer.
use kv_raft_storage.Common.{
  ℕ, true, false, ◌&&◌, List, [], ◌∷◌, some, ◌≡◌, sym, ap, ◌∙◌, ◌==◌, Bytes, bytes_eq, bytes_eq_iff,
  inl, inr, Bool-cases, Option-cases, All, subst, arith, some_inj,
}
use kv_raft_storage.Storage.Engine.{KvEngine, IsMap}
use kv_raft_storage.Raft.State.{Archive}
use kv_raft_storage.Raft.Invariant.{IsWf}
use kv_raft_storage.Server.State.{Op, KvServer, ServerText, Err, ok}
use kv_raft_storage.Server.Apply.{apply_command}
use kv_raft_storage.Server.Requests.{
  find_queue, finish_put_append, time_out_pop, pop_front, put_append_err,
}
use kv_raft_storage.Server.Channels.{find_queue-Queued}
use kv_raft_storage.Server.Machine.{Machine, machine_step}
use kv_raft_storage.Server.Refine.{Refines}
use kv_raft_storage.Server.Retry.{IsWrite, Seen, machine_step-new}
use kv_raft_storage.Server.Execute.{is_request_duplicate, not_newer}
use kv_raft_storage.Storage.SortedMap.{find}
use kv_raft_storage.Server.Serving.{
  Carries, Told, Serves, begins, applies, finishes, reads, Reaches, here, next, Reaches-Running,
}

module _ {F E : Type 0} (ops : KvEngine E) ⦃ar : Archive F⦄ ⦃text : ServerText F⦄ (laws : IsMap ops)
    (client : Bytes) (id : ℕ) where
  ok-Seen :
      (op : Op) (queue : List Op) (queue_id : ℕ) (s : KvServer F E) (m : Machine)
      → Carries client id op
      → Refines ops laws s m
      → All (Told client id m) queue
      → put_append_err op (pop_front queue_id queue s.wait_apply_ch).0 s ≡ ok
      → Seen client id m
  unfolding is_request_duplicate
  ok-Seen op [] queue_id s m (c, i) f told h =
      let dup : not_newer op.request_id (find op.client_id s.last_request_id) ≡ true =
        elim (Bool-cases (not_newer op.request_id (find op.client_id s.last_request_id))) [
          | inl b ↦ b
          | inr b ↦ absurd (let h' = rw b at h in cc)
        ] in
      let seen : not_newer op.request_id (m.last op.client_id) ≡ true =
        ap (not_newer op.request_id) (sym (f.last op.client_id)) ∙ dup in
      subst (λ k. not_newer k (m.last client) ≡ true) i
        (subst (λ k. not_newer op.request_id (m.last k) ≡ true) c seen)
  ok-Seen op (committed ∷ queue) queue_id s m (c, i) f told h =
      elim (Bool-cases
        (bytes_eq committed.client_id op.client_id && committed.request_id == op.request_id)) [
          | inl b ↦
              let e = (bytes_eq_iff committed.client_id op.client_id).0 (ground arith) in
              let n : committed.request_id ≡ op.request_id = ground arith in told.0 (e ∙ c, n ∙ i)
          | inr b ↦ absurd (let h' = rw b at h in cc)
        ]

  acknowledged-Seen :
      {s : KvServer F E} {m : Machine} {t : KvServer F E} {n : Machine} (op : Op)
      (index queue_id : ℕ) (out : KvServer F E)
      → IsWf s.node
      → Refines ops laws s m
      → s.wait_apply_ch ≡ []
      → Reaches ops laws client id s m t n
      → Carries client id op
      → finish_put_append op index queue_id t ≡ some (out, ok)
      → Seen client id n
  unfolding finish_put_append time_out_pop
  acknowledged-Seen {s} {m} {t} {n} op index queue_id out w f idle path carries h =
      let r =
        Reaches-Running ops laws client id path
          (record { wf = w; refines = f; queued = rw idle tt; fresh = rw idle tt }) in
      elim (Option-cases (find_queue queue_id t.wait_apply_ch)) [
        | inl gone ↦ absurd (let h' = rw gone at h in cc)
        | inr (queue, there) ↦
            let e = some_inj (rw there at h) in
            let told =
              find_queue-Queued (Told client id n) queue_id t.wait_apply_ch r.queued there in
            ok-Seen op queue queue_id t n carries r.refines told
              (ap (λ (x : KvServer F E × Err). x.1) e)
      ]

  -- On the way from `s` to `t` there is an application of the request, and it was new then: the machine
  -- has assigned it.
  pub record Applied (s : KvServer F E) (m : Machine) (t : KvServer F E) (n : Machine)
      : Type 0 where
    pub now : ℕ
    pub op : Op
    pub index : ℕ
    pub before : KvServer F E
    pub machine : Machine
    pub after : KvServer F E
    pub to : Reaches ops laws client id s m before machine
    pub carries : Carries client id op
    pub write : IsWrite op
    pub new : not_newer op.request_id (machine.last op.client_id) ≡ false
    pub step : apply_command ops now op index before ≡ some after
    pub rest : Reaches ops laws client id after (machine_step now op machine) t n

  Applied-next :
      {s : KvServer F E} {m : Machine} {t : KvServer F E} {n : Machine} {u : KvServer F E}
      {o : Machine}
      → Applied s m t n
      → Serves ops laws client id t n u o
      → Applied s m u o
  Applied-next a step = record {
    now = a.now;
    op = a.op;
    index = a.index;
    before = a.before;
    machine = a.machine;
    after = a.after;
    to = a.to;
    carries = a.carries;
    write = a.write;
    new = a.new;
    step = a.step;
    rest = next a.rest step;
  }

  -- The step with which the machine comes to see the request applies it.
  Serves-Applied :
      {s : KvServer F E} {m : Machine} {t : KvServer F E} {n : Machine} {u : KvServer F E}
      {o : Machine}
      → Reaches ops laws client id s m t n
      → Serves ops laws client id t n u o
      → not_newer id (n.last client) ≡ false
      → Seen client id o
      → Applied s m u o
  Serves-Applied path (begins op t n) unseen seen = absurd (cc)
  Serves-Applied path (applies now op index t n u write no_later later e) unseen seen =
      let (c, fresh, at_least) = machine_step-new now op client id n unseen seen in
      let is_id : op.request_id ≡ id = let most = no_later c in omega arith in
      record {
        now = now;
        op = op;
        index = index;
        before = t;
        machine = n;
        after = u;
        to = path;
        carries = (c, is_id);
        write = write (c, is_id);
        new = fresh;
        step = e;
        rest = here;
      }
  Serves-Applied path (finishes op index queue_id t n u err e) unseen seen = absurd (cc)
  Serves-Applied path (reads now args t n) unseen seen = absurd (cc)

  Reaches-Applied :
      {s : KvServer F E} {m : Machine} {t : KvServer F E} {n : Machine}
      → not_newer id (m.last client) ≡ false
      → Reaches ops laws client id s m t n
      → Seen client id n
      → Applied s m t n
  Reaches-Applied unseen here seen = absurd (cc)
  Reaches-Applied unseen (next {t = t} {n = n} path step) seen =
      elim (Bool-cases (not_newer id (n.last client))) [
        | inl known ↦ Applied-next (Reaches-Applied unseen path known) step
        | inr fresh ↦ Serves-Applied path step fresh seen
      ]

  -- A server with a well-formed node, over any engine that shows a map, starts with no request waiting,
  -- and its machine has not seen the request that is followed, a `Put` or an `Append`. It goes through any
  -- interleaving of begun requests, applied commands, ended writes and reads at an index, in which no
  -- later request of the same client is applied. If a `PutAppend` of that request then ends with `OK`, one
  -- of the applied commands was the request, and it was new when it was applied.
  pub acknowledged-Applied :
      {s : KvServer F E} {m : Machine} {t : KvServer F E} {n : Machine} (op : Op)
      (index queue_id : ℕ) (out : KvServer F E)
      → IsWf s.node
      → Refines ops laws s m
      → s.wait_apply_ch ≡ []
      → not_newer id (m.last client) ≡ false
      → Reaches ops laws client id s m t n
      → Carries client id op
      → finish_put_append op index queue_id t ≡ some (out, ok)
      → Applied s m t n
  acknowledged-Applied op index queue_id out w f idle unseen path carries h =
      Reaches-Applied unseen path (acknowledged-Seen op index queue_id out w f idle path carries h)
