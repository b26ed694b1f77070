-- ===== src/Server/Serving.antt =====
-- Any interleaving of the begins and ends of requests with the apply loop: what holds of the queues on
-- every server that is reached.
use kv_raft_storage.Common.{
  ℕ, ◌≤◌, ◌<◌, List, [], ◌∷◌, Option, none, some, ◌≡◌, refl, sym, ap, ◌∙◌, Bytes, inl, inr,
  Bool-cases, Option-cases, All, subst, arith, some_inj,
}
use kv_raft_storage.Storage.Engine.{KvEngine, IsMap}
use kv_raft_storage.Raft.State.{Raft, Archive}
use kv_raft_storage.Raft.Invariant.{IsWf}
use kv_raft_storage.Server.State.{Op, Channel, KvServer, ServerText, GetArgs, Err}
use kv_raft_storage.Server.Apply.{find_channel, apply_command}
use kv_raft_storage.Server.Requests.{
  begin_request, find_queue, finish_put_append, time_out_pop, get_at_read_index, get_op,
}
use kv_raft_storage.Server.Channels.{
  Queued, IsFresh, push-IsFresh, opened-IsFresh, pop-IsFresh, find_queue-Queued, push-Queued,
  opened-Queued, pop-Queued,
}
use kv_raft_storage.Server.Machine.{Machine, machine_step}
use kv_raft_storage.Server.Refine.{Refines, Refines-moved, execute_read_only_get-visible}
use kv_raft_storage.Server.Commands.{Steps, execute_read_only_get-node, apply_command-Steps}
use kv_raft_storage.Server.Retry.{IsWrite, Seen, machine_step-Seen, machine_step-IsWrite}
use kv_raft_storage.Server.Requests.{started}
use kv_raft_storage.Raft.Vote.{is_leader}
use kv_raft_storage.Raft.Leader.{start}
use kv_raft_storage.Raft.Leader.Entries.{start-Extends}

-- A node is well formed after `Start` whether it leads or not.
start-IsWf :
    {F : Type 0} ⦃ar : Archive F⦄ (command : Bytes) (r : Raft F) → IsWf r → IsWf (start command r).0
unfolding start
start-IsWf command r w = elim (Bool-cases (is_leader r.status)) [
  | inl leads ↦ (start-Extends command r w leads).1.wf
  | inr follows ↦ rw follows w
]

module _ (client : Bytes) (id : ℕ) where
  -- The operation carries the request that is followed.
  abbrev pub Carries : Op → Type 0
  Carries op = (op.client_id ≡ client) × (op.request_id ≡ id)

  -- What is queued of the request has been seen by the machine.
  abbrev pub Told : Machine → Op → Type 0
  Told m op = Carries op → Seen client id m

  Queued-later :
      (m n : Machine) (channels : List (ℕ × Channel))
      → (Seen client id m → Seen client id n)
      → Queued (Told m) channels
      → Queued (Told n) channels
  Queued-later m n [] f q = tt
  Queued-later m n (c ∷ channels) f q = (later c.1.queue q.0, Queued-later m n channels f q.1)
    where
      later : (queue : List Op) → All (Told m) queue → All (Told n) queue
      later [] a = tt
      later (op ∷ queue) a = (λ carries. f (a.0 carries), later queue a.1)

module _ {F E : Type 0} (ops : KvEngine E) ⦃ar : Archive F⦄ ⦃text : ServerText F⦄ (laws : IsMap ops)
    (client : Bytes) (id : ℕ) where
  -- Steps of the server, and of the machine it stands for: the begin of a `PutAppend` or `Get`, the
  -- application of a committed command, the end of a `PutAppend`, a read at an index. The request
  -- that is followed is a `Put` or an `Append`, and no later request of its client is committed.
  pub data Serves : KvServer F E → Machine → KvServer F E → Machine → Type 0 where
    begins : (op : Op) (s : KvServer F E) (m : Machine) → Serves s m (begin_request op s).0 m
    applies :
        (now : ℕ) (op : Op) (index : ℕ) (s : KvServer F E) (m : Machine) (out : KvServer F E)
        → (Carries client id op → IsWrite op)
        → (op.client_id ≡ client → op.request_id ≤ id)
        → s.last_snapshot_raft_log_index < index
        → apply_command ops now op index s ≡ some out
        → Serves s m out (machine_step now op m)
    finishes :
        (op : Op) (index queue_id : ℕ) (s : KvServer F E) (m : Machine) (out : KvServer F E)
        (err : Err)
        → finish_put_append op index queue_id s ≡ some (out, err)
        → Serves s m out m
    reads :
        (now : ℕ) (args : GetArgs) (s : KvServer F E) (m : Machine)
        → Serves s m (get_at_read_index ops now args s).0 m

  pub data Reaches (s : KvServer F E) (m : Machine) : KvServer F E → Machine → Type 0 where
    here : Reaches s m s m
    next :
        {t : KvServer F E} {n : Machine} {u : KvServer F E} {o : Machine}
        → Reaches s m t n
        → Serves t n u o
        → Reaches s m u o

  pub record Running (s : KvServer F E) (m : Machine) : Type 0 where
    pub wf : IsWf s.node
    pub refines : Refines ops laws s m
    pub queued : Queued (Told client id m) s.wait_apply_ch
    pub fresh : IsFresh s.queues_made s.wait_apply_ch

  applied-Running :
      (now : ℕ) (op : Op) (index : ℕ) (s out : KvServer F E) (m : Machine)
      → (Carries client id op → IsWrite op)
      → s.last_snapshot_raft_log_index < index
      → apply_command ops now op index s ≡ some out
      → Running s m
      → Running out (machine_step now op m)
  unfolding Steps
  applied-Running now op index s out m write later applied r =
      let n = machine_step now op m in
      let (out', e, (wf, refines, _), channels, made) =
        apply_command-Steps ops laws now op index s m r.wf r.refines later in
      let same : out' ≡ out = some_inj (sym e ∙ applied) in
      let told : Told client id n op = λ carries. seen carries in
      let queued =
        push-Queued (Told client id n) index op (find_channel index s.wait_apply_ch) s.wait_apply_ch
          (Queued-later client id m n s.wait_apply_ch (machine_step-Seen now op client id m)
            r.queued)
          refl told in
      subst (λ t. Running t n) same
        (record {
          wf = wf;
          refines = refines;
          queued = subst (Queued (Told client id n)) (sym channels) queued;
          fresh =
              rw (channels, made)
                (push-IsFresh s.queues_made index op (find_channel index s.wait_apply_ch)
                  s.wait_apply_ch r.fresh);
        })
    where
      seen : Carries client id op → Seen client id (machine_step now op m)
      seen carries =
          subst (λ c. Seen c id (machine_step now op m)) carries.0
            (machine_step-IsWrite now op id m (write carries) (omega (arith, carries.1)))

  finished-Running :
      (op : Op) (index queue_id : ℕ) (s out : KvServer F E) (m : Machine) (err : Err)
      → finish_put_append op index queue_id s ≡ some (out, err)
      → Running s m
      → Running out m
  unfolding finish_put_append time_out_pop
  finished-Running op index queue_id s out m err h r =
      elim (Option-cases (find_queue queue_id s.wait_apply_ch)) [
        | inl gone ↦ absurd (let h' = rw gone at h in cc)
        | inr (queue, there) ↦
            let e = some_inj (rw there at h) in
            let told =
              find_queue-Queued (Told client id m) queue_id s.wait_apply_ch r.queued there in
            subst (λ (t : KvServer F E). Running t m) (ap (λ (x : KvServer F E × Err). x.0) e)
              (record {
                wf = r.wf;
                refines = Refines-moved ops laws s.node _ s.queues_made s m r.refines;
                queued =
                    pop-Queued (Told client id m) index queue_id queue s.wait_apply_ch r.queued
                      told;
                fresh = pop-IsFresh s.queues_made index queue_id queue s.wait_apply_ch r.fresh;
              })
      ]

  begun-Running :
      (op : Op) (s : KvServer F E) (m : Machine) → Running s m → Running (begin_request op s).0 m
  unfolding begin_request
  begun-Running op s m r =
      begun-keeps (start (text.dump_op op) s.node) s m (start-IsWf (text.dump_op op) s.node r.wf) r
    where
      begun-keeps :
          (x : Raft F × Option (ℕ × ℕ)) (s : KvServer F E) (m : Machine)
          → IsWf x.0
          → Running s m
          → Running (started x s).0 m
      begun-keeps (node, none) s m w r = record {
        wf = w;
        refines = Refines-moved ops laws node s.wait_apply_ch s.queues_made s m r.refines;
        queued = r.queued;
        fresh = r.fresh;
      }
      begun-keeps (node, some (index, term)) s m w r = record {
        wf = w;
        refines = Refines-moved ops laws node _ _ s m r.refines;
        queued =
            opened-Queued (Told client id m) s.queues_made index
              (find_channel index s.wait_apply_ch) s.wait_apply_ch r.queued;
        fresh =
            opened-IsFresh s.queues_made index (find_channel index s.wait_apply_ch) s.wait_apply_ch
              r.fresh;
      }

  read-Running :
      (now : ℕ) (args : GetArgs) (s : KvServer F E) (m : Machine)
      → Running s m
      → Running (get_at_read_index ops now args s).0 m
  unfolding get_at_read_index
  read-Running now args s m r =
      let refined = (execute_read_only_get-visible ops laws now (get_op args) s m r.refines).1 in
      let (node, channels, made) = execute_read_only_get-node ops now (get_op args) s in
      record {
        wf = subst IsWf (sym node) r.wf;
        refines = refined;
        queued = subst (Queued (Told client id m)) (sym channels) r.queued;
        fresh = rw (channels, made) r.fresh;
      }

  Serves-Running :
      {s : KvServer F E} {m : Machine} {t : KvServer F E} {n : Machine}
      → Serves s m t n
      → Running s m
      → Running t n
  Serves-Running (begins op s m) r = begun-Running op s m r
  Serves-Running (applies now op index s m out write no_later later e) r =
      applied-Running now op index s out m write later e r
  Serves-Running (finishes op index queue_id s m out err e) r =
      finished-Running op index queue_id s out m err e r
  Serves-Running (reads now args s m) r = read-Running now args s m r

  pub Reaches-Running :
      {s : KvServer F E} {m : Machine} {t : KvServer F E} {n : Machine}
      → Reaches s m t n
      → Running s m
      → Running t n
  Reaches-Running here r = r
  Reaches-Running (next path step) r = Serves-Running step (Reaches-Running path r)

  -- In every server that is reached the next number is a new one.
  pub Reaches-IsFresh :
      {s : KvServer F E} {m : Machine} {t : KvServer F E} {n : Machine}
      → IsWf s.node
      → Refines ops laws s m
      → s.wait_apply_ch ≡ []
      → Reaches s m t n
      → IsFresh t.queues_made t.wait_apply_ch
  Reaches-IsFresh w f idle path =
      (Reaches-Running path
        (record { wf = w; refines = f; queued = rw idle tt; fresh = rw idle tt })).fresh
