-- ===== src/Server/Requests.antt =====
-- `KvServer::Get` and `KvServer::PutAppend`. A handler waits without a lock, so that it is cut there:
-- its begin, up to the wait for the queue, and its end, from what `timeOutPop` found. `none` is the use
-- of a queue that was deleted.
use kv_raft_storage.Common.{
  ℕ, ◌+◌, ◌%◌, ◌^◌, Bool, ◌&&◌, List, [], ◌∷◌, Option, none, some, ◌>>=◌, ◌==◌, ltb, if◌then◌else◌,
  Bytes, bytes_eq,
}
use kv_raft_storage.Storage.Engine.{KvEngine}
use kv_raft_storage.Raft.State.{Raft, Archive}
use kv_raft_storage.Raft.Vote.{is_leader}
use kv_raft_storage.Raft.Leader.{start}
use kv_raft_storage.Server.State.{
  Op, Channel, ServerText, KvServer, GetArgs, GetReply, PutAppendArgs, Err, ok, wrong_leader,
}
use kv_raft_storage.Server.Execute.{
  get_word, fill_get_reply, is_request_duplicate, execute_get, execute_read_only_get,
}
use kv_raft_storage.Server.Apply.{find_channel}

unfoldable pub get_op : GetArgs → Op
get_op args = record {
  operation = get_word;
  key = args.key;
  value = [];
  client_id = args.client_id;
  request_id = args.request_id;
  ttl_ms = 0;
  expire_at_ms = 0;
}

-- A `uint64_t` as the `int64_t` with its bits, where a negative one is no deadline.
abbrev pub as_deadline : ℕ → ℕ
as_deadline t = if ltb t (2 ^ 63) then t else 0

unfoldable pub expire_at : ℕ → ℕ → ℕ
expire_at now ttl_ms = if ltb 0 ttl_ms then as_deadline ((now + ttl_ms) % 2 ^ 64) else 0

unfoldable pub put_append_op : ℕ → PutAppendArgs → Op
put_append_op now args = record {
  operation = args.op;
  key = args.key;
  value = args.value;
  client_id = args.client_id;
  request_id = args.request_id;
  ttl_ms = args.ttl_ms;
  expire_at_ms = expire_at now args.ttl_ms;
}

-- The queue for an index is made where there is none; `made` queues were made before.
abbrev pub opened : ℕ → ℕ → Option Channel → List (ℕ × Channel) → List (ℕ × Channel)
opened made index none channels = (index, record { queue_id = made; queue = [] }) ∷ channels
opened made index (some c) channels = channels

-- `chForRaftIndex`, and the number of queues made.
abbrev pub taken : ℕ → Option Channel → ℕ × ℕ
taken made none = (made, made + 1)
taken made (some c) = (c.queue_id, made)

-- The queue is deleted, and the index taken out.
unfoldable pub close_channel : ℕ → List (ℕ × Channel) → List (ℕ × Channel)
close_channel index [] = []
close_channel index (c ∷ channels) =
    let rest = close_channel index channels in if index == c.0 then channels else c ∷ rest

-- The queue that a pointer points to: those that are not deleted are all in `waitApplyCh`.
unfoldable pub find_queue : ℕ → List (ℕ × Channel) → Option (List Op)
find_queue id [] = none
find_queue id (c ∷ channels) =
    let rest = find_queue id channels in if id == c.1.queue_id then some c.1.queue else rest

unfoldable pub set_queue : ℕ → List Op → List (ℕ × Channel) → List (ℕ × Channel)
set_queue id queue [] = []
set_queue id queue (c ∷ channels) =
    let rest = set_queue id queue channels in
    if id == c.1.queue_id then (c.0, record c.1 { queue = queue }) ∷ channels else c ∷ rest

abbrev pub pop_front : ℕ → List Op → List (ℕ × Channel) → Option Op × List (ℕ × Channel)
pop_front id [] channels = (none, channels)
pop_front id (op ∷ queue) channels = (some op, set_queue id queue channels)

-- `timeOutPop` through the pointer to a queue: an empty queue is one that stayed empty until the timeout.
unfoldable pub time_out_pop : ℕ → List (ℕ × Channel) → Option (Option Op × List (ℕ × Channel))
time_out_pop id channels = do queue ← find_queue id channels; some (pop_front id queue channels)

-- The operation that was committed at the index is the one that waits for it.
abbrev pub same_request : Op → Op → Bool
same_request committed op =
    bytes_eq committed.client_id op.client_id && committed.request_id == op.request_id

abbrev pub rejected : GetReply
rejected = record { err = wrong_leader; value = [] }

module _ {F E : Type 0} where
  module _ ⦃ar : Archive F⦄ ⦃text : ServerText F⦄ where
    abbrev pub begun : ℕ → KvServer F E → KvServer F E
    begun index s = record s {
      wait_apply_ch =
          opened s.queues_made index (find_channel index s.wait_apply_ch) s.wait_apply_ch;
      queues_made = (taken s.queues_made (find_channel index s.wait_apply_ch)).1;
    }

    -- The pointer to the queue for an index that a handler takes then.
    abbrev pub held : ℕ → KvServer F E → ℕ
    held index s = (taken s.queues_made (find_channel index s.wait_apply_ch)).0

    abbrev pub started : Raft F × Option (ℕ × ℕ) → KvServer F E → KvServer F E × Option (ℕ × ℕ)
    started (node, none) s = (record s { node = node }, none)
    started (node, some (index, _)) s =
        (begun index (record s { node = node }), some (index, held index s))

    -- From `Start` to the wait: the index to wait for and the pointer to its queue, if this node leads.
    unfoldable pub begin_request : Op → KvServer F E → KvServer F E × Option (ℕ × ℕ)
    begin_request op s = started (start (text.dump_op op) s.node) s

  abbrev pub put_append_err : Op → Option Op → KvServer F E → Err
  put_append_err op none s =
      if is_request_duplicate op.client_id op.request_id s then ok else wrong_leader
  put_append_err op (some committed) s = if same_request committed op then ok else wrong_leader

  -- `PutAppend` from the wait on, for the queue `id` that it took for the index.
  unfoldable pub finish_put_append : Op → ℕ → ℕ → KvServer F E → Option (KvServer F E × Err)
  finish_put_append op index id s = do
    (popped, channels) ← time_out_pop id s.wait_apply_ch
    some (record s { wait_apply_ch = close_channel index channels }, put_append_err op popped s)

  module _ (ops : KvEngine E) where
    abbrev pub executed : KvServer F E × Option Bytes → KvServer F E × GetReply
    executed r = (r.0, fill_get_reply r.1)

    abbrev pub get_reply : ℕ → Op → Option Op → KvServer F E → KvServer F E × GetReply
    get_reply now op none s =
        if is_request_duplicate op.client_id op.request_id s && is_leader s.node.status
        then executed (execute_get ops now op s)
        else (s, rejected)
    get_reply now op (some committed) s =
        if same_request committed op then executed (execute_get ops now op s) else (s, rejected)

    -- `Get` from the wait on.
    unfoldable pub finish_get : ℕ → Op → ℕ → ℕ → KvServer F E → Option (KvServer F E × GetReply)
    finish_get now op index id s = do
      (popped, channels) ← time_out_pop id s.wait_apply_ch
      let r = get_reply now op popped (record s { wait_apply_ch = channels })
      some (record r.0 { wait_apply_ch = close_channel index r.0.wait_apply_ch }, r.1)

    -- `Get` once `ReadIndex` and `WaitForApplied` have said yes.
    unfoldable pub get_at_read_index : ℕ → GetArgs → KvServer F E → KvServer F E × GetReply
    get_at_read_index now args s = executed (execute_read_only_get ops now (get_op args) s)
