-- ===== src/Server/Hazards.antt =====
-- Interleavings of `KvServer` that go wrong.
use kv_raft_storage.Common.{
  ℕ, ◌+◌, ◌<◌, true, false, [], ◌∷◌, some, ◌≡◌, inl, inr, Bool-cases, arith,
}
use kv_raft_storage.Storage.SortedMap.{find, find-insert_self}
use kv_raft_storage.Storage.Engine.{KvEngine}
use kv_raft_storage.Raft.State.{Archive}
use kv_raft_storage.Server.State.{Op, KvServer, ServerText}
use kv_raft_storage.Server.Execute.{
  is_request_duplicate, execute_get, note_request, is_key_expired, delete_expired,
}

module _ {F E : Type 0} (ops : KvEngine E) where
  execute_get-last :
      (now : ℕ) (op : Op) (s : KvServer F E)
      → find op.client_id (execute_get ops now op s).0.last_request_id ≡ some op.request_id
  unfolding execute_get note_request delete_expired
  execute_get-last now op s = elim (Bool-cases (is_key_expired now op.key s)) [
    | inl past ↦ rw past (find-insert_self op.client_id op.request_id s.last_request_id)
    | inr open_ ↦ rw open_ (find-insert_self op.client_id op.request_id s.last_request_id)
  ]

  -- A `Get` that was logged and is answered late, after a later request of its client has been applied,
  -- makes the server forget that request: it is no duplicate any more, and would be applied again.
  pub execute_get-forgets :
      (now : ℕ) (op : Op) (s : KvServer F E) (later : ℕ)
      → op.request_id < later
      → is_request_duplicate op.client_id later s ≡ true
      → is_request_duplicate op.client_id later (execute_get ops now op s).0 ≡ false
  unfolding is_request_duplicate
  execute_get-forgets now op s later lt seen = rw (execute_get-last now op s) (ground arith)

module _ {F E : Type 0} ⦃ar : Archive F⦄ ⦃text : ServerText F⦄ where
  -- A queue that was just made, before the others.
  abbrev with_queue : ℕ → KvServer F E → KvServer F E
  with_queue index s = record s {
    wait_apply_ch = (index, record { queue_id = s.queues_made; queue = [] }) ∷ s.wait_apply_ch;
    queues_made = s.queues_made + 1;
  }

  abbrev closed : KvServer F E → KvServer F E
  closed s = record s { queues_made = s.queues_made + 1 }
