-- ===== src/Server/Tests.antt =====
-- Runs of the server on small data, over an LSM engine.
mod Text
mod Waiting
use kv_raft_storage.Common.{
  ℕ, List, [], ◌∷◌, ◌++◌, Option, none, some, ◌≡◌, refl, ap, sym, ◌∙◌, ◌<◌, ◌^◌, ◌+◌, All, Bytes,
  arith, inl, inr, true, false, if◌then◌else◌, ltb, length,
}
use kv_raft_storage.Raft.State.{Raft, snapshot_msg}
use kv_raft_storage.Raft.Tests.{File, files, node, node-IsWf}
use kv_raft_storage.Storage.SortedMap.{find, insert}
use kv_raft_storage.Storage.Table.{Hasher}
use kv_raft_storage.Storage.Layers.{Lsm, blank_engine, export_visible}
use kv_raft_storage.Storage.Lsm.History.{blank_engine-IsWf}
use kv_raft_storage.Storage.Engine.LsmEngine.{
  lsm_engine, lsm_engine-IsMap, IsWf-IsGood, Short-Fits, blank_engine-shows,
}
use kv_raft_storage.Storage.Tests.{sums}
use kv_raft_storage.Server.State.{Op, KvServer, GetArgs, PutAppendArgs, Err, ok}
use kv_raft_storage.Server.Execute.{
  put_word, append_word, is_request_duplicate, execute_get, fill_get_reply,
}
use kv_raft_storage.Server.Apply.{make_snapshot, read_apply_loop, apply_command, find_channel}
use kv_raft_storage.Server.Requests.{
  get_at_read_index, put_append_op, expire_at, begin_request, finish_put_append, begun,
}
use kv_raft_storage.Server.Machine.{Machine, visible, machine_run, machine_step}
use kv_raft_storage.Server.Refine.{Refines, Refines-moved}
use kv_raft_storage.Server.Commands.{timed, timed_ops, read_apply_loop-visible}
use kv_raft_storage.Server.Retry.{retry-visible, Seen}
use kv_raft_storage.Server.Transfer.{installed-visible}
use kv_raft_storage.Server.Hazards.{execute_get-forgets}
use kv_raft_storage.Server.Startup.{idle}
use kv_raft_storage.Server.Tests.Text.{texts}
use kv_raft_storage.Raft.Tests.Leading.{leading, leading-IsWf}
use kv_raft_storage.Raft.Leader.{start}
use kv_raft_storage.Raft.Log.{get_new_command_index, get_last_log_index, persist}
use kv_raft_storage.Storage.Lsm.Transfer.{ShortPair}
use kv_raft_storage.Storage.Layers.{collect_maps, collect_items}
use kv_raft_storage.Storage.SortedMap.{erase}
use kv_raft_storage.Common.{bytes_eq}
use kv_raft_storage.Server.Execute.{execute_op, execute_put, note_request, set_key_expire}
use kv_raft_storage.Server.Apply.{send_snapshot_if_needed, send_to_wait_chan}
use kv_raft_storage.Server.Requests.{time_out_pop, close_channel}

abbrev blank : Lsm
blank = blank_engine 2 [] [] []

-- A server with nothing in it, that takes no snapshots.
abbrev empty : KvServer File Lsm
empty = idle node none blank

abbrev nothing : Machine
nothing = record { values = λ key. none; deadlines = λ key. none; last = λ client. none }

empty-Refines : Refines lsm_engine lsm_engine-IsMap empty nothing
unfolding find
empty-Refines = record {
  good = IsWf-IsGood (blank_engine-IsWf 2 [] [] []);
  ascends = tt;
  values = λ key. blank_engine-shows 2 [] [] [] key;
  deadlines = λ key. refl;
  last = λ client. refl;
}

-- Client 1 writes the value 5 under key 9, and appends 6 to it.
abbrev put_five : Op
put_five = record {
  operation = put_word;
  key = 9 ∷ [];
  value = 5 ∷ [];
  client_id = 1 ∷ [];
  request_id = 1;
  ttl_ms = 0;
  expire_at_ms = 0;
}

abbrev extend : Op
extend = record put_five { operation = append_word; value = 6 ∷ []; request_id = 2 }

abbrev read_args : GetArgs
read_args = record { key = 9 ∷ []; client_id = 1 ∷ []; request_id = 3 }

read_apply_loop-visible_example :
    (out : KvServer File Lsm) × (read_apply_loop lsm_engine
        (timed texts ((0, put_five, 1) ∷ (0, extend, 2) ∷ []))
        empty
      ≡ some out)
    × ((get_at_read_index lsm_engine 0 read_args out).1
        ≡ fill_get_reply (
            visible 0
              (9 ∷ [])
              (machine_run (timed_ops ((0, put_five, 1) ∷ (0, extend, 2) ∷ [])) nothing)))
read_apply_loop-visible_example =
    read_apply_loop-visible lsm_engine lsm_engine-IsMap ((0, put_five, 1) ∷ (0, extend, 2) ∷ [])
      empty nothing 0 read_args node-IsWf empty-Refines (omega arith)

-- What the machine shows there.
machine_shows :
    visible 0 (9 ∷ []) (machine_run (timed_ops ((0, put_five, 1) ∷ (0, extend, 2) ∷ [])) nothing)
    ≡ some (5 ∷ 6 ∷ [])
unfolding machine_run machine_step bytes_eq
machine_shows = refl

-- The append again, behind another one.
abbrev extend_more : Op
extend_more = record extend { request_id = 3; value = 7 ∷ [] }

retry-visible_example :
    (out : KvServer File Lsm) × (read_apply_loop lsm_engine
        (timed texts
          ((0, put_five, 1) ∷ (0, extend, 2) ∷ (0, extend_more, 3) ∷ (4, extend, 4) ∷ []))
        empty
      ≡ some out)
    × ((get_at_read_index lsm_engine 0 read_args out).1
        ≡ fill_get_reply (
            visible 0 (9 ∷ []) (
              machine_run
                (timed_ops ((0, put_five, 1) ∷ (0, extend, 2) ∷ (0, extend_more, 3) ∷ []))
                nothing)))
retry-visible_example =
    retry-visible lsm_engine lsm_engine-IsMap ((0, put_five, 1) ∷ []) ((0, extend_more, 3) ∷ []) []
      0 4 2 4 0 extend extend empty nothing read_args node-IsWf empty-Refines (omega arith)
      (inr refl) refl (omega arith)

blank-Short : (length (export_visible blank) < 2 ^ 64) × All ShortPair (export_visible blank)
unfolding export_visible collect_maps collect_items blank_engine
blank-Short = (omega arith, tt)

installed-visible_example :
    (out : KvServer File Lsm) × (read_apply_loop lsm_engine
        ((3, snapshot_msg (make_snapshot lsm_engine empty) 1 1)
          ∷ timed texts ((4, put_five, 2) ∷ []))
        empty
      ≡ some out)
    × ((get_at_read_index lsm_engine 5 read_args out).1
        ≡ fill_get_reply
            (visible 5 (9 ∷ []) (machine_run (timed_ops ((4, put_five, 2) ∷ [])) nothing)))
installed-visible_example =
    installed-visible lsm_engine lsm_engine-IsMap ((4, put_five, 2) ∷ []) empty empty nothing 1 1 3
      5 read_args empty-Refines (Short-Fits blank blank-Short)
      (IsWf-IsGood (blank_engine-IsWf 2 [] [] [])) node-IsWf (omega arith)
