-- ===== src/Server/Tests/Waiting.antt =====
-- Runs of the handlers that wait, and of expiry.
use kv_raft_storage.Common.{
  [], ◌∷◌, none, some, ◌≡◌, refl, ◌+◌, arith, inl, true, false, if◌then◌else◌, ltb,
}
use kv_raft_storage.Raft.Tests.{File, files, node-IsWf}
use kv_raft_storage.Storage.SortedMap.{find, insert}
use kv_raft_storage.Storage.Layers.{Lsm}
use kv_raft_storage.Storage.Engine.LsmEngine.{lsm_engine, lsm_engine-IsMap}
use kv_raft_storage.Storage.Tests.{sums}
use kv_raft_storage.Server.State.{KvServer, GetArgs, PutAppendArgs, ok}
use kv_raft_storage.Server.Execute.{put_word, is_request_duplicate, execute_get, fill_get_reply}
use kv_raft_storage.Server.Apply.{apply_command, find_channel}
use kv_raft_storage.Server.Requests.{put_append_op, begin_request, finish_put_append}
use kv_raft_storage.Server.Machine.{machine_step}
use kv_raft_storage.Server.Refine.{Refines, Refines-moved}
use kv_raft_storage.Server.Acknowledged.{Applied, acknowledged-Applied}
use kv_raft_storage.Server.Serving.{here, next, applies, begins}
use kv_raft_storage.Server.Hazards.{execute_get-forgets}
use kv_raft_storage.Server.Expiry.{put-readable}
use kv_raft_storage.Server.Tests.Text.{texts}
use kv_raft_storage.Raft.Tests.Leading.{leading, leading-IsWf}
use kv_raft_storage.Raft.Leader.{start}
use kv_raft_storage.Raft.Log.{get_new_command_index, get_last_log_index, persist}
use kv_raft_storage.Storage.SortedMap.{erase}
use kv_raft_storage.Common.{bytes_eq}
use kv_raft_storage.Server.Execute.{execute_op, execute_put, note_request, set_key_expire}
use kv_raft_storage.Server.Apply.{send_snapshot_if_needed, send_to_wait_chan}
use kv_raft_storage.Server.Requests.{time_out_pop, close_channel, find_queue, get_at_read_index}
use kv_raft_storage.Server.Tests.{blank, empty, nothing, empty-Refines, put_five}

-- A server that has seen request 1 of client 1.
abbrev noted : KvServer File Lsm
noted = record empty { last_request_id = (1 ∷ [], 2) ∷ [] }

noted-duplicate : is_request_duplicate (1 ∷ []) 2 noted ≡ true
unfolding is_request_duplicate find bytes_eq
noted-duplicate = refl

execute_get-forgets_example :
    is_request_duplicate (1 ∷ []) 2 (execute_get lsm_engine 0 put_five noted).0 ≡ false
execute_get-forgets_example =
    execute_get-forgets lsm_engine 0 put_five noted 2 (omega arith) noted-duplicate

abbrev put_args : PutAppendArgs
put_args = record {
  key = 9 ∷ [];
  value = 5 ∷ [];
  op = put_word;
  client_id = 1 ∷ [];
  request_id = 1;
  ttl_ms = 10;
}

abbrev get_args : GetArgs
get_args = record { key = 9 ∷ []; client_id = 2 ∷ []; request_id = 1 }

put_new : is_request_duplicate (1 ∷ []) 1 empty ≡ false
unfolding is_request_duplicate find
put_new = refl

put-readable_example :
    (out : KvServer File Lsm) × (apply_command lsm_engine 105 (put_append_op 100 put_args) 1 empty
      ≡ some out)
    × ((get_at_read_index lsm_engine 111 get_args out).1
        ≡ fill_get_reply (if ltb (100 + 10) 111 then none else some (5 ∷ [])))
put-readable_example =
    put-readable lsm_engine lsm_engine-IsMap 100 105 111 1 put_args get_args empty nothing node-IsWf
      empty-Refines (omega arith) refl (omega arith) (omega arith) put_new refl

-- A leader applies the put_five at index 1, and its client asks again.
abbrev leader_server : KvServer File Lsm
leader_server = record empty { node = leading }

leader_server-Refines : Refines lsm_engine lsm_engine-IsMap leader_server nothing
leader_server-Refines =
    Refines-moved lsm_engine lsm_engine-IsMap leading [] 0 empty nothing empty-Refines

abbrev applied_once : KvServer File Lsm
applied_once = record leader_server {
  engine = lsm_engine.put (9 ∷ []) (5 ∷ []) blank;
  last_request_id = (1 ∷ [], 1) ∷ [];
}

applied : apply_command lsm_engine 0 put_five 1 leader_server ≡ some applied_once
unfolding apply_command is_request_duplicate execute_op execute_put note_request set_key_expire
    send_snapshot_if_needed send_to_wait_chan find_channel find insert erase bytes_eq
applied = refl

abbrev asked_again : KvServer File Lsm
asked_again = (begin_request put_five applied_once).0

abbrev answered : KvServer File Lsm
answered = record asked_again { wait_apply_ch = [] }

asked_again-ok : finish_put_append put_five 5 0 asked_again ≡ some (answered, ok)
unfolding finish_put_append begin_request start time_out_pop find_channel find_queue close_channel
    is_request_duplicate find bytes_eq get_new_command_index get_last_log_index persist
asked_again-ok = refl

acknowledged-Applied_example :
    Applied lsm_engine lsm_engine-IsMap
      (1 ∷ [])
      1
      leader_server
      nothing
      asked_again
      (machine_step 0 put_five nothing)
acknowledged-Applied_example =
    acknowledged-Applied lsm_engine lsm_engine-IsMap (1 ∷ []) 1 put_five 5 0 answered leading-IsWf
      leader_server-Refines refl refl
      (next
        (next here (
          applies 0 put_five 1 leader_server nothing applied_once (λ carries. inl refl)
            (λ same. omega arith) (omega arith) applied))
        (begins put_five applied_once (machine_step 0 put_five nothing)))
      (refl, refl) asked_again-ok
