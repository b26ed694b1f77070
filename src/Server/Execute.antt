-- ===== src/Server/Execute.antt =====
-- The operations of `KvServer` on its engine: `ExecuteAppendOpOnKVDB`, `ExecuteGetOpOnKVDB`,
-- `ExecuteReadOnlyGetOpOnKVDB`, `ExecutePutOpOnKVDB`, and the expiry of keys. `getCurrentTimeMs` is the
-- argument `now` of the operation; where it is called several times the clock stands still between.
use kv_raft_storage.Common.{
  ℕ, Bool, false, [], ◌∷◌, ◌++◌, Option, none, some, ltb, leb, if◌then◌else◌, Bytes, bytes_eq,
}
use kv_raft_storage.Storage.SortedMap.{find, insert, erase}
use kv_raft_storage.Storage.Engine.{KvEngine}
use kv_raft_storage.Server.State.{Op, KvServer, GetReply, ok, no_key}

abbrev pub put_word : Bytes
put_word = b'P' ∷ b'u' ∷ b't' ∷ []

abbrev pub append_word : Bytes
append_word = b'A' ∷ b'p' ∷ b'p' ∷ b'e' ∷ b'n' ∷ b'd' ∷ []

abbrev pub get_word : Bytes
get_word = b'G' ∷ b'e' ∷ b't' ∷ []

abbrev pub passed : ℕ → Option ℕ → Bool
passed now none = false
passed now (some at) = ltb at now

abbrev pub not_newer : ℕ → Option ℕ → Bool
not_newer request_id none = false
not_newer request_id (some last) = leb request_id last

-- `oldValue + op.Value`, or the value alone.
abbrev pub extended : Option Bytes → Bytes → Bytes
extended none value = value
extended (some old) value = old ++ value

unfoldable pub fill_get_reply : Option Bytes → GetReply
fill_get_reply (some value) = record { err = ok; value = value }
fill_get_reply none = record { err = no_key; value = [] }

module _ {F E : Type 0} where
  unfoldable pub is_key_expired : ℕ → Bytes → KvServer F E → Bool
  is_key_expired now key s = passed now (find key s.expire_map)

  unfoldable pub set_key_expire : Bytes → ℕ → KvServer F E → KvServer F E
  set_key_expire key expire_at_ms s = record s {
    expire_map =
        if ltb 0 expire_at_ms then insert key expire_at_ms s.expire_map else erase key s.expire_map;
  }

  unfoldable pub is_request_duplicate : Bytes → ℕ → KvServer F E → Bool
  is_request_duplicate client_id request_id s =
      not_newer request_id (find client_id s.last_request_id)

  -- `m_lastRequestId[op.ClientId] = op.RequestId`
  unfoldable pub note_request : Op → KvServer F E → KvServer F E
  note_request op s = record s {
    last_request_id = insert op.client_id op.request_id s.last_request_id;
  }

  module _ (ops : KvEngine E) where
    unfoldable pub delete_expired : Bytes → KvServer F E → KvServer F E
    delete_expired key s = record s {
      engine = ops.delete key s.engine;
      expire_map = erase key s.expire_map;
    }

    unfoldable pub execute_append : ℕ → Op → KvServer F E → KvServer F E
    execute_append now op s =
        let s1 = if is_key_expired now op.key s then delete_expired op.key s else s in
        let got = ops.get op.key s1.engine in
        note_request op (
          set_key_expire op.key op.expire_at_ms
            (record s1 { engine = ops.put op.key (extended got.1 op.value) got.0 }))

    unfoldable pub execute_put : Op → KvServer F E → KvServer F E
    execute_put op s = note_request op (
        set_key_expire op.key op.expire_at_ms
          (record s { engine = ops.put op.key op.value s.engine }))

    -- The value, if the key exists.
    unfoldable pub execute_get : ℕ → Op → KvServer F E → KvServer F E × Option Bytes
    execute_get now op s =
        if is_key_expired now op.key s
        then (note_request op (delete_expired op.key s), none)
        else let got = ops.get op.key s.engine in
          (note_request op (record s { engine = got.0 }), got.1)

    unfoldable pub execute_read_only_get : ℕ → Op → KvServer F E → KvServer F E × Option Bytes
    execute_read_only_get now op s =
        if is_key_expired now op.key s
        then (s, none)
        else let got = ops.get op.key s.engine in (record s { engine = got.0 }, got.1)

    -- The branches of `GetCommandFromRaft` on the operation's name.
    unfoldable pub execute_op : ℕ → Op → KvServer F E → KvServer F E
    execute_op now op s =
        if bytes_eq op.operation put_word
        then execute_put op s
        else if bytes_eq op.operation append_word
        then execute_append now op s
        else s
