-- ===== src/Server/Machine.antt =====
-- The key-value machine that `KvServer` stands for: a map of values, their deadlines, and the last
-- request of each client.
use kv_raft_storage.Common.{
  ℕ, List, [], ◌∷◌, Option, none, some, ltb, if◌then◌else◌, Bytes, bytes_eq,
}
use kv_raft_storage.Server.State.{Op}
use kv_raft_storage.Server.Execute.{put_word, append_word, passed, not_newer, extended}

pub record Machine : Type 0 where
  pub values : Bytes → Option Bytes
  pub deadlines : Bytes → Option ℕ
  pub last : Bytes → Option ℕ

abbrev pub updated : {A : Type 0} → Bytes → A → (Bytes → A) → Bytes → A
updated key v m j = if bytes_eq j key then v else m j

abbrev pub deadline_of : ℕ → Option ℕ
deadline_of at = if ltb 0 at then some at else none

-- A key is hidden from its deadline on.
abbrev pub visible : ℕ → Bytes → Machine → Option Bytes
visible now key m = if passed now (m.deadlines key) then none else m.values key

abbrev pub assign : Op → Bytes → Machine → Machine
assign op value m = record {
  values = updated op.key (some value) m.values;
  deadlines = updated op.key (deadline_of op.expire_at_ms) m.deadlines;
  last = updated op.client_id (some op.request_id) m.last;
}

-- One operation, at the time of its application.
unfoldable pub machine_step : ℕ → Op → Machine → Machine
machine_step now op m =
    if not_newer op.request_id (m.last op.client_id)
    then m
    else if bytes_eq op.operation put_word
    then assign op op.value m
    else if bytes_eq op.operation append_word
    then assign op (extended (visible now op.key m) op.value) m
    else m

unfoldable pub machine_run : List (ℕ × Op) → Machine → Machine
machine_run [] m = m
machine_run (x ∷ rest) m = machine_run rest (machine_step x.0 x.1 m)
