-- ===== src/Raft/Tests.antt =====
-- Runs of the handlers on small nodes.
pub mod Leading
use kv_raft_storage.Raft.Snapshot.Install.{install_snapshot-IsCut}
use kv_raft_storage.Common.{
  ℕ, true, false, List, [], ◌∷◌, Option, none, some, ◌≡◌, refl, ◌≤◌, ◌↔◌, arith, length,
}
use kv_raft_storage.Raft.State.{
  LogEntry, Persisted, Archive, Raft, follower, AppendEntriesArgs, AppendEntriesReply,
  RequestVoteArgs, RequestVoteReply, normal, voted, InstallSnapshotRequest, ApplyMsg,
}
use kv_raft_storage.Raft.Log.{
  get_last_log_index, get_last_log_term, persist_data, match_log, up_to_date,
}
use kv_raft_storage.Raft.Vote.{request_vote}
use kv_raft_storage.Raft.Append.{
  append_entries, append_checked, accept_entries, store_entries, store_entry,
}
use kv_raft_storage.Raft.Snapshot.{get_apply_logs, take_snapshot, install_snapshot, init}
use kv_raft_storage.Raft.Invariant.{IsWf}
use kv_raft_storage.Raft.Append.Total.{Fits}
use kv_raft_storage.Raft.Append.Success.{append_entries-IsWf}
use kv_raft_storage.Raft.Append.Holds.{Holds, append_entries-Holds}
use kv_raft_storage.Raft.Append.Progress.{Grows, append_entries-Grows}
use kv_raft_storage.Raft.Append.Hint.{heartbeat_commits_whole_log}
use kv_raft_storage.Raft.Snapshot.Apply.{Delivers, get_apply_logs-Delivers}
use kv_raft_storage.Raft.Snapshot.Truncate.{IsCut, take_snapshot-IsCut}
use kv_raft_storage.Raft.Election.{Vote, born, lives, answers_vote, restarts}
use kv_raft_storage.Raft.Election.Effect.{disk_term}
use kv_raft_storage.Raft.Election.Safety.{Consistent, one_vote_per_term}
use kv_raft_storage.Raft.Election.Grant.{NoOlder, IsFree, request_vote-granted_iff}

-- A file is what was archived last.
abbrev pub File : Type 0
File = Option Persisted

instance pub files : Archive File
files = record {
  blank = none;
  dump = some;
  load = λ f. f;
  noop_text = λ term. term ∷ [];
  load-blank = refl;
  load-dump = λ p. refl;
}

abbrev entry : ℕ → ℕ → ℕ → LogEntry
entry c term index = record { command = c ∷ []; log_term = term; log_index = index }

-- Node 0 of three, in term 2, with three entries of which one is committed.
abbrev pub node : Raft File
node = record {
  peers = 3;
  me = 0;
  current_term = 2;
  voted_for = none;
  logs = entry 7 1 1 ∷ entry 8 1 2 ∷ entry 9 1 3 ∷ [];
  commit_index = 2;
  last_applied = 0;
  next_index = 0 ∷ 0 ∷ 0 ∷ [];
  match_index = 0 ∷ 0 ∷ 0 ∷ [];
  status = follower;
  last_reset_election = 0;
  last_reset_heartbeat = 0;
  last_snapshot_index = 0;
  last_snapshot_term = 0;
  raft_file = none;
  snapshot_file = [];
  pushed = [];
}

pub node-IsWf : IsWf node
node-IsWf = record {
  contiguous = (refl, (refl, (refl, tt)));
  commit_in_log = omega arith;
  applied_past_snapshot = omega arith;
  applied_in_log = omega arith;
  me_is_peer = omega arith;
  next_sized = refl;
  match_sized = refl;
}

-- The leader of term 3 overwrites entry 3 and adds entry 4.
abbrev message : AppendEntriesArgs
message = record {
  term = 3;
  leader_id = 1;
  prev_log_index = 2;
  prev_log_term = 1;
  entries = entry 5 3 3 ∷ entry 6 3 4 ∷ [];
  leader_commit = 3;
}

message-Fits : Fits message node
message-Fits = record { follows = (refl, (refl, tt)); agrees = ((λ e. ground arith), tt) }

abbrev empty_reply : AppendEntriesReply
empty_reply = record { term = 0; success = false; update_next_index = none; app_normal = false }

-- What a handler returned, or the node itself.
abbrev state_of {ℓ} : {A : Type ℓ} → Raft File → Option (Raft File × A) → Raft File
state_of r none = r
state_of r (some (out, a)) = out

abbrev reply_of : Option (Raft File × AppendEntriesReply) → AppendEntriesReply
reply_of none = empty_reply
reply_of (some (out, reply)) = reply

abbrev stored : Raft File
stored = state_of node (append_entries 5 message node)

append_entries-IsWf_example :
    (out : Raft File) × (reply : AppendEntriesReply) × (append_entries 5 message node
      ≡ some (out, reply))
    × IsWf out
append_entries-IsWf_example = append_entries-IsWf 5 message node node-IsWf message-Fits

append_entries-Holds_example : Holds message node (state_of node (append_entries 5 message node))
unfolding append_entries append_checked get_last_log_index match_log accept_entries store_entries
    store_entry
append_entries-Holds_example =
    append_entries-Holds 5 message node (state_of node (append_entries 5 message node))
      (reply_of (append_entries 5 message node)) node-IsWf message-Fits refl refl

append_entries-Grows_example : Grows message node (state_of node (append_entries 5 message node))
unfolding append_entries append_checked get_last_log_index match_log accept_entries store_entries
    store_entry
append_entries-Grows_example =
    append_entries-Grows 5 message node (state_of node (append_entries 5 message node))
      (reply_of (append_entries 5 message node)) node-IsWf message-Fits refl

-- A message that starts behind the node's log.
abbrev far_message : AppendEntriesArgs
far_message = record message { prev_log_index = 9; entries = [] }

-- A heartbeat whose `prevlogindex` is 1 and whose leader has committed 5.
abbrev heartbeat : AppendEntriesArgs
heartbeat = record message { prev_log_index = 1; entries = []; leader_commit = 5 }

heartbeat_commits_whole_log_example :
    ((state_of node (append_entries 5 heartbeat node)).commit_index ≡ 3)
    × ((state_of node (append_entries 5 heartbeat node)).logs ≡ node.logs)
unfolding append_entries append_checked get_last_log_index match_log accept_entries store_entries
heartbeat_commits_whole_log_example =
    heartbeat_commits_whole_log 5 heartbeat node (state_of node (append_entries 5 heartbeat node))
      (reply_of (append_entries 5 heartbeat node)) node-IsWf refl refl refl (omega arith)
      (omega arith)

get_apply_logs-Delivers_example :
    (ms : List ApplyMsg) × (get_apply_logs node ≡ some (record node { last_applied = 2 }, ms))
    × (length ms ≡ 2)
    × Delivers node 0 ms
get_apply_logs-Delivers_example = get_apply_logs-Delivers node node-IsWf

take_snapshot-IsCut_example :
    (out : Raft File) × (take_snapshot 1 (4 ∷ []) node ≡ some out)
    × IsCut node out 1
    × (out.snapshot_file ≡ 4 ∷ [])
    × (out.raft_file ≡ some (persist_data out))
unfolding files
take_snapshot-IsCut_example =
    take_snapshot-IsCut 1 (4 ∷ []) node node-IsWf (omega arith) (omega arith)

abbrev install : InstallSnapshotRequest
install = record {
  leader_id = 1;
  term = 3;
  last_snapshot_index = 2;
  last_snapshot_term = 1;
  snapshot = 4 ∷ [];
}

install_snapshot-IsCut_example :
    (out : Raft File) × (install_snapshot 5 install node ≡ some (out, out.current_term))
    × IsCut node out 2
    × (out.snapshot_file ≡ 4 ∷ [])
    × (out.raft_file ≡ some (persist_data out))
unfolding files
install_snapshot-IsCut_example =
    install_snapshot-IsCut 5 install node node-IsWf (omega arith) (omega arith)

abbrev ballot : ℕ → RequestVoteArgs
ballot candidate = record {
  term = 4;
  candidate_id = candidate;
  last_log_index = 3;
  last_log_term = 1;
}

abbrev voted_node : Raft File
voted_node = state_of node (request_vote 5 (ballot 1) node)

abbrev granting : RequestVoteReply
granting = record { term = 4; vote_state = normal; vote_granted = true }

request_vote-granted_iff_example :
    (true ≡ true) ↔ ((2 ≤ 4) × NoOlder (ballot 1) node × IsFree (ballot 1) node)
unfolding request_vote up_to_date get_last_log_term get_last_log_index
request_vote-granted_iff_example =
    request_vote-granted_iff 5 (ballot 1) node voted_node granting refl

-- A node starts, votes for 1, crashes, restarts and is asked by 2.
abbrev first : Raft File
first = init 0 3 0 none []

abbrev second : Raft File
second = state_of first (request_vote 5 (ballot 1) first)

abbrev third : Raft File
third = init 6 3 0 second.raft_file second.snapshot_file

abbrev fourth : Raft File
fourth = state_of third (request_vote 7 (ballot 2) third)

abbrev vote_for_1 : Vote
vote_for_1 = record { term = 4; candidate = 1 }

one_vote_per_term_example : Consistent (vote_for_1 ∷ []) × (disk_term fourth ≤ fourth.current_term)
unfolding request_vote init files up_to_date get_last_log_term
one_vote_per_term_example = one_vote_per_term ⦃ar = files⦄ {now = 0} {peers = 3} {me = 0} (
    lives fourth []
      (lives third []
        (lives second (vote_for_1 ∷ []) born (answers_vote 5 (ballot 1) granting refl refl))
        (restarts 6 refl refl))
      (answers_vote 7 (ballot 2) (record { term = 4; vote_state = voted; vote_granted = false })
        refl refl))
