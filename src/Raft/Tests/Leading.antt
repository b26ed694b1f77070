-- ===== src/Raft/Tests/Leading.antt =====
-- Runs of the leader's handlers, and of a restart.
use kv_raft_storage.Raft.Leader.Elected.{Leads, handle_vote_reply-Leads}
use kv_raft_storage.Common.{ℕ, zero, suc, true, List, [], ◌∷◌, some, ◌≡◌, refl, ◌≤◌, ◌<◌, arith}
use kv_raft_storage.Raft.State.{
  Raft, leader, candidate, AppendEntriesArgs, AppendEntriesReply, RequestVoteReply, normal,
}
use kv_raft_storage.Raft.Log.{persist_data}
use kv_raft_storage.Raft.Vote.{others_below, handle_vote_reply}
use kv_raft_storage.Raft.Invariant.{IsWf}
use kv_raft_storage.Raft.Snapshot.{init}
use kv_raft_storage.Raft.Snapshot.Restart.{Restarted, init-Restarted}
use kv_raft_storage.Raft.Leader.{Send, do_heartbeat, handle_append_reply, start}
use kv_raft_storage.Raft.Leader.Sends.{SentAll, NextInRange, do_heartbeat-SentAll}
use kv_raft_storage.Raft.Leader.Replies.{Noted, handle_append_reply-Noted}
use kv_raft_storage.Raft.Leader.Entries.{Extends, start-Extends}
use kv_raft_storage.Raft.Tests.{File, files, entry, node, node-IsWf}

-- The leader has entry 4 of its own term; its followers are at different places.
abbrev pub leading : Raft File
leading = record node {
  status = leader;
  current_term = 2;
  logs = entry 7 1 1 ∷ entry 8 1 2 ∷ entry 9 1 3 ∷ entry 4 2 4 ∷ [];
  next_index = 5 ∷ 2 ∷ 5 ∷ [];
  match_index = 0 ∷ 1 ∷ 0 ∷ [];
}

pub leading-IsWf : IsWf leading
leading-IsWf = record {
  contiguous = (refl, (refl, (refl, (refl, tt))));
  commit_in_log = omega arith;
  applied_past_snapshot = omega arith;
  applied_in_log = omega arith;
  me_is_peer = omega arith;
  next_sized = refl;
  match_sized = refl;
}

leading-range : NextInRange leading
leading-range zero next h = ground arith
leading-range (suc zero) next h = ground arith
leading-range (suc (suc zero)) next h = ground arith
leading-range (suc (suc (suc s))) next h = absurd (cc)

do_heartbeat-SentAll_example :
    (ms : List Send) × (do_heartbeat 9 leading
      ≡ some (record leading { last_reset_heartbeat = 9 }, ms))
    × SentAll leading (others_below 0 3) ms
do_heartbeat-SentAll_example = do_heartbeat-SentAll 9 leading leading-IsWf refl leading-range

-- The message that brings node 1 up to date.
abbrev catching_up : AppendEntriesArgs
catching_up = record {
  term = 2;
  leader_id = 0;
  prev_log_index = 1;
  prev_log_term = 1;
  entries = entry 8 1 2 ∷ entry 9 1 3 ∷ entry 4 2 4 ∷ [];
  leader_commit = 2;
}

abbrev success : AppendEntriesReply
success = record { term = 2; success = true; update_next_index = some 0; app_normal = true }

handle_append_reply-Noted_example :
    (out : Raft File) × (nums' : ℕ) × (handle_append_reply 1 catching_up success leading 1
      ≡ some (out, nums'))
    × Noted 1 1 2 catching_up leading out
handle_append_reply-Noted_example =
    handle_append_reply-Noted 1 1 1 catching_up success leading leading-IsWf refl refl refl refl
      refl (omega arith) (omega arith)

start-Extends_example :
    ((start (3 ∷ []) leading).1 ≡ some (5, 2))
    × Extends (entry 3 2 5) leading (start (3 ∷ []) leading).0
    × (files.load (start (3 ∷ []) leading).0.raft_file
        ≡ some (persist_data (start (3 ∷ []) leading).0))
start-Extends_example = start-Extends (3 ∷ []) leading leading-IsWf refl

abbrev running : Raft File
running = record node { status = candidate }

running-IsWf : IsWf running
running-IsWf = let w = node-IsWf in assumption

abbrev vote : RequestVoteReply
vote = record { term = 2; vote_state = normal; vote_granted = true }

handle_vote_reply-Leads_example :
    (2 ≤ 2
      → (out : Raft File) × (handle_vote_reply vote (running, 1) ≡ some (out, 0))
        × Leads running out)
    × (2 < 2 → handle_vote_reply vote (running, 1) ≡ some (running, 2))
handle_vote_reply-Leads_example = handle_vote_reply-Leads vote 1 running running-IsWf refl refl refl

-- A node whose file holds its state.
abbrev saved : Raft File
saved = record node { raft_file = some (persist_data node) }

saved-IsWf : IsWf saved
saved-IsWf = let w = node-IsWf in assumption

init-Restarted_example : Restarted saved (init 9 3 0 saved.raft_file saved.snapshot_file)
unfolding files persist_data
init-Restarted_example = init-Restarted 9 saved saved-IsWf refl
