-- ===== src/Server/Transfer.antt =====
-- Snapshots of `KvServer`: what one server saves, another installs.
use kv_raft_storage.Common.{ℕ, ◌<◌, List, [], ◌∷◌, some, ◌≡◌, ◌≢◌, refl, ◌∙◌, Bytes, All}
use kv_raft_storage.Storage.Engine.{KvEngine, IsMap}
use kv_raft_storage.Raft.State.{Archive, snapshot_msg}
use kv_raft_storage.Raft.Invariant.{IsWf}
use kv_raft_storage.Server.State.{Op, Image, KvServer, ServerText, GetArgs}
use kv_raft_storage.Server.Execute.{fill_get_reply}
use kv_raft_storage.Server.Apply.{
  make_snapshot, parse_snapshot, read_snapshot_to_install, cond_install_snapshot,
  get_snapshot_from_raft, read_apply_loop,
}
use kv_raft_storage.Server.Requests.{get_at_read_index}
use kv_raft_storage.Server.Machine.{Machine, visible, machine_run}
use kv_raft_storage.Server.Refine.{Refines}
use kv_raft_storage.Server.Commands.{timed, timed_ops, read_apply_loop-visible}

module _ {F E : Type 0} (ops : KvEngine E) ⦃text : ServerText F⦄ where
  read_snapshot_to_install-eq :
      (snapshot : Bytes) (s : KvServer F E)
      → snapshot ≢ []
      → read_snapshot_to_install ops snapshot s ≡ parse_snapshot ops snapshot s
  unfolding read_snapshot_to_install
  read_snapshot_to_install-eq [] s ne = absurd (ne refl)
  read_snapshot_to_install-eq (c ∷ snapshot) s ne = refl

  module _ (laws : IsMap ops) where
    -- A snapshot whose engine fits is read whole: the other server stands for the same machine.
    pub read_snapshot-Refines :
        (s other : KvServer F E) (m : Machine)
        → Refines ops laws s m
        → laws.Fits s.engine
        → laws.IsGood other.engine
        → (out : KvServer F E) × (read_snapshot_to_install ops (make_snapshot ops s) other
            ≡ some out)
          × Refines ops laws out m
          × (out.node ≡ other.node)
    unfolding make_snapshot parse_snapshot
    read_snapshot-Refines s other m r fits good =
        let image : Image = record {
          serialized_kv_data = ops.snapshot s.engine;
          last_request_id = s.last_request_id;
          expire_map = s.expire_map;
        } in
        let (engine, restored, good', same) =
          laws.restores s.engine other.engine r.good fits good in
        (
          record other {
            engine = engine;
            last_request_id = s.last_request_id;
            expire_map = s.expire_map;
          },
          rw (
            read_snapshot_to_install-eq (text.dump_image image) other (text.dump_image_ne image),
            text.load-dump_image image,
            restored,
          ),
          record {
            good = good';
            ascends = r.ascends;
            values = λ j. same j ∙ r.values j;
            deadlines = r.deadlines;
            last = r.last;
          },
          refl,
        )

    get_snapshot-Refines :
        (s other : KvServer F E) (m : Machine) (term index : ℕ)
        → Refines ops laws s m
        → laws.Fits s.engine
        → laws.IsGood other.engine
        → (out : KvServer F E) × (get_snapshot_from_raft ops (make_snapshot ops s) term index other
            ≡ some out)
          × Refines ops laws out m
          × (out.last_snapshot_raft_log_index ≡ index)
          × (out.node ≡ other.node)
    unfolding get_snapshot_from_raft cond_install_snapshot
    get_snapshot-Refines s other m term index r fits good =
        let (mid, e, f, node) = read_snapshot-Refines s other m r fits good in
        (
          record mid { last_snapshot_raft_log_index = index },
          rw e,
          record {
            good = f.good;
            ascends = f.ascends;
            values = f.values;
            deadlines = f.deadlines;
            last = f.last;
          },
          refl,
          node,
        )

    -- A server that stands for a machine, and whose engine fits in a snapshot, takes a snapshot. Any other
    -- server with a sound engine and a well-formed node installs it and applies commands behind it: nothing
    -- fails, and a read that follows answers what the machine of the first server shows after the same
    -- operations, whatever the other server held before.
    pub installed-visible :
        ⦃ar : Archive F⦄
        → (commands : List (ℕ × Op × ℕ)) (s other : KvServer F E) (m : Machine)
          (term index at now : ℕ) (args : GetArgs)
        → Refines ops laws s m
        → laws.Fits s.engine
        → laws.IsGood other.engine
        → IsWf other.node
        → All (λ (c : ℕ × Op × ℕ). index < c.2) commands
        → (out : KvServer F E) × (read_apply_loop ops
              ((at, snapshot_msg (make_snapshot ops s) term index) ∷ timed text commands)
              other
            ≡ some out)
          × ((get_at_read_index ops now args out).1
              ≡ fill_get_reply (visible now args.key (machine_run (timed_ops commands) m)))
    unfolding read_apply_loop
    installed-visible commands s other m term index at now args r fits good w later =
        let (mid, e, refined, cut, node) = get_snapshot-Refines s other m term index r fits good in
        let (out, run, answer) =
          read_apply_loop-visible ops laws commands mid m now args (rw node w) refined
            (rw cut later) in
        (out, rw e run, answer)
