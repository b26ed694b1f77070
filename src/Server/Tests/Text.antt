-- ===== src/Server/Tests/Text.antt =====
-- A way to write operations and servers as texts, with the laws that boost's archives have.
use kv_raft_storage.Common.{
  ℕ, zero, suc, [], ◌∷◌, Option, none, some, ◌≡◌, ◌≢◌, refl, ◌>>=◌, Bytes, length,
}
use kv_raft_storage.Storage.Packed.{pack, unpack, unpack-pack}
use kv_raft_storage.Storage.SortedMap.{SortedMap}
use kv_raft_storage.Server.State.{Op, Image, ServerText}
use kv_raft_storage.Raft.Tests.{File}

pack_pairs : SortedMap ℕ → Bytes → Bytes
pack_pairs [] rest = rest
pack_pairs (x ∷ m) rest = pack x.0 (x.1 ∷ pack_pairs m rest)

abbrev unpack_number : Bytes × Bytes → Option (Bytes × ℕ × Bytes)
unpack_number (key, []) = none
unpack_number (key, n ∷ rest) = some (key, n, rest)

unpack_pairs : ℕ → Bytes → Option (SortedMap ℕ × Bytes)
unpack_pairs zero xs = some ([], xs)
unpack_pairs (suc n) xs = do
  packed ← unpack xs
  (key, value, rest) ← unpack_number packed
  (m, left) ← unpack_pairs n rest
  some ((key, value) ∷ m, left)

unpack_pairs-pack_pairs :
    (m : SortedMap ℕ) (rest : Bytes) → unpack_pairs (length m) (pack_pairs m rest) ≡ some (m, rest)
unfolding unpack_pairs pack_pairs
unpack_pairs-pack_pairs [] rest = refl
unpack_pairs-pack_pairs ((key, value) ∷ m) rest =
    rw (unpack-pack key (value ∷ pack_pairs m rest), unpack_pairs-pack_pairs m rest)

pack_map : SortedMap ℕ → Bytes → Bytes
pack_map m rest = length m ∷ pack_pairs m rest

unpack_map : Bytes → Option (SortedMap ℕ × Bytes)
unpack_map [] = none
unpack_map (n ∷ xs) = unpack_pairs n xs

unpack_map-pack_map :
    (m : SortedMap ℕ) (rest : Bytes) → unpack_map (pack_map m rest) ≡ some (m, rest)
unfolding unpack_map pack_map
unpack_map-pack_map m rest = unpack_pairs-pack_pairs m rest

dump_op : Op → Bytes
dump_op op = pack op.operation (
    pack op.key
      (pack op.value (pack op.client_id (op.request_id ∷ op.ttl_ms ∷ op.expire_at_ms ∷ []))))

abbrev numbers : Bytes → Bytes → Bytes → Bytes → Bytes → Option Op
numbers operation key value client_id (r ∷ t ∷ e ∷ []) = some (record {
  operation = operation;
  key = key;
  value = value;
  client_id = client_id;
  request_id = r;
  ttl_ms = t;
  expire_at_ms = e;
})
numbers operation key value client_id _ = none

load_op : Bytes → Option Op
load_op xs = do
  (operation, r1) ← unpack xs
  (key, r2) ← unpack r1
  (value, r3) ← unpack r2
  (client_id, r4) ← unpack r3
  numbers operation key value client_id r4

load_op-dump_op : (op : Op) → load_op (dump_op op) ≡ some op
unfolding load_op dump_op
load_op-dump_op op =
    let end = op.request_id ∷ op.ttl_ms ∷ op.expire_at_ms ∷ [] in
    rw (
      unpack-pack op.operation (pack op.key (pack op.value (pack op.client_id end))),
      unpack-pack op.key (pack op.value (pack op.client_id end)),
      unpack-pack op.value (pack op.client_id end),
      unpack-pack op.client_id end,
    )

dump_image : Image → Bytes
dump_image image =
    pack image.serialized_kv_data (pack_map image.last_request_id (pack_map image.expire_map []))

load_image : Bytes → Option Image
load_image xs = do
  (kv, r1) ← unpack xs
  (last, r2) ← unpack_map r1
  (expire, r3) ← unpack_map r2
  some (record { serialized_kv_data = kv; last_request_id = last; expire_map = expire })

load_image-dump_image : (image : Image) → load_image (dump_image image) ≡ some image
unfolding load_image dump_image
load_image-dump_image image = rw (
  unpack-pack image.serialized_kv_data
      (pack_map image.last_request_id (pack_map image.expire_map [])),
  unpack_map-pack_map image.last_request_id (pack_map image.expire_map []),
  unpack_map-pack_map image.expire_map [],
)

dump_image_ne : (image : Image) → dump_image image ≢ []
unfolding dump_image pack
dump_image_ne image = λ e. cc

instance pub texts : ServerText File
texts = record {
  dump_op = dump_op;
  load_op = load_op;
  dump_image = dump_image;
  load_image = load_image;
  file_size = λ file. 0;
  load-dump_op = load_op-dump_op;
  load-dump_image = load_image-dump_image;
  dump_image_ne = dump_image_ne;
}
