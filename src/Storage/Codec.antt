-- ===== src/Storage/Codec.antt =====
-- The byte format of the files and the snapshot of storage/include/lsm_tree_engine.h: integers of
-- eight bytes, least first, strings with their length, and the records of the write-ahead log. A
-- stream, or a string with an offset, is the list of the bytes that are still to be read; `none` is
-- a thrown `std::runtime_error`.
pub mod RoundTrip
use kv_raft_storage.Common.{
  ℕ, zero, suc, ◌+◌, ◌*◌, ◌/◌, ◌%◌, List, [], ◌∷◌, ◌++◌, Option, none, some, ltb, ◌==◌,
  if◌then◌else◌, length, take, drop, Bytes, ◌>>=◌,
}

-- `enum class EntryType`
pub data EntryType : Type 0 where
  put_type delete_type : EntryType

pub record Entry : Type 0 where
  pub entry_type : EntryType
  pub value : Bytes

-- `Entry{EntryType::Put, value}` and `Entry{EntryType::Delete, ""}`
abbrev pub put_entry : Bytes → Entry
put_entry value = record { entry_type = put_type; value = value }

abbrev pub delete_entry : Entry
delete_entry = record { entry_type = delete_type; value = [] }

pub record WalRecord : Type 0 where
  pub entry_type : EntryType
  pub key : Bytes
  pub value : Bytes

-- `(value >> (i * 8)) & 0xff` for the next `n` places.
unfoldable pub little_endian : ℕ → ℕ → Bytes
little_endian zero value = []
little_endian (suc n) value = value % 256 ∷ little_endian n (value / 256)

-- The bytes shifted to their places and joined.
unfoldable pub join_bytes : Bytes → ℕ
join_bytes [] = 0
join_bytes (b ∷ bs) = b + 256 * join_bytes bs

unfoldable pub write_uint64 : ℕ → Bytes
unfolding little_endian
write_uint64 value = little_endian 8 value

-- `in.read` of `n` bytes, with the test that they were there.
unfoldable pub read_bytes : ℕ → Bytes → Option (Bytes × Bytes)
read_bytes n input = if ltb (length input) n then none else some (take n input, drop n input)

unfoldable pub read_uint64 : Bytes → Option (ℕ × Bytes)
unfolding read_bytes join_bytes
read_uint64 input = do (bytes, rest) ← read_bytes 8 input; some (join_bytes bytes, rest)

unfoldable pub write_string : Bytes → Bytes
write_string value = write_uint64 (length value) ++ value

unfoldable pub read_string : Bytes → Option (Bytes × Bytes)
read_string input = do (size, rest) ← read_uint64 input; read_bytes size rest

unfoldable pub type_byte : EntryType → ℕ
type_byte put_type = 1
type_byte delete_type = 2

unfoldable pub byte_type : ℕ → Option EntryType
byte_type byte = if byte == 1 then some put_type else if byte == 2 then some delete_type else none

unfoldable pub write_record : WalRecord → Bytes
write_record record_ =
    type_byte record_.entry_type
    ∷ (write_uint64 (length record_.key)
        ++ (write_uint64 (length record_.value) ++ (record_.key ++ record_.value)))

unfoldable pub read_record : Bytes → Option (WalRecord × Bytes)
read_record [] = none
read_record (raw_type ∷ after_type) = do
  (key_size, after_key_size) ← read_uint64 after_type
  (value_size, after_sizes) ← read_uint64 after_key_size
  entry_type ← byte_type raw_type
  (key, after_key) ← read_bytes key_size after_sizes
  (value, rest) ← read_bytes value_size after_key
  some (record { entry_type = entry_type; key = key; value = value }, rest)
