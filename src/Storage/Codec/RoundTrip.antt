-- ===== src/Storage/Codec/RoundTrip.antt =====
-- Reading back what the writers of `Codec` have written.
use kv_raft_storage.Common.{
  ℕ, zero, suc, ◌/◌, ◌^◌, ◌<◌, ◌≡◌, refl, sym, ap, ◌∙◌, ◌++◌, some, length, Bytes, arith,
  take-append, drop-append, length-append, append_assoc, le→not-ltb,
}
use kv_raft_storage.Storage.Codec.{
  EntryType, put_type, delete_type, WalRecord, little_endian, join_bytes, write_uint64, read_bytes,
  read_uint64, write_string, read_string, type_byte, byte_type, write_record, read_record,
}

length-little_endian : (n v : ℕ) → length (little_endian n v) ≡ n
unfolding little_endian
length-little_endian zero v = refl
length-little_endian (suc n) v = ap suc (length-little_endian n (v / 256))

join_bytes-little_endian : (n v : ℕ) → v < 256 ^ n → join_bytes (little_endian n v) ≡ v
unfolding little_endian join_bytes
join_bytes-little_endian zero v h = omega arith
join_bytes-little_endian (suc n) v h =
    let e = join_bytes-little_endian n (v / 256) (omega arith) in omega (arith, e)

pub length-write_uint64 : (v : ℕ) → length (write_uint64 v) ≡ 8
unfolding write_uint64
length-write_uint64 v = length-little_endian 8 v

pub read_bytes-append : (xs rest : Bytes) → read_bytes (length xs) (xs ++ rest) ≡ some (xs, rest)
unfolding read_bytes
read_bytes-append xs rest = rw (
  le→not-ltb (length (xs ++ rest)) (length xs) (omega (arith, length-append xs rest)),
  take-append xs rest,
  drop-append xs rest,
)

pub read_uint64-write_uint64 :
    (v : ℕ) (rest : Bytes) → v < 2 ^ 64 → read_uint64 (write_uint64 v ++ rest) ≡ some (v, rest)
unfolding read_uint64 write_uint64
read_uint64-write_uint64 v rest h = rw (
  ap (λ n. read_bytes n (little_endian 8 v ++ rest)) (sym (length-little_endian 8 v))
      ∙ read_bytes-append (little_endian 8 v) rest,
  join_bytes-little_endian 8 v h,
)

pub read_string-write_string :
    (s rest : Bytes) → length s < 2 ^ 64 → read_string (write_string s ++ rest) ≡ some (s, rest)
unfolding read_string write_string
read_string-write_string s rest h = rw (
  append_assoc (write_uint64 (length s)) s rest,
  read_uint64-write_uint64 (length s) (s ++ rest) h,
  read_bytes-append s rest,
)

byte_type-type_byte : (t : EntryType) → byte_type (type_byte t) ≡ some t
unfolding byte_type type_byte
byte_type-type_byte put_type = refl
byte_type-type_byte delete_type = refl

-- A record whose key and value are shorter than 2^64 bytes is read back as it was written, whatever
-- follows it, and exactly its own bytes are consumed.
pub read_record-write_record :
    (r : WalRecord) (rest : Bytes)
    → length r.key < 2 ^ 64
    → length r.value < 2 ^ 64
    → read_record (write_record r ++ rest) ≡ some (r, rest)
unfolding read_record write_record
read_record-write_record r rest hk hv =
    let tail = r.key ++ (r.value ++ rest) in
    let size = write_uint64 (length r.value) in
    let whole : (write_uint64 (length r.key) ++ (size ++ (r.key ++ r.value))) ++ rest
        ≡ write_uint64 (length r.key) ++ (size ++ tail) =
      append_assoc (write_uint64 (length r.key)) (size ++ (r.key ++ r.value)) rest
      ∙ ap (λ l. write_uint64 (length r.key) ++ l)
          (append_assoc size (r.key ++ r.value) rest
            ∙ ap (λ l. size ++ l) (append_assoc r.key r.value rest)) in
    rw (
      whole,
      read_uint64-write_uint64 (length r.key) (size ++ tail) hk,
      read_uint64-write_uint64 (length r.value) tail hv,
      byte_type-type_byte r.entry_type,
      read_bytes-append r.key (r.value ++ rest),
      read_bytes-append r.value rest,
    )
