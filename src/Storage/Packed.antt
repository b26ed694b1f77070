-- ===== src/Storage/Packed.antt =====
-- A text that tells where it ends, to build the archives of the runs from.
use kv_raft_storage.Common.{
  ◌∷◌, [], ◌++◌, Option, none, some, ◌≡◌, Bytes, length, take, drop, take-append, drop-append,
}

-- A text behind its length.
unfoldable pub pack : Bytes → Bytes → Bytes
pack l rest = length l ∷ (l ++ rest)

pub unpack : Bytes → Option (Bytes × Bytes)
unpack [] = none
unpack (n ∷ xs) = some (take n xs, drop n xs)

pub unpack-pack : (l rest : Bytes) → unpack (pack l rest) ≡ some (l, rest)
unfolding unpack pack
unpack-pack l rest = rw (take-append l rest, drop-append l rest)
