-- ===== src/Storage/Engine/Runs.antt =====
-- Sequences of operations on an engine, against one map.
use kv_raft_storage.Common.{
  List, [], ◌∷◌, Option, none, some, ◌≡◌, refl, ap, ◌∙◌, Bytes, bytes_eq, inl, inr, Bool-cases,
}
use kv_raft_storage.Storage.Engine.{KvEngine, IsMap, SameMap, written}

pub data Request : Type 0 where
  get_at : Bytes → Request
  put_at : Bytes → Bytes → Request
  delete_at : Bytes → Request

module _ {E : Type 0} where
  -- The answers to the reads.
  unfoldable pub answers : KvEngine E → List Request → E → List (Option Bytes)
  answers ops [] e = []
  answers ops (get_at key ∷ rest) e = (ops.get key e).1 ∷ answers ops rest (ops.get key e).0
  answers ops (put_at key value ∷ rest) e = answers ops rest (ops.put key value e)
  answers ops (delete_at key ∷ rest) e = answers ops rest (ops.delete key e)

-- The answers of a map.
unfoldable pub map_answers : List Request → (Bytes → Option Bytes) → List (Option Bytes)
map_answers [] m = []
map_answers (get_at key ∷ rest) m = m key ∷ map_answers rest m
map_answers (put_at key value ∷ rest) m = map_answers rest (written key (some value) m)
map_answers (delete_at key ∷ rest) m = map_answers rest (written key none m)

pub written-SameMap :
    (key : Bytes) (value : Option Bytes) {m n : Bytes → Option Bytes}
    → SameMap m n
    → SameMap (written key value m) (written key value n)
written-SameMap key value {m} {n} same j = elim (Bool-cases (bytes_eq j key)) [
  | inl here ↦ rw here
  | inr away ↦ rw away (same j)
]

module _ {E : Type 0} (ops : KvEngine E) (laws : IsMap ops) where
  -- Every engine that shows a map answers as the map does.
  pub answers-map_answers :
      (requests : List Request) (e : E) (m : Bytes → Option Bytes)
      → laws.IsGood e
      → SameMap (laws.shows e) m
      → answers ops requests e ≡ map_answers requests m
  unfolding answers map_answers
  answers-map_answers [] e m good same = refl
  answers-map_answers (get_at key ∷ rest) e m good same =
      rw (laws.get_answers key e good, same key)
        (ap (λ l. m key ∷ l)
          (answers-map_answers rest (ops.get key e).0 m (laws.get_good key e good)
            (λ j. laws.get_keeps key e good j ∙ same j)))
  answers-map_answers (put_at key value ∷ rest) e m good same =
      answers-map_answers rest (ops.put key value e) (written key (some value) m)
        (laws.put_good key value e good)
        (λ j. laws.put_writes key value e good j ∙ written-SameMap key (some value) same j)
  answers-map_answers (delete_at key ∷ rest) e m good same =
      answers-map_answers rest (ops.delete key e) (written key none m) (laws.delete_good key e good)
        (λ j. laws.delete_writes key e good j ∙ written-SameMap key none same j)
