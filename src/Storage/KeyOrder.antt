-- ===== src/Storage/KeyOrder.antt =====
-- `operator<` of `std::string`: byte values, from the left, a prefix first.
use kv_raft_storage.Common.{
  ◌≡◌, refl, ◌⊎◌, inl, inr, Bool, true, false, not, [], ◌∷◌, ltb, ◌==◌, if◌then◌else◌, arith, Bytes,
  bytes_eq, bytes_eq_iff, Bool-cases,
}

unfoldable pub key_lt : Bytes → Bytes → Bool
key_lt [] [] = false
key_lt [] (y ∷ ys) = true
key_lt (x ∷ xs) [] = false
key_lt (x ∷ xs) (y ∷ ys) =
    let rest = key_lt xs ys in if ltb x y then true else if x == y then rest else false

-- `a <= b` is computed as `!(b < a)`.
abbrev pub key_le : Bytes → Bytes → Bool
key_le a b = not (key_lt b a)

pub key_lt_irrefl : (a : Bytes) → key_lt a a ≡ false
unfolding key_lt
key_lt_irrefl [] = refl
key_lt_irrefl (x ∷ xs) = ground (arith, key_lt_irrefl xs)

pub key_lt_trans : (a b c : Bytes) → key_lt a b ≡ true → key_lt b c ≡ true → key_lt a c ≡ true
unfolding key_lt
key_lt_trans [] [] c p q = cc
key_lt_trans [] (y ∷ ys) [] p q = cc
key_lt_trans [] (y ∷ ys) (z ∷ zs) p q = refl
key_lt_trans (x ∷ xs) [] c p q = cc
key_lt_trans (x ∷ xs) (y ∷ ys) [] p q = cc
key_lt_trans (x ∷ xs) (y ∷ ys) (z ∷ zs) p q = ground (arith, key_lt_trans xs ys zs)

-- The three ways that two keys compare.
pub key-cases : (a b : Bytes) → (key_lt a b ≡ true) ⊎ ((a ≡ b) ⊎ (key_lt b a ≡ true))
unfolding key_lt
key-cases [] [] = inr (inl refl)
key-cases [] (y ∷ ys) = inl refl
key-cases (x ∷ xs) [] = inr (inr refl)
key-cases (x ∷ xs) (y ∷ ys) = elim (key-cases xs ys) [
  | inl p ↦ ground arith
  | inr (inl p) ↦ rw p (ground arith)
  | inr (inr p) ↦ ground arith
]

pub key_lt_asym : (a b : Bytes) → key_lt a b ≡ true → key_lt b a ≡ false
key_lt_asym a b p = elim (Bool-cases (key_lt b a)) [
  | inl q ↦ let r = key_lt_trans a b a p q in let s = key_lt_irrefl a in cc
  | inr q ↦ q
]

pub key_lt-ne : (a b : Bytes) → key_lt a b ≡ true → bytes_eq a b ≡ false
key_lt-ne a b p = elim (Bool-cases (bytes_eq a b)) [
  | inl q ↦ let e = (bytes_eq_iff a b).0 q in let s = key_lt_irrefl b in let p' = rw e at p in cc
  | inr q ↦ q
]

pub key_lt-ne_sym : (a b : Bytes) → key_lt a b ≡ true → bytes_eq b a ≡ false
key_lt-ne_sym a b p = elim (Bool-cases (bytes_eq b a)) [
  | inl q ↦ let e = (bytes_eq_iff b a).0 q in let s = key_lt_irrefl b in let p' = rw e at p in cc
  | inr q ↦ q
]

-- From `a < b <= c`, and from `a <= b < c`.
pub key_lt-le : (a b c : Bytes) → key_lt a b ≡ true → key_lt c b ≡ false → key_lt c a ≡ false
key_lt-le a b c p q = elim (Bool-cases (key_lt c a)) [
  | inl r ↦ let t = key_lt_trans c a b r p in cc
  | inr r ↦ r
]

pub key_le-lt : (a b c : Bytes) → key_lt b a ≡ false → key_lt b c ≡ true → key_lt a c ≡ true
key_le-lt a b c p q = elim (key-cases a b) [
  | inl r ↦ key_lt_trans a b c r q
  | inr (inl r) ↦ rw r q
  | inr (inr r) ↦ cc
]

-- From `a < b <= c`, the strict order.
pub key_lt-le-lt : (a b c : Bytes) → key_lt a b ≡ true → key_lt c b ≡ false → key_lt a c ≡ true
key_lt-le-lt a b c p q = elim (key-cases b c) [
  | inl r ↦ key_lt_trans a b c p r
  | inr (inl r) ↦ rw (← r) p
  | inr (inr r) ↦ cc
]
