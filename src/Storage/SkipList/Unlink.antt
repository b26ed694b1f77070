-- ===== src/Storage/SkipList/Unlink.antt =====
-- The loops of `delete_element_locked` that take a node out of the levels and lower the list's level.
use kv_raft_storage.Common.{
  ℕ, zero, suc, ◌+◌, ◌≤◌, ◌<◌, ◌≡◌, refl, sym, ap, ◌∙◌, subst, inl, inr, true, false, List, [], ◌∷◌,
  ◌++◌, none, some, length, set, All, arith, ◌==◌, Bool-cases, length-set, Option-cases,
}
use kv_raft_storage.Storage.SkipList.{
  Heap, forward_at, set_forward, points_to, unlink_levels, lower_level,
}
use kv_raft_storage.Storage.SkipList.Towers.{
  Tower, covers, next_at, AtRest, IsTower, Rep, Elsewhere, Distinct, set-IsTower, set-Rep,
  forward-IsTower, next_at-none,
}
use kv_raft_storage.Storage.SkipList.Last.{last_at, Rep-drop}
use kv_raft_storage.Storage.SkipList.Find.{Under}
use kv_raft_storage.Storage.SkipList.Relink.{SameBut, relink}
use kv_raft_storage.Storage.SkipList.Fill.{lasts, last_at-EndsLevel, Distinct-at}

-- The tower that is taken out, still linked in from level `i` on.
abbrev pub from : ℕ → Tower → Tower
from i y = record y { lo = i; hi = y.slots }

from-same :
    (i : ℕ) (y : Tower) (rest : List Tower) → SameBut i (from i y ∷ rest) (from (suc i) y ∷ rest)
from-same i y rest j ne = ground arith

from-on :
    (i : ℕ) (y : Tower) (rest : List Tower)
    → i < y.slots
    → next_at i (from i y ∷ rest) ≡ some y.addr
from-on i y rest lt = ground arith

from-past :
    (i : ℕ) (y : Tower) (rest : List Tower) → next_at i (from (suc i) y ∷ rest) ≡ next_at i rest
from-past i y rest = ground arith

pub from-out :
    (i : ℕ) (y : Tower) (rest : List Tower) → next_at i (from y.slots y ∷ rest) ≡ next_at i rest
from-out i y rest = ground arith

-- The heap while `y` is linked in from level `i` on.
abbrev pub Unlinking : Heap → ℕ → Tower → List Tower → Tower → List Tower → Type 0
Unlinking h i x pre y rest = Rep h (x ∷ pre) (from i y ∷ rest) × IsTower h y rest × Rep h rest []

points_to-others :
    (i a : ℕ) (rest : List Tower) → Elsewhere a rest → points_to a (next_at i rest) ≡ false
points_to-others i a [] e = refl
points_to-others i a (y ∷ rest) e = elim (Bool-cases (covers i y)) [
  | inl on ↦ let ne = e.0 in let away : (a == y.addr) ≡ false = ground arith in rw (on, away)
  | inr off ↦ rw off (points_to-others i a rest e.1)
]

module _ (x : Tower) (pre : List Tower) (y : Tower) (rest : List Tower)
    (rests : All AtRest (x ∷ pre)) (distinct : Distinct (x ∷ pre ++ y ∷ rest)) where
  -- One round of the loop.
  unlink_one :
      (h : Heap) (i : ℕ)
      → Unlinking h i x pre y rest
      → i < y.slots
      → i < x.slots
      → (h1 : Heap) × (forward_at (last_at i (x, pre) pre).0.addr i h ≡ some (some y.addr))
        × (forward_at y.addr i h ≡ some (next_at i rest))
        × (set_forward (last_at i (x, pre) pre).0.addr i (next_at i rest) h ≡ some h1)
        × Unlinking h1 (suc i) x pre y rest
        × (length h1 ≡ length h)
  unlink_one h i u lt lt_x =
      let l = last_at-EndsLevel i x pre (y ∷ rest) rests distinct lt_x in
      let b = (last_at i (x, pre) pre).0 in
      let px = (last_at i (x, pre) pre).1 in
      let (rep, t, rep_rest) = u in
      let at_b = subst (λ s. Rep h s (from i y ∷ rest)) l.split rep in
      let t_b = (Rep-drop h l.before (b ∷ px) (from i y ∷ rest) at_b).0 in
      let next =
        forward-IsTower b t_b i l.tall
        ∙ ap some (next_at-none i px (from i y ∷ rest) l.none_of ∙ from-on i y rest lt) in
      let (v, e, rep') =
        relink i h l.before b px (from i y ∷ rest) (from (suc i) y ∷ rest) (from-same i y rest) at_b
          l.rests l.tall l.none_of l.not_before l.not_behind in
      let h1 : Heap = set h b.addr (some v) in
      (
        h1,
        next,
        forward-IsTower y t i lt,
        subst (λ q. set_forward b.addr i q h ≡ some h1) (from-past i y rest) e,
        (
          subst (λ s. Rep h1 s (from (suc i) y ∷ rest)) (sym l.split) rep',
          set-IsTower b.addr (some v) h y rest l.not_post.0 t,
          set-Rep b.addr (some v) h rest [] l.not_post.1 rep_rest,
        ),
        length-set h b.addr (some v),
      )

  -- Above the tower the loop ends.
  unlink_stops :
      (n : ℕ) (h : Heap)
      → Unlinking h y.slots x pre y rest
      → y.slots + n ≤ x.slots
      → unlink_levels y.addr y.slots (lasts y.slots n x pre) h ≡ some h
  unfolding unlink_levels
  unlink_stops zero h u le = refl
  unlink_stops (suc n) h u le =
      let l = last_at-EndsLevel y.slots x pre (y ∷ rest) rests distinct (omega arith) in
      let b = (last_at y.slots (x, pre) pre).0 in
      let px = (last_at y.slots (x, pre) pre).1 in
      let at_b =
        Rep-drop h l.before (b ∷ px) (from y.slots y ∷ rest)
          (subst (λ s. Rep h s (from y.slots y ∷ rest)) l.split u.0) in
      let next =
        forward-IsTower b at_b.0 y.slots l.tall
        ∙ ap some
            (next_at-none y.slots px (from y.slots y ∷ rest) l.none_of ∙ from-out y.slots y rest) in
      let other = points_to-others y.slots y.addr rest (Distinct-at (x ∷ pre) y rest distinct).1 in
      rw (next, other)

  -- The whole loop.
  pub unlink_levels-out :
      (n i : ℕ) (h : Heap)
      → Unlinking h i x pre y rest
      → i ≤ y.slots
      → y.slots ≤ i + n
      → i + n ≤ x.slots
      → (out : Heap) × (unlink_levels y.addr i (lasts i n x pre) h ≡ some out)
        × Unlinking out y.slots x pre y rest
        × (length out ≡ length h)
  unfolding unlink_levels
  unlink_levels-out zero i h u le reach le_x =
      (h, refl, subst (λ j. Unlinking h j x pre y rest) (omega arith) u, refl)
  unlink_levels-out (suc n) i h u le reach le_x = elim (Bool-cases (i == y.slots)) [
    | inl e ↦
        let e' : y.slots ≡ i = ground arith in
        let u' = subst (λ j. Unlinking h j x pre y rest) (sym e') u in
        (
          h,
          subst (λ j. unlink_levels y.addr j (lasts j (suc n) x pre) h ≡ some h) e'
              (unlink_stops (suc n) h u' (omega arith)),
          u',
          refl,
        )
    | inr ne ↦
        let lt : i < y.slots = ground arith in
        let (h1, next, behind, e, u1, long) = unlink_one h i u lt (omega arith) in
        let (out, e2, u2, long2) =
          unlink_levels-out n (suc i) h1 u1 (omega arith) (omega arith) (omega arith) in
        let same : (y.addr == y.addr) ≡ true = ground arith in
        (out, rw (next, same, behind, e) e2, u2, long2 ∙ long)
  ]

-- A level with no tower is above all of them.
next_at-Under :
    (n : ℕ) (xs : List Tower)
    → All AtRest xs
    → Under (suc (suc n)) xs
    → next_at (suc n) xs ≡ none
    → Under (suc n) xs
next_at-Under n [] a u e = tt
next_at-Under n (x ∷ xs) a u e = elim (Bool-cases (covers (suc n) x)) [
  | inl on ↦ absurd (let e' = rw on at e in cc)
  | inr off ↦
      let e' : next_at (suc n) xs ≡ none = rw off at e in
      let (lo, hi, _) = a.0 in ((let t = u.0 in ground arith), next_at-Under n xs a.1 u.1 e')
]

-- The lowered level is still one that all towers are under.
pub lower_level-Under :
    (n : ℕ) (h : Heap) (x : Tower) (xs : List Tower)
    → x.addr ≡ 0
    → IsTower h x xs
    → All AtRest xs
    → Under (suc n) xs
    → n < x.slots
    → (l : ℕ) × (lower_level n h ≡ some l) × (l ≤ n) × Under (suc l) xs
unfolding lower_level
lower_level-Under zero h x xs at_0 t a u lt = (0, refl, omega arith, u)
lower_level-Under (suc n) h x xs at_0 t a u lt =
    let next =
      subst (λ p. forward_at p (suc n) h ≡ some (next_at (suc n) xs)) at_0
        (forward-IsTower x t (suc n) lt) in
    elim (Option-cases (next_at (suc n) xs)) [
      | inl e ↦
          let (l, e2, le, u2) =
            lower_level-Under n h x xs at_0 t a (next_at-Under n xs a u e) (omega arith) in
          (l, rw (next, e) e2, omega arith, u2)
      | inr (q, e) ↦ (suc n, rw (next, e), omega arith, u)
    ]
