-- ===== src/Storage/SkipList/Dump/Emptied.antt =====
-- `load_file` empties a well-formed list, and deletes each of its nodes once.
use kv_raft_storage.Common.{
  ℕ, zero, suc, ◌+◌, ◌<◌, ◌≡◌, refl, sym, ◌∙◌, subst, List, [], ◌∷◌, none, some, length, set, All,
  arith, append-nil, length-set, map,
}
use kv_raft_storage.Storage.SkipList.{SkipList, Heap, set_forward}
use kv_raft_storage.Storage.SkipList.Towers.{
  Tower, next_at, AtRest, IsTower, IsTower-behind, Rep, Elsewhere, set-IsTower, forward-IsTower,
}
use kv_raft_storage.Storage.SkipList.Seek.{covers-AtRest}
use kv_raft_storage.Storage.SkipList.Find.{header_tower, IsList}
use kv_raft_storage.Storage.SkipList.Relink.{SameBut, relink}
use kv_raft_storage.Storage.SkipList.Unlink.{from}
use kv_raft_storage.Storage.SkipList.Writes.{Shows}
use kv_raft_storage.Storage.SkipList.Dump.{clear_nodes, blank_header, empty_list}

clear_nodes-header :
    (fuel : ℕ) (x : Tower) (rest_x : List Tower) (xs : List Tower) (h : Heap)
    → length xs < fuel
    → Rep h xs []
    → All AtRest xs
    → Elsewhere x.addr xs
    → IsTower h x rest_x
    → (out : Heap) × (clear_nodes fuel (next_at 0 xs) h ≡ some out)
      × IsTower out x rest_x
      × (length out ≡ length h)
unfolding clear_nodes
clear_nodes-header fuel x rest_x [] h lt r a e t = (h, refl, t, refl)
clear_nodes-header zero x rest_x (y ∷ xs) h lt r a e t = absurd (omega arith)
clear_nodes-header (suc fuel) x rest_x (y ∷ xs) h lt r a e t =
    let next = forward-IsTower y (subst (IsTower h y) (append-nil xs) r.0) 0 a.0.2 in
    let on = covers-AtRest 0 y a.0 a.0.2 in
    let (h1, e1, t1, long) = clear_nodes-header fuel x rest_x xs h (omega arith) r.1 a.1 e.1 t in
    (
      set h1 y.addr none,
      rw (on, next, e1),
      set-IsTower y.addr none h1 x rest_x (λ s. e.0 (sym s)) t1,
      length-set h1 y.addr none ∙ long,
    )

-- The towers from level `k` on.
abbrev above : ℕ → List Tower → List Tower
above k xs = map (from k) xs

above-same : (k : ℕ) (xs : List Tower) → SameBut k (above k xs) (above (suc k) xs)
above-same k [] i ne = refl
above-same k (x ∷ xs) i ne = let rest = above-same k xs i ne in ground arith

above-none : (i k : ℕ) (xs : List Tower) → i < k → next_at i (above k xs) ≡ none
above-none i k [] lt = refl
above-none i k (x ∷ xs) lt = let rest = above-none i k xs lt in ground arith

above-0 : (i : ℕ) (xs : List Tower) → All AtRest xs → next_at i xs ≡ next_at i (above 0 xs)
above-0 i [] a = refl
above-0 i (x ∷ xs) a = let (lo, hi, _) = a.0 in let rest = above-0 i xs a.1 in ground arith

blank_header-above :
    (n i : ℕ) (x : Tower) (xs : List Tower) (h : Heap)
    → x.addr ≡ 0
    → AtRest x
    → i + n ≡ x.slots
    → IsTower h x (above i xs)
    → (out : Heap) × (blank_header n i h ≡ some out)
      × IsTower out x (above x.slots xs)
      × (length out ≡ length h)
unfolding blank_header
blank_header-above zero i x xs h at_0 a e t =
    (h, refl, subst (λ j. IsTower h x (above j xs)) (omega arith) t, refl)
blank_header-above (suc n) i x xs h at_0 a e t =
    let (v, e1, r1) =
      relink i h [] x [] (above i xs) (above (suc i) xs) (above-same i xs) (t, tt) (a, tt)
        (omega arith) tt tt tt in
    let h1 : Heap = set h x.addr (some v) in
    let turned : set_forward 0 i none h ≡ some h1 =
      subst (λ p. set_forward p i none h ≡ some h1) at_0
        (subst (λ q. set_forward x.addr i q h ≡ some h1) (above-none i (suc i) xs (omega arith))
          e1) in
    let (out, e2, t2, long) = blank_header-above n (suc i) x xs h1 at_0 a (omega arith) r1.0 in
    (out, rw turned e2, t2, long ∙ length-set h x.addr (some v))

pub empty_list-Shows :
    (s : SkipList) (w : IsList s) → (out : SkipList) × (empty_list s ≡ some out) × Shows out []
unfolding empty_list
empty_list-Shows s w =
    let x = header_tower s.max_level in
    let t = subst (IsTower s.nodes x) (append-nil w.towers) w.linked.0 in
    let (h, e, t1, long) =
      clear_nodes-header (length s.nodes) x w.towers w.towers s.nodes w.fits w.linked.1 w.at_rest
        w.distinct.0 t in
    let (h1, e1, t2, long1) =
      blank_header-above (suc s.max_level) 0 x w.towers h refl (refl, refl, omega arith)
        (omega arith) (IsTower-behind x (λ i lt. above-0 i w.towers w.at_rest) t1) in
    let fits = w.fits in
    (
      record s { level = 0; count = 0; nodes = h1 },
      rw (forward-IsTower x t 0 (omega arith), e, e1),
      (
        record {
          towers = [];
          level_le = omega arith;
          linked = (IsTower-behind x (λ i lt. above-none i (suc s.max_level) w.towers lt) t2, tt);
          at_rest = tt;
          under = tt;
          distinct = (tt, tt);
          sorted = tt;
          fits = omega arith;
          counted = refl;
        },
        refl,
      ),
    )
