-- ===== src/Storage/SkipList/Shrink.antt =====
-- A list without one of its towers: the invariant, and the map that it shows.
use kv_raft_storage.Common.{
  ℕ, suc, ◌-◌, ◌≤◌, ◌≡◌, ◌≢◌, refl, sym, ap, ◌∙◌, subst, true, List, [], ◌∷◌, ◌++◌, none, some,
  length, set, All, All-append, arith, append-nil, Bytes, bytes_eq, bytes_eq_iff, length-append,
  length-set,
}
use kv_raft_storage.Storage.KeyOrder.{key_lt-ne_sym}
use kv_raft_storage.Storage.SortedMap.{erase, Ascending}
use kv_raft_storage.Storage.SortedMap.Erase.{erase-Ascending}
use kv_raft_storage.Storage.SkipList.{SkipNode, SkipList, Heap, delete_found, unlink_levels}
use kv_raft_storage.Storage.SkipList.Towers.{
  Tower, AtRest, IsTower, Rep, Rep-behind, set-Rep, Distinct,
}
use kv_raft_storage.Storage.SkipList.Descent.{tops}
use kv_raft_storage.Storage.SkipList.Last.{AllLess, All-drop}
use kv_raft_storage.Storage.SkipList.Find.{header_tower, pairs, Under, IsList}
use kv_raft_storage.Storage.SkipList.Relink.{Rep-append, Rep-join}
use kv_raft_storage.Storage.SkipList.Fill.{All-front, Distinct-at}
use kv_raft_storage.Storage.SkipList.Update.{tops-lasts}
use kv_raft_storage.Storage.SkipList.Unlink.{
  Unlinking, from, from-out, unlink_levels-out, lower_level-Under,
}

Distinct-remove :
    (qs : List Tower) (y : Tower) (rest : List Tower)
    → Distinct (qs ++ y ∷ rest)
    → Distinct (qs ++ rest)
Distinct-remove [] y rest d = d.1
Distinct-remove (q ∷ qs) y rest d =
    let P = λ (z : Tower). z.addr ≢ q.addr in
    (
      All-append P qs rest (All-front P qs (y ∷ rest) d.0) (All-drop P qs (y ∷ rest) d.0).1,
      Distinct-remove qs y rest d.1,
    )

pairs-erase :
    (pre rest : List Tower) (y : Tower) (key : Bytes)
    → AllLess key pre
    → bytes_eq y.key key ≡ true
    → pairs (pre ++ rest) ≡ erase key (pairs (pre ++ y ∷ rest))
unfolding erase
pairs-erase [] rest y key l e =
    let e' : bytes_eq key y.key ≡ true =
      (bytes_eq_iff key y.key).1 (sym ((bytes_eq_iff y.key key).0 e)) in
    rw e'
pairs-erase (x ∷ pre) rest y key l e =
    rw (key_lt-ne_sym x.key key l.0)
      (ap (λ p. (x.key, x.value) ∷ p) (pairs-erase pre rest y key l.1 e))

module _ (s : SkipList) (w : IsList s) (pre : List Tower) (y : Tower) (rest : List Tower)
    (whole : w.towers ≡ pre ++ y ∷ rest) where
  -- The heap behind the loop has all nodes but `y` linked.
  unlinked :
      (h : Heap) × (unlink_levels y.addr 0
          (tops (suc s.level) (header_tower s.max_level) pre)
          s.nodes
        ≡ some h)
      × Rep h (header_tower s.max_level ∷ pre ++ rest) []
      × (length h ≡ length s.nodes)
  unlinked =
      let x = header_tower s.max_level in
      let rep = subst (λ l. Rep s.nodes (x ∷ l) []) whole w.linked in
      let (rep_pre, at_y) = Rep-append s.nodes (x ∷ pre) (y ∷ rest) [] rep in
      let (t, rep_rest) = at_y in
      let at_rest = subst (All AtRest) whole w.at_rest in
      let y_rest = All-drop AtRest pre (y ∷ rest) at_rest in
      let y_under =
        (All-drop (λ (z : Tower). z.slots ≤ suc s.level) pre (y ∷ rest)
          (subst (Under (suc s.level)) whole w.under)).0 in
      let level_le = w.level_le in
      let start : Unlinking s.nodes 0 x pre y rest = (
        Rep-behind s.nodes (x ∷ pre) (y ∷ rest) (from 0 y ∷ rest)
            (λ i. let (lo, hi, _) = y_rest.0 in ground arith)
            (subst (Rep s.nodes (x ∷ pre)) (append-nil (y ∷ rest)) rep_pre),
        subst (IsTower s.nodes y) (append-nil rest) t,
        rep_rest,
      ) in
      let (h, e, u, long) =
        unlink_levels-out x pre y rest
          ((refl, refl, omega arith), All-front AtRest pre (y ∷ rest) at_rest)
          (subst (λ l. Distinct (x ∷ l)) whole w.distinct) (suc s.level) 0 s.nodes start
          (omega arith) (omega arith) (omega arith) in
      let (rep1, t1, rep_rest1) = u in
      (
        h,
        ap (λ (l : List ℕ). unlink_levels y.addr 0 l s.nodes) (tops-lasts (suc s.level) x pre) ∙ e,
        Rep-join h (x ∷ pre) rest []
            (subst (Rep h (x ∷ pre)) (sym (append-nil rest))
              (Rep-behind h (x ∷ pre) (from y.slots y ∷ rest) rest (λ i. from-out i y rest) rep1))
            rep_rest1,
        long,
      )

  All-others : (P : Tower → Type 0) → All P w.towers → All P (pre ++ rest)
  All-others P a =
      let a' = subst (All P) whole a in
      All-append P pre rest (All-front P pre (y ∷ rest) a') (All-drop P pre (y ∷ rest) a').1

  -- The deletion of `y`: the list is well-formed and has lost the pair.
  pub delete_found-IsList :
      (key : Bytes) (n : SkipNode)
      → AllLess key pre
      → bytes_eq y.key key ≡ true
      → (out : SkipList) × (delete_found
            (some (y.addr, n))
            (tops (suc s.level) (header_tower s.max_level) pre)
            s
          ≡ some (out, true))
        × (w' : IsList out) × (pairs w'.towers ≡ erase key (pairs w.towers))
  delete_found-IsList key n less same =
      let x = header_tower s.max_level in
      let (h, e, rep, long) = unlinked in
      let distinct = subst (λ l. Distinct (x ∷ l)) whole w.distinct in
      let (apart_pre, apart_rest) = Distinct-at (x ∷ pre) y rest distinct in
      let rests = All-others AtRest w.at_rest in
      let level_le = w.level_le in
      let (level, e2, le, under) =
        lower_level-Under s.level h x (pre ++ rest) refl
          (subst (IsTower h x) (append-nil (pre ++ rest)) rep.0) rests
          (All-others (λ (z : Tower). z.slots ≤ suc s.level) w.under) (omega arith) in
      let shown =
        pairs-erase pre rest y key less same
        ∙ ap (λ (l : List Tower). erase key (pairs l)) (sym whole) in
      let sizes = length-append pre rest in
      let sizes' = length-append pre (y ∷ rest) in
      let size = ap length whole in
      let fits = w.fits in
      let counted = w.counted in
      let long2 = length-set h y.addr none in
      (
        record s { level = level; count = s.count - 1; nodes = set h y.addr none },
        rw (e, e2),
        record {
          towers = pre ++ rest;
          level_le = omega arith;
          linked =
              set-Rep y.addr none h (x ∷ pre ++ rest) []
                (All-append (λ (z : Tower). z.addr ≢ y.addr) (x ∷ pre) rest apart_pre apart_rest)
                rep;
          at_rest = rests;
          under = under;
          distinct = Distinct-remove (x ∷ pre) y rest distinct;
          sorted = subst Ascending (sym shown) (erase-Ascending key (pairs w.towers) w.sorted);
          fits = omega arith;
          counted = omega arith;
        },
        shown,
      )
