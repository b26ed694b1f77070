-- ===== src/Storage/SkipList/Descent.antt =====
-- The whole search: `current` and `update` at its end.
use kv_raft_storage.Common.{
  ℕ, zero, suc, ◌≤◌, ◌<◌, ◌≡◌, refl, sym, ap, ◌∙◌, subst, true, List, [], ◌∷◌, ◌++◌, some, length,
  All, Bytes, arith, append_assoc, append-nil, length-append,
}
use kv_raft_storage.Storage.KeyOrder.{key_lt}
use kv_raft_storage.Storage.SkipList.{Heap, forward_at, walk, descend}
use kv_raft_storage.Storage.SkipList.Towers.{
  Tower, next_at, AtRest, IsTower, Rep, forward-IsTower, next_at-none,
}
use kv_raft_storage.Storage.SkipList.Seek.{Place, walk-seek, covers-slots, covers-AtRest}
use kv_raft_storage.Storage.SkipList.Last.{
  last_at, AllLess, NoneLess, onto, seek-last_at, IsIn, last_at-IsIn, last_at-last, Rep-drop,
  All-drop, from_head, tail_eq,
}

-- `update` for the `n` lowest levels.
abbrev pub tops : ℕ → Tower → List Tower → List ℕ
tops zero x pre = []
tops (suc n) x pre = tops n x pre ++ (last_at n (x, pre) pre).0.addr ∷ []

abbrev pub final : ℕ → Tower → List Tower → ℕ → ℕ
final zero x pre p = p
final (suc n) x pre p = (last_at 0 (x, pre) pre).0.addr

module _ (h : Heap) (key : Bytes) (x : Tower) (pre post : List Tower)
    (rep : Rep h (x ∷ pre ++ post) []) (rest_ : All AtRest (x ∷ pre ++ post))
    (fits : length (pre ++ post) < length h) (less : AllLess key pre)
    (none_less : NoneLess key post) where
  -- A place among the towers before the key.
  place-Rep :
      (b : Place)
      → IsIn (x ∷ pre) b
      → IsTower h b.0 (b.1 ++ post)
        × Rep h (b.1 ++ post) []
        × AtRest b.0
        × All AtRest (b.1 ++ post)
        × AllLess key b.1
        × (length (b.1 ++ post) < length h)
  place-Rep b (qs, e) =
      let whole : x ∷ pre ++ post ≡ qs ++ b.0 ∷ (b.1 ++ post) =
        ap (λ l. l ++ post) e ∙ append_assoc qs (b.0 ∷ b.1) post in
      let r = Rep-drop h qs (b.0 ∷ (b.1 ++ post)) [] (subst (λ l. Rep h l []) whole rep) in
      let a = All-drop AtRest qs (b.0 ∷ (b.1 ++ post)) (subst (All AtRest) whole rest_) in
      let short = ap length whole ∙ length-append qs (b.0 ∷ (b.1 ++ post)) in
      (
        subst (IsTower h b.0) (append-nil (b.1 ++ post)) r.0,
        r.1,
        a.0,
        a.1,
        behind_less qs e,
        omega arith,
      )
    where
      behind_less : (qs : List Tower) → x ∷ pre ≡ qs ++ b.0 ∷ b.1 → AllLess key b.1
      behind_less [] e = subst (AllLess key) (tail_eq e) less
      behind_less (q ∷ qs) e =
          (All-drop (λ (y : Tower). key_lt y.key key ≡ true) qs (b.0 ∷ b.1)
            (subst (AllLess key) (tail_eq e) less)).1

  -- One level of the search, from a place that is linked in on it.
  walk-last_at :
      (i : ℕ) (b : Place)
      → IsIn (x ∷ pre) b
      → i < b.0.slots
      → i < x.slots
      → (walk (length h) i key b.0.addr h ≡ some (last_at i (x, pre) pre).0.addr)
        × IsIn (x ∷ pre) (last_at i (x, pre) pre)
        × (i < (last_at i (x, pre) pre).0.slots)
  walk-last_at i b at lt lt_head =
      let (t, r, rest_b, rests, l, long) = place-Rep b at in
      let on = covers-AtRest i b.0 rest_b lt in
      let found =
        walk-seek i key h (onto post b) (b.1 ++ post) (length h) long (forward-IsTower b.0 t i lt) r
          rests in
      let stops = seek-last_at i key b b.1 post l none_less in
      let head_on = covers-AtRest i x rest_.0 lt_head in
      let same = from_head i x pre b at on head_on in
      let (in_, c) = last_at-IsIn i (x ∷ pre) (x, pre) [] pre ([], refl) head_on refl in
      let rest_l = (place-Rep (last_at i (x, pre) pre) in_).2 in
      (
        found ∙ ap (λ (p : Place). some p.0.addr) (stops ∙ ap (onto post) (sym same)),
        in_,
        covers-slots i (last_at i (x, pre) pre).0 rest_l c,
      )

  -- The outer loop ends at the last tower before the key, and `update` holds the last of each level.
  pub descend-tops :
      (n : ℕ) (b : Place)
      → IsIn (x ∷ pre) b
      → n ≤ b.0.slots
      → n ≤ x.slots
      → descend n key b.0.addr h ≡ some (final n x pre b.0.addr, tops n x pre)
  unfolding descend
  descend-tops zero b at le le_head = refl
  descend-tops (suc n) b at le le_head =
      let (found, in_, lt) = walk-last_at n b at (omega arith) (omega arith) in
      let deeper = descend-tops n (last_at n (x, pre) pre) in_ (omega arith) (omega arith) in
      rw (found, deeper)
        (ap (λ p. some (p, tops n x pre ++ (last_at n (x, pre) pre).0.addr ∷ [])) (lowest n))
    where
      lowest :
          (n : ℕ) → final n x pre (last_at n (x, pre) pre).0.addr ≡ (last_at 0 (x, pre) pre).0.addr
      lowest zero = refl
      lowest (suc n) = refl

  -- The pointer of such a place is to the first tower of the level that is not before the key.
  pub forward-last_at :
      (i : ℕ) → i < x.slots → forward_at (last_at i (x, pre) pre).0.addr i h ≡ some (next_at i post)
  forward-last_at i lt =
      let (in_, c) =
        last_at-IsIn i (x ∷ pre) (x, pre) [] pre ([], refl) (covers-AtRest i x rest_.0 lt) refl in
      let p = place-Rep (last_at i (x, pre) pre) in_ in
      forward-IsTower (last_at i (x, pre) pre).0 p.0 i
        (covers-slots i (last_at i (x, pre) pre).0 p.2 c)
      ∙ ap some
          (next_at-none i (last_at i (x, pre) pre).1 post (last_at-last i (x, pre) [] pre refl tt))
