-- ===== src/Storage/SkipList/Seek.antt =====
-- The search: where its loops stop, in the order of level 0.
use kv_raft_storage.Common.{
  ℕ, zero, suc, ◌<◌, ◌≡◌, ap, ◌∙◌, subst, inl, inr, true, false, List, [], ◌∷◌, some, if◌then◌else◌,
  length, All, Bytes, Bool-cases, arith, append-nil,
}
use kv_raft_storage.Storage.KeyOrder.{key_lt}
use kv_raft_storage.Storage.SkipList.{Heap, forward_at, walk}
use kv_raft_storage.Storage.SkipList.Towers.{
  Tower, covers, next_at, AtRest, IsTower, Rep, forward-IsTower,
}

-- A tower with all that is behind it.
abbrev pub Place : Type 0
Place = Tower × List Tower

-- The inner loop from `b`, which has looked at what is before `rest`.
unfoldable pub seek : ℕ → Bytes → Place → List Tower → Place
seek i key b [] = b
seek i key b (y ∷ rest) =
    let past = seek i key (y, rest) rest in
    let over = seek i key b rest in
    if covers i y then (if key_lt y.key key then past else b) else over

-- What is known of a place in the heap.
abbrev pub IsPlace : Heap → Place → Type 0
IsPlace h b = IsTower h b.0 b.1 × AtRest b.0 × Rep h b.1 [] × All AtRest b.1

pub covers-slots : (i : ℕ) (x : Tower) → AtRest x → covers i x ≡ true → i < x.slots
covers-slots i x r c = let (lo, hi, _) = r in ground arith

pub covers-AtRest : (i : ℕ) (x : Tower) → AtRest x → i < x.slots → covers i x ≡ true
covers-AtRest i x r lt = let (lo, hi, _) = r in ground arith

pub covers-below : (i : ℕ) (x : Tower) → AtRest x → covers (suc i) x ≡ true → covers i x ≡ true
covers-below i x r c = covers-AtRest i x r (let l = covers-slots (suc i) x r c in omega arith)

seek-IsPlace :
    (i : ℕ) (key : Bytes) (h : Heap) (b : Place) (rest : List Tower)
    → IsPlace h b
    → Rep h rest []
    → All AtRest rest
    → covers i b.0 ≡ true
    → IsPlace h (seek i key b rest) × (covers i (seek i key b rest).0 ≡ true)
unfolding seek
seek-IsPlace i key h b [] p r a c = (p, c)
seek-IsPlace i key h b (y ∷ rest) p r a c = elim (Bool-cases (covers i y)) [
  | inl on ↦ elim (Bool-cases (key_lt y.key key)) [
    | inl less ↦
        rw (on, less)
          (seek-IsPlace i key h (y, rest) rest
            (subst (IsTower h y) (append-nil rest) r.0, a.0, r.1, a.1) r.1 a.1 on)
    | inr stop ↦ rw (on, stop) (p, c)
  ]
  | inr off ↦ rw off (seek-IsPlace i key h b rest p r.1 a.1 c)
]

-- The inner loop of the code stops there.
pub walk-seek :
    (i : ℕ) (key : Bytes) (h : Heap) (b : Place) (rest : List Tower) (fuel : ℕ)
    → length rest < fuel
    → forward_at b.0.addr i h ≡ some (next_at i rest)
    → Rep h rest []
    → All AtRest rest
    → walk fuel i key b.0.addr h ≡ some (seek i key b rest).0.addr
unfolding walk seek
walk-seek i key h b [] zero lt f r a = absurd (omega arith)
walk-seek i key h b [] (suc fuel) lt f r a = rw f
walk-seek i key h b (y ∷ rest) zero lt f r a = absurd (omega arith)
walk-seek i key h b (y ∷ rest) (suc fuel) lt f r a = elim (Bool-cases (covers i y)) [
  | inl on ↦
      let next : forward_at b.0.addr i h ≡ some (some y.addr) = f ∙ ap some (on_next on) in
      let t = r.0 in
      let less_as : key_lt t.node.key key ≡ key_lt y.key key = ap (λ k. key_lt k key) t.has_key in
      elim (Bool-cases (key_lt y.key key)) [
        | inl less ↦
            let less' : key_lt t.node.key key ≡ true = less_as ∙ less in
            let there =
              forward-IsTower y (subst (IsTower h y) (append-nil rest) t) i
                (covers-slots i y a.0 on) in
            rw (next, t.at, less', on, less)
              (walk-seek i key h (y, rest) rest fuel (omega arith) there r.1 a.1)
        | inr stop ↦
            let stop' : key_lt t.node.key key ≡ false = less_as ∙ stop in
            rw (next, t.at, stop', on, stop)
      ]
  | inr off ↦
      let f' : forward_at b.0.addr i h ≡ some (next_at i rest) = rw off at f in
      rw off (walk-seek i key h b rest (suc fuel) (omega arith) f' r.1 a.1)
]
  where
    on_next : covers i y ≡ true → next_at i (y ∷ rest) ≡ some y.addr
    on_next on = rw on
