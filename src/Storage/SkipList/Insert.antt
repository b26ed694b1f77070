-- ===== src/Storage/SkipList/Insert.antt =====
-- `insert_element` of a well-formed list.
use kv_raft_storage.Common.{
  ℕ, zero, suc, ◌+◌, ◌≤◌, ◌<◌, ◌≡◌, ◌≢◌, refl, sym, ap, ◌∙◌, subst, List, [], ◌∷◌, ◌++◌, some,
  length, set, All, arith, length-set,
}
use kv_raft_storage.Storage.SkipList.{Heap, forward_at, set_forward, link}
use kv_raft_storage.Storage.SkipList.Towers.{
  Tower, next_at, AtRest, Rep, Elsewhere, Distinct, set-Rep, forward-IsTower, next_at-none,
}
use kv_raft_storage.Storage.SkipList.Last.{last_at, Rep-drop, All-drop}
use kv_raft_storage.Storage.SkipList.Relink.{SameBut, relink}
use kv_raft_storage.Storage.SkipList.Fill.{
  upto, IsFilled, set-IsFilled, fill_one, lasts, last_at-EndsLevel, All-front,
}

upto-same :
    (k : ℕ) (m : Tower) (post : List Tower) → SameBut k (upto k m ∷ post) (upto (suc k) m ∷ post)
upto-same k m post i ne = ground arith

upto-off : (k : ℕ) (m : Tower) (post : List Tower) → next_at k (upto k m ∷ post) ≡ next_at k post
upto-off k m post = ground arith

upto-on : (k : ℕ) (m : Tower) (post : List Tower) → next_at k (upto (suc k) m ∷ post) ≡ some m.addr
upto-on k m post = ground arith

-- The heap while the new tower is linked in below level `k`.
abbrev pub Filling : Heap → ℕ → Tower → List Tower → Tower → List Tower → Type 0
Filling h k x pre m post = Rep h (x ∷ pre) (upto k m ∷ post) × IsFilled h m k post × Rep h post []

module _ (x : Tower) (pre post : List Tower) (m : Tower) (rests : All AtRest (x ∷ pre))
    (distinct : Distinct (x ∷ pre ++ post)) (apart : Elsewhere m.addr (x ∷ pre ++ post)) where
  -- One round of the loop.
  link_one :
      (h : Heap) (k : ℕ)
      → Filling h k x pre m post
      → k < m.slots
      → k < x.slots
      → (h1 : Heap) × (h2 : Heap) × (forward_at (last_at k (x, pre) pre).0.addr k h
          ≡ some (next_at k post))
        × (set_forward m.addr k (next_at k post) h ≡ some h1)
        × (set_forward (last_at k (x, pre) pre).0.addr k (some m.addr) h1 ≡ some h2)
        × Filling h2 (suc k) x pre m post
        × (length h2 ≡ length h)
  link_one h k f lt lt_x =
      let l = last_at-EndsLevel k x pre post rests distinct lt_x in
      let b = (last_at k (x, pre) pre).0 in
      let px = (last_at k (x, pre) pre).1 in
      let apart_pre = All-front (λ (y : Tower). y.addr ≢ m.addr) (x ∷ pre) post apart in
      let apart_post = All-drop (λ (y : Tower). y.addr ≢ m.addr) (x ∷ pre) post apart in
      let (rep, filled, rep_post) = f in
      let at_b =
        Rep-drop h l.before (b ∷ px) (upto k m ∷ post)
          (subst (λ s. Rep h s (upto k m ∷ post)) l.split rep) in
      let next =
        forward-IsTower b at_b.0 k l.tall
        ∙ ap some (next_at-none k px (upto k m ∷ post) l.none_of ∙ upto-off k m post) in
      let (v, e1, filled1) = fill_one h m k post filled lt in
      let h1 : Heap = set h m.addr (some v) in
      let rep1 =
        subst (λ s. Rep h1 s (upto k m ∷ post)) l.split
          (set-Rep m.addr (some v) h (x ∷ pre) (upto k m ∷ post) apart_pre rep) in
      let (v2, e2, rep2) =
        relink k h1 l.before b px (upto k m ∷ post) (upto (suc k) m ∷ post) (upto-same k m post)
          rep1 l.rests l.tall l.none_of l.not_before l.not_behind in
      let h2 : Heap = set h1 b.addr (some v2) in
      let away : b.addr ≢ m.addr =
        (All-drop (λ (y : Tower). y.addr ≢ m.addr) l.before (b ∷ px)
          (subst (Elsewhere m.addr) l.split apart_pre)).0 in
      (
        h1,
        h2,
        next,
        e1,
        subst (λ q. set_forward b.addr k q h1 ≡ some h2) (upto-on k m post) e2,
        (
          subst (λ s. Rep h2 s (upto (suc k) m ∷ post)) (sym l.split) rep2,
          set-IsFilled b.addr (some v2) h1 m (suc k) post (λ e. away (sym e)) filled1,
          set-Rep b.addr (some v2) h1 post [] l.not_post
              (set-Rep m.addr (some v) h post [] apart_post rep_post),
        ),
        length-set h1 b.addr (some v2) ∙ length-set h m.addr (some v),
      )

  -- The whole loop.
  pub link-fills :
      (n k : ℕ) (h : Heap)
      → Filling h k x pre m post
      → k + n ≡ m.slots
      → m.slots ≤ x.slots
      → (out : Heap) × (link m.addr k (lasts k n x pre) h ≡ some out)
        × Filling out m.slots x pre m post
        × (length out ≡ length h)
  unfolding link
  link-fills zero k h f e le =
      (h, refl, subst (λ j. Filling h j x pre m post) (omega arith) f, refl)
  link-fills (suc n) k h f e le =
      let (h1, h2, next, e1, e2, f2, long) = link_one h k f (omega arith) (omega arith) in
      let (out, e3, f3, long3) = link-fills n (suc k) h2 f2 (omega arith) le in
      (out, rw (next, e1, e2) e3, f3, long3 ∙ long)
