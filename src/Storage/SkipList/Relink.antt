-- ===== src/Storage/SkipList/Relink.antt =====
-- One pointer is turned: what that makes of the nodes.
use kv_raft_storage.Common.{
  ℕ, ◌<◌, ◌≡◌, ◌≢◌, sym, ap, ◌∙◌, subst, inl, inr, true, false, List, [], ◌∷◌, ◌++◌, Option, some,
  length, get_elem?, set, All, arith, ltb, ◌==◌, Bool-cases, get_elem?-set_self, get_elem?-set_ne,
  length-set, append_assoc,
}
use kv_raft_storage.Storage.SkipList.{SkipNode, Heap, set_forward}
use kv_raft_storage.Storage.SkipList.Towers.{
  Tower, covers, next_at, AtRest, IsTower, IsTower-behind, Rep, Elsewhere, set-Rep,
  node_at-set_self, node_at-lt, next_at-append, next_at-stops, next_at-none,
}
use kv_raft_storage.Storage.SkipList.Seek.{covers-AtRest}

-- The same pointers on all levels but `k`.
abbrev pub SameBut : ℕ → List Tower → List Tower → Type 0
SameBut k tail tail' = (i : ℕ) → i ≢ k → next_at i tail ≡ next_at i tail'

pub by_level : (i k : ℕ) (A : Type 0) → (i ≡ k → A) → (i ≢ k → A) → A
by_level i k A f g = elim (Bool-cases (i == k)) [
  | inl e ↦ f (ground arith)
  | inr e ↦ g (λ e'. ground arith)
]

-- The node of `x` with its pointer on level `k` turned.
turned :
    (k : ℕ) (h : Heap) (x : Tower) (rest : List Tower) (v : Option ℕ) → IsTower h x rest → SkipNode
turned k h x rest v t = record t.node { forward = set t.node.forward k v }

set_forward-IsTower :
    (k : ℕ) (h : Heap) (x : Tower) (rest : List Tower) (v : Option ℕ) (t : IsTower h x rest)
    → k < x.slots
    → set_forward x.addr k v h ≡ some (set h x.addr (some (turned k h x rest v t)))
unfolding set_forward turned
set_forward-IsTower k h x rest v t lt =
    let on : ltb k (length t.node.forward) ≡ true = let s = t.sized in ground arith in rw (t.at, on)

module _ (k : ℕ) (h : Heap) (tail tail' : List Tower) (same : SameBut k tail tail') where
  turned-IsTower :
      (x : Tower) (px : List Tower) (t : IsTower h x (px ++ tail))
      → k < x.slots
      → All (λ (y : Tower). covers k y ≡ false) px
      → IsTower
          (set h x.addr (some (turned k h x (px ++ tail) (next_at k tail') t)))
          x
          (px ++ tail')
  unfolding turned
  turned-IsTower x px t lt last = record {
    node = turned k h x (px ++ tail) (next_at k tail') t;
    at =
        node_at-set_self x.addr (some (turned k h x (px ++ tail) (next_at k tail') t)) h
          (node_at-lt x.addr h t.at);
    has_key = t.has_key;
    has_value = t.has_value;
    sized = length-set t.node.forward k (next_at k tail') ∙ t.sized;
    links = λ i lt'.
        by_level i k
          (get_elem? (set t.node.forward k (next_at k tail')) i ≡ some (next_at i (px ++ tail')))
          (λ e.
            subst
              (λ j.
                get_elem? (set t.node.forward k (next_at k tail')) j
                ≡ some (next_at j (px ++ tail')))
              (sym e)
              (get_elem?-set_self t.node.forward k (next_at k tail')
                  (subst (λ n. k < n) (sym t.sized) lt)
                ∙ ap some (sym (next_at-none k px tail' last))))
          (λ ne.
            get_elem?-set_ne t.node.forward k i (next_at k tail') (λ e. ne (sym e))
            ∙ t.links i lt'
            ∙ ap some (next_at-append i px tail tail' (same i ne)));
  }

  -- The towers behind the one that was turned.
  Rep-after :
      (px : List Tower)
      → All AtRest px
      → All (λ (y : Tower). covers k y ≡ false) px
      → Rep h px tail
      → Rep h px tail'
  Rep-after [] a last r = tt
  Rep-after (y ∷ px) a last r = (
    IsTower-behind y (λ i lt. next_at-append i px tail tail' (same i (other i lt))) r.0,
    Rep-after px a.1 last.1 r.1,
  )
    where
      other : (i : ℕ) → i < y.slots → i ≢ k
      other i lt e = let c = covers-AtRest i y a.0 lt in let l = last.0 in let c' = rw e at c in cc

  -- The towers before it.
  Rep-before :
      (qs : List Tower) (x : Tower) (px : List Tower)
      → covers k x ≡ true
      → Rep h qs (x ∷ (px ++ tail))
      → Rep h qs (x ∷ (px ++ tail'))
  Rep-before [] x px c r = tt
  Rep-before (q ∷ qs) x px c r = (
    IsTower-behind q
        (λ i lt.
          by_level i k (next_at i (qs ++ x ∷ (px ++ tail)) ≡ next_at i (qs ++ x ∷ (px ++ tail')))
            (λ e.
              subst (λ j. next_at j (qs ++ x ∷ (px ++ tail)) ≡ next_at j (qs ++ x ∷ (px ++ tail')))
                (sym e) (next_at-stops k qs x (px ++ tail) (px ++ tail') c))
            (λ ne.
              next_at-append i qs (x ∷ (px ++ tail)) (x ∷ (px ++ tail'))
                (next_at-append i (x ∷ px) tail tail' (same i ne))))
        r.0,
    Rep-before qs x px c r.1,
  )

pub Rep-append :
    (h : Heap) (qs xs tail : List Tower)
    → Rep h (qs ++ xs) tail
    → Rep h qs (xs ++ tail) × Rep h xs tail
Rep-append h [] xs tail r = (tt, r)
Rep-append h (q ∷ qs) xs tail r =
    let (a, b) = Rep-append h qs xs tail r.1 in
    ((subst (IsTower h q) (append_assoc qs xs tail) r.0, a), b)

pub Rep-join :
    (h : Heap) (qs xs tail : List Tower)
    → Rep h qs (xs ++ tail)
    → Rep h xs tail
    → Rep h (qs ++ xs) tail
Rep-join h [] xs tail a r = r
Rep-join h (q ∷ qs) xs tail a r =
    (subst (IsTower h q) (sym (append_assoc qs xs tail)) a.0, Rep-join h qs xs tail a.1 r)

-- Turning the pointer on level `k` of the last tower of that level makes the nodes have `tail'` behind
-- them, if that differs from `tail` on no other level.
pub relink :
    (k : ℕ) (h : Heap) (qs : List Tower) (x : Tower) (px tail tail' : List Tower)
    → SameBut k tail tail'
    → Rep h (qs ++ x ∷ px) tail
    → All AtRest (x ∷ px)
    → k < x.slots
    → All (λ (y : Tower). covers k y ≡ false) px
    → Elsewhere x.addr qs
    → Elsewhere x.addr px
    → (v : SkipNode) × (set_forward x.addr k (next_at k tail') h ≡ some (set h x.addr (some v)))
      × Rep (set h x.addr (some v)) (qs ++ x ∷ px) tail'
relink k h qs x px tail tail' same r a lt last dq dp =
    let (before, at_x) = Rep-append h qs (x ∷ px) tail r in
    let (t, after) = at_x in
    let v = turned k h x (px ++ tail) (next_at k tail') t in
    let on = covers-AtRest k x a.0 lt in
    (
      v,
      set_forward-IsTower k h x (px ++ tail) (next_at k tail') t lt,
      Rep-join (set h x.addr (some v)) qs (x ∷ px) tail'
          (set-Rep x.addr (some v) h qs (x ∷ (px ++ tail')) dq
            (Rep-before k h tail tail' same qs x px on before))
          (
            turned-IsTower k h tail tail' same x px t lt last,
            set-Rep x.addr (some v) h px tail' dp (Rep-after k h tail tail' same px a.1 last after),
          ),
    )
