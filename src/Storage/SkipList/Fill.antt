-- ===== src/Storage/SkipList/Fill.antt =====
-- The loop of `insert_element_locked` that links the new node in.
use kv_raft_storage.Common.{
  ℕ, zero, suc, ◌<◌, ◌≡◌, ◌≢◌, refl, sym, ap, ◌∙◌, subst, true, false, List, [], ◌∷◌, ◌++◌, Option,
  some, length, get_elem?, set, All, arith, ltb, get_elem?-set_self, get_elem?-set_ne, length-set,
  append_assoc,
}
use kv_raft_storage.Storage.SkipList.{SkipNode, Heap, node_at, set_forward}
use kv_raft_storage.Storage.SkipList.Towers.{
  Tower, covers, next_at, AtRest, IsTower, Elsewhere, Distinct, node_at-set_self, node_at-set_ne,
  node_at-lt,
}
use kv_raft_storage.Storage.SkipList.Seek.{Place, covers-slots, covers-AtRest}
use kv_raft_storage.Storage.SkipList.Last.{last_at, last_at-IsIn, last_at-last, All-drop}
use kv_raft_storage.Storage.SkipList.Relink.{by_level}

-- The new tower, linked in below level `k`.
abbrev pub upto : ℕ → Tower → Tower
upto k m = record m { lo = 0; hi = k }

-- Its node: the pointers below level `k` are those that `rest` asks for.
pub record IsFilled (h : Heap) (m : Tower) (k : ℕ) (rest : List Tower) : Type 0 where
  pub node : SkipNode
  pub at : node_at m.addr h ≡ some node
  pub has_key : node.key ≡ m.key
  pub has_value : node.value ≡ m.value
  pub sized : length node.forward ≡ m.slots
  pub links : (i : ℕ) → i < k → get_elem? node.forward i ≡ some (next_at i rest)

pub set-IsFilled :
    (p : ℕ) (v : Option SkipNode) (h : Heap) (m : Tower) (k : ℕ) (rest : List Tower)
    → m.addr ≢ p
    → IsFilled h m k rest
    → IsFilled (set h p v) m k rest
set-IsFilled p v h m k rest ne t = record {
  node = t.node;
  at = node_at-set_ne p m.addr v h (λ e. ne (sym e)) ∙ t.at;
  has_key = t.has_key;
  has_value = t.has_value;
  sized = t.sized;
  links = t.links;
}

pub fill_one :
    (h : Heap) (m : Tower) (k : ℕ) (rest : List Tower)
    → IsFilled h m k rest
    → k < m.slots
    → (v : SkipNode) × (set_forward m.addr k (next_at k rest) h ≡ some (set h m.addr (some v)))
      × IsFilled (set h m.addr (some v)) m (suc k) rest
unfolding set_forward
fill_one h m k rest t lt =
    let v : SkipNode = record t.node { forward = set t.node.forward k (next_at k rest) } in
    let on : ltb k (length t.node.forward) ≡ true = let s = t.sized in ground arith in
    (
      v,
      rw (t.at, on),
      record {
        node = v;
        at = node_at-set_self m.addr (some v) h (node_at-lt m.addr h t.at);
        has_key = t.has_key;
        has_value = t.has_value;
        sized = length-set t.node.forward k (next_at k rest) ∙ t.sized;
        links = λ i lt'.
            by_level i k
              (get_elem? (set t.node.forward k (next_at k rest)) i ≡ some (next_at i rest))
              (λ e.
                subst
                  (λ j. get_elem? (set t.node.forward k (next_at k rest)) j ≡ some (next_at j rest))
                  (sym e)
                  (get_elem?-set_self t.node.forward k (next_at k rest)
                    (subst (λ n. k < n) (sym t.sized) lt)))
              (λ ne.
                get_elem?-set_ne t.node.forward k i (next_at k rest) (λ e. ne (sym e))
                ∙ t.links i (omega arith));
      },
    )

pub filled-IsTower :
    (h : Heap) (m : Tower) (rest : List Tower)
    → IsFilled h m m.slots rest
    → IsTower h (upto m.slots m) rest
filled-IsTower h m rest t = record {
  node = t.node;
  at = t.at;
  has_key = t.has_key;
  has_value = t.has_value;
  sized = t.sized;
  links = t.links;
}

-- `update[i]` for the `n` levels from `i` on.
abbrev pub lasts : ℕ → ℕ → Tower → List Tower → List ℕ
lasts i zero x pre = []
lasts i (suc n) x pre = (last_at i (x, pre) pre).0.addr ∷ lasts (suc i) n x pre

pub Distinct-at :
    (qs : List Tower) (y : Tower) (rest : List Tower)
    → Distinct (qs ++ y ∷ rest)
    → Elsewhere y.addr qs × Elsewhere y.addr rest
Distinct-at [] y rest d = (tt, d.0)
Distinct-at (q ∷ qs) y rest d =
    let (before, after) = Distinct-at qs y rest d.1 in
    let other = (All-drop (λ (z : Tower). z.addr ≢ q.addr) qs (y ∷ rest) d.0).0 in
    ((λ e. other (sym e), before), after)

pub All-front : (P : Tower → Type 0) (qs xs : List Tower) → All P (qs ++ xs) → All P qs
All-front P [] xs a = tt
All-front P (q ∷ qs) xs a = (a.0, All-front P qs xs a.1)

-- Where the last tower of a level stands, in a list of distinct towers at rest.
pub record EndsLevel (k : ℕ) (x : Tower) (pre post : List Tower) : Type 0 where
  pub before : List Tower
  pub split : x ∷ pre ≡ before ++ (last_at k (x, pre) pre).0 ∷ (last_at k (x, pre) pre).1
  pub tall : k < (last_at k (x, pre) pre).0.slots
  pub rests : All AtRest ((last_at k (x, pre) pre).0 ∷ (last_at k (x, pre) pre).1)
  pub none_of : All (λ (y : Tower). covers k y ≡ false) (last_at k (x, pre) pre).1
  pub not_before : Elsewhere (last_at k (x, pre) pre).0.addr before
  pub not_behind : Elsewhere (last_at k (x, pre) pre).0.addr (last_at k (x, pre) pre).1
  pub not_post : Elsewhere (last_at k (x, pre) pre).0.addr post

pub last_at-EndsLevel :
    (k : ℕ) (x : Tower) (pre post : List Tower)
    → All AtRest (x ∷ pre)
    → Distinct (x ∷ pre ++ post)
    → k < x.slots
    → EndsLevel k x pre post
last_at-EndsLevel k x pre post a d lt =
    let b : Place = last_at k (x, pre) pre in
    let (in_, on) =
      last_at-IsIn k (x ∷ pre) (x, pre) [] pre ([], refl) (covers-AtRest k x a.0 lt) refl in
    let (qs, e) = in_ in
    let rests = All-drop AtRest qs (b.0 ∷ b.1) (subst (All AtRest) e a) in
    let whole : x ∷ pre ++ post ≡ qs ++ b.0 ∷ (b.1 ++ post) =
      ap (λ l. l ++ post) e ∙ append_assoc qs (b.0 ∷ b.1) post in
    let (d1, d2) = Distinct-at qs b.0 (b.1 ++ post) (subst Distinct whole d) in
    record {
      before = qs;
      split = e;
      tall = covers-slots k b.0 rests.0 on;
      rests = rests;
      none_of = last_at-last k (x, pre) [] pre refl tt;
      not_before = d1;
      not_behind = All-front (λ (z : Tower). z.addr ≢ b.0.addr) b.1 post d2;
      not_post = All-drop (λ (z : Tower). z.addr ≢ b.0.addr) b.1 post d2;
    }
