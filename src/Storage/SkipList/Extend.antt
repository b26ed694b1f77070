-- ===== src/Storage/SkipList/Extend.antt =====
-- A heap with one more node, and a list of towers with one more.
use kv_raft_storage.Common.{
  ℕ, ◌<◌, ◌≡◌, ◌≢◌, refl, sym, ap, ◌∙◌, inl, inr, List, [], ◌∷◌, ◌++◌, Option, none, some, length,
  All-append, arith, ◌>>=◌, bytes_eq_iff, get_elem?-append_left, get_elem?-append_last,
}
use kv_raft_storage.Storage.KeyOrder.{key-cases, key_lt_asym, key_lt-ne_sym}
use kv_raft_storage.Storage.SortedMap.{insert}
use kv_raft_storage.Storage.SkipList.{SkipNode, Heap, node_at}
use kv_raft_storage.Storage.SkipList.Towers.{Tower, Rep, Elsewhere, Distinct, node_at-lt}
use kv_raft_storage.Storage.SkipList.Last.{AllLess, NoneLess, All-drop}
use kv_raft_storage.Storage.SkipList.Find.{pairs, here_at}
use kv_raft_storage.Storage.SkipList.Fill.{All-front}

node_at-append :
    (p : ℕ) (h : Heap) (v : Option SkipNode) → p < length h → node_at p (h ++ v ∷ []) ≡ node_at p h
unfolding node_at
node_at-append p h v lt =
    ap (λ (o : Option (Option SkipNode)). o >>= λ x. x) (get_elem?-append_left h (v ∷ []) p lt)

pub node_at-new : (h : Heap) (n : SkipNode) → node_at (length h) (h ++ some n ∷ []) ≡ some n
unfolding node_at
node_at-new h n = rw (get_elem?-append_last h (some n))

pub append-Rep :
    (h : Heap) (v : Option SkipNode) (xs tail : List Tower)
    → Rep h xs tail
    → Rep (h ++ v ∷ []) xs tail
append-Rep h v [] tail r = tt
append-Rep h v (x ∷ xs) tail r =
    let t = r.0 in
    (
      record {
        node = t.node;
        at = node_at-append x.addr h v (node_at-lt x.addr h t.at) ∙ t.at;
        has_key = t.has_key;
        has_value = t.has_value;
        sized = t.sized;
        links = t.links;
      },
      append-Rep h v xs tail r.1,
    )

-- No tower is at a new address.
pub Rep-Elsewhere : (h : Heap) (xs tail : List Tower) → Rep h xs tail → Elsewhere (length h) xs
Rep-Elsewhere h [] tail r = tt
Rep-Elsewhere h (x ∷ xs) tail r = (
  (λ e. let lt = node_at-lt x.addr h r.0.at in absurd (omega arith)),
  Rep-Elsewhere h xs tail r.1,
)

pub Distinct-insert :
    (qs : List Tower) (m : Tower) (rest : List Tower)
    → Distinct (qs ++ rest)
    → Elsewhere m.addr (qs ++ rest)
    → Distinct (qs ++ m ∷ rest)
Distinct-insert [] m rest d e = (e, d)
Distinct-insert (q ∷ qs) m rest d e = (
  All-append (λ (z : Tower). z.addr ≢ q.addr) qs (m ∷ rest)
      (All-front (λ (z : Tower). z.addr ≢ q.addr) qs rest d.0)
      ((λ s. e.0 (sym s)), All-drop (λ (z : Tower). z.addr ≢ q.addr) qs rest d.0),
  Distinct-insert qs m rest d.1 e.1,
)

pub pairs-insert :
    (pre post : List Tower) (m : Tower)
    → AllLess m.key pre
    → NoneLess m.key post
    → here_at m.key post ≡ none
    → pairs (pre ++ m ∷ post) ≡ insert m.key m.value (pairs (pre ++ post))
unfolding insert
pairs-insert [] [] m l g none_here = refl
pairs-insert [] (y ∷ post) m l g none_here = elim (key-cases m.key y.key) [
  | inl before ↦ rw before
  | inr (inl e) ↦
      absurd (let same = (bytes_eq_iff y.key m.key).1 (sym e) in let h = rw same at none_here in cc)
  | inr (inr after) ↦ absurd (let g' = g.0 in cc)
]
pairs-insert (x ∷ pre) post m l g none_here =
    rw (key_lt_asym x.key m.key l.0, key_lt-ne_sym x.key m.key l.0)
      (ap (λ p. (x.key, x.value) ∷ p) (pairs-insert pre post m l.1 g none_here))
