-- ===== src/Storage/SkipList/Find.antt =====
-- The lists that the operations keep, and the search of a key in one.
use kv_raft_storage.Common.{
  ℕ, suc, ◌≤◌, ◌<◌, ◌≡◌, refl, sym, ap, ◌∙◌, subst, inl, inr, true, false, List, [], ◌∷◌, ◌++◌,
  Option, none, some, if◌then◌else◌, length, All, Bytes, bytes_eq, bytes_eq_iff, Bool-cases, arith,
  map,
}
use kv_raft_storage.Storage.KeyOrder.{key_lt, key_lt_trans, key-cases, key_lt-ne, key_lt-ne_sym}
use kv_raft_storage.Storage.SortedMap.{SortedMap, find, Behind, Ascending}
use kv_raft_storage.Storage.SkipList.{
  SkipNode, SkipList, Heap, match_node, locate, search_element, value_found,
}
use kv_raft_storage.Storage.SkipList.Towers.{Tower, next_at, AtRest, Rep, Distinct}
use kv_raft_storage.Storage.SkipList.Descent.{tops, descend-tops, forward-last_at}
use kv_raft_storage.Storage.SkipList.Last.{AllLess, NoneLess, Rep-drop, All-drop}
use kv_raft_storage.Storage.SkipList.Seek.{covers-AtRest}

abbrev pub header_tower : ℕ → Tower
header_tower max_level = record {
  addr = 0;
  key = [];
  value = [];
  slots = suc max_level;
  lo = 0;
  hi = suc max_level;
}

-- The map that the towers show.
abbrev pub pairs : List Tower → SortedMap Bytes
pairs xs = map (λ (x : Tower). (x.key, x.value)) xs

-- Towers of at most `top` levels.
abbrev pub Under : ℕ → List Tower → Type 0
Under top xs = All (λ (x : Tower). x.slots ≤ top) xs

-- The well-formed lists: every level links the nodes that reach it, in the order of their keys.
pub record IsList (s : SkipList) : Type 0 where
  pub towers : List Tower
  pub level_le : s.level ≤ s.max_level
  pub linked : Rep s.nodes (header_tower s.max_level ∷ towers) []
  pub at_rest : All AtRest towers
  pub under : Under (suc s.level) towers
  pub distinct : Distinct (header_tower s.max_level ∷ towers)
  pub sorted : Ascending (pairs towers)
  pub fits : length towers < length s.nodes
  pub counted : s.count ≡ length towers

-- The towers before a key, and the others.
pub record Split (key : Bytes) (xs : List Tower) : Type 0 where
  pub pre : List Tower
  pub post : List Tower
  pub whole : xs ≡ pre ++ post
  pub less : AllLess key pre
  pub none_less : NoneLess key post

Behind-NoneLess :
    (key : Bytes) (y : Bytes) (xs : List Tower)
    → key_lt y key ≡ false
    → Behind y (pairs xs)
    → NoneLess key xs
Behind-NoneLess key y [] g b = tt
Behind-NoneLess key y (x ∷ xs) g b = (after, Behind-NoneLess key y xs g b.1)
  where
    after : key_lt x.key key ≡ false
    after = elim (Bool-cases (key_lt x.key key)) [
      | inl l ↦ absurd (let l' = key_lt_trans y x.key key b.0 l in cc)
      | inr n ↦ n
    ]

pub split_towers : (key : Bytes) (xs : List Tower) → Ascending (pairs xs) → Split key xs
split_towers key [] a = record { pre = []; post = []; whole = refl; less = tt; none_less = tt }
split_towers key (x ∷ xs) a = elim (Bool-cases (key_lt x.key key)) [
  | inl l ↦
      let r = split_towers key xs a.1 in
      record {
        pre = x ∷ r.pre;
        post = r.post;
        whole = ap (λ l. x ∷ l) r.whole;
        less = (l, r.less);
        none_less = r.none_less;
      }
  | inr n ↦ record {
    pre = [];
    post = x ∷ xs;
    whole = refl;
    less = tt;
    none_less = (n, Behind-NoneLess key x.key xs n a.0);
  }
]

-- The first of the others, if it has the key.
abbrev pub here_at : Bytes → List Tower → Option Tower
here_at key [] = none
here_at key (y ∷ post) = if bytes_eq y.key key then some y else none

abbrev pub value_at : Option Tower → Option Bytes
value_at none = none
value_at (some y) = some y.value

find-pre :
    (key : Bytes) (pre post : List Tower)
    → AllLess key pre
    → find key (pairs (pre ++ post)) ≡ find key (pairs post)
unfolding find
find-pre key [] post l = refl
find-pre key (x ∷ pre) post l = rw (key_lt-ne_sym x.key key l.0) (find-pre key pre post l.1)

find-post :
    (key : Bytes) (post : List Tower)
    → Ascending (pairs post)
    → NoneLess key post
    → find key (pairs post) ≡ value_at (here_at key post)
unfolding find
find-post key [] a g = refl
find-post key (y ∷ post) a g = elim (key-cases y.key key) [
  | inl l ↦ absurd (let g' = g.0 in cc)
  | inr (inl e) ↦ rw (e, (bytes_eq_iff key key).1 refl)
  | inr (inr l) ↦ rw (key_lt-ne key y.key l, key_lt-ne_sym key y.key l) (beyond post a.0)
]
  where
    beyond : (xs : List Tower) → Behind y.key (pairs xs) → find key (pairs xs) ≡ none
    beyond [] b = refl
    beyond (x ∷ xs) b = elim (key-cases y.key key) [
      | inl l ↦ absurd (let g' = g.0 in cc)
      | inr (inl e) ↦
          rw (key_lt-ne key x.key (subst (λ k. key_lt k x.key ≡ true) e b.0)) (beyond xs b.1)
      | inr (inr l) ↦ rw (key_lt-ne key x.key (key_lt_trans key y.key x.key l b.0)) (beyond xs b.1)
    ]

pub Ascending-drop :
    (pre post : List Tower) → Ascending (pairs (pre ++ post)) → Ascending (pairs post)
Ascending-drop [] post a = a
Ascending-drop (x ∷ pre) post a = Ascending-drop pre post a.1

pub find-here :
    (key : Bytes) (xs : List Tower) (s : Split key xs)
    → Ascending (pairs xs)
    → find key (pairs xs) ≡ value_at (here_at key s.post)
find-here key xs s a =
    ap (λ l. find key (pairs l)) s.whole
    ∙ find-pre key s.pre s.post s.less
    ∙ find-post key s.post
        (Ascending-drop s.pre s.post (subst (λ l. Ascending (pairs l)) s.whole a)) s.none_less

abbrev pub address : Option Tower → Option ℕ
address none = none
address (some y) = some y.addr

abbrev pub address_found : Option (ℕ × SkipNode) → Option ℕ
address_found none = none
address_found (some (q, n)) = some q

-- What a search has found of a tower.
abbrev pub Found : Bytes → SkipList → Option Tower → List ℕ → Type 0
Found key s here update =
    (found : Option (ℕ × SkipNode)) × (locate key s ≡ some (found, update))
    × (address_found found ≡ address here)
    × (value_found found ≡ value_at here)

match-here :
    (key : Bytes) (h : Heap) (post : List Tower)
    → Rep h post []
    → All AtRest post
    → (found : Option (ℕ × SkipNode)) × (match_node key h (next_at 0 post) ≡ some found)
      × (address_found found ≡ address (here_at key post))
      × (value_found found ≡ value_at (here_at key post))
match-here key h [] r a = (none, refl, refl, refl)
match-here key h (y ∷ post) r a =
    let on = covers-AtRest 0 y a.0 a.0.2 in
    let t = r.0 in
    elim (Bool-cases (bytes_eq y.key key)) [
      | inl e ↦
          let e' : bytes_eq t.node.key key ≡ true = ap (λ k. bytes_eq k key) t.has_key ∙ e in
          (some (y.addr, t.node), rw (on, t.at, e'), rw e, rw e (ap some t.has_value))
      | inr e ↦
          let e' : bytes_eq t.node.key key ≡ false = ap (λ k. bytes_eq k key) t.has_key ∙ e in
          (none, rw (on, t.at, e'), rw e, rw e)
    ]

module _ (s : SkipList) (w : IsList s) (key : Bytes) (sp : Split key w.towers) where
  -- The search finds the first tower that is not before the key.
  pub locate-here :
      Found key s (here_at key sp.post) (tops (suc s.level) (header_tower s.max_level) sp.pre)
  unfolding locate
  locate-here =
      let x = header_tower s.max_level in
      let at_rest =
        subst (λ l. All AtRest (x ∷ l)) sp.whole ((refl, refl, omega arith), w.at_rest) in
      let rep = subst (λ l. Rep s.nodes (x ∷ l) []) sp.whole w.linked in
      let fits = subst (λ l. length l < length s.nodes) sp.whole w.fits in
      let down =
        descend-tops s.nodes key x sp.pre sp.post rep at_rest fits sp.less sp.none_less
          (suc s.level) (x, sp.pre) ([], refl) (below w.level_le) (below w.level_le) in
      let next =
        forward-last_at s.nodes key x sp.pre sp.post rep at_rest fits sp.less sp.none_less 0
          (omega arith) in
      let (found, e, a, v) =
        match-here key s.nodes sp.post (Rep-drop s.nodes (x ∷ sp.pre) sp.post [] rep)
          (All-drop AtRest (x ∷ sp.pre) sp.post at_rest) in
      (found, rw (down, next, e), a, v)
    where
      below : s.level ≤ s.max_level → suc s.level ≤ suc s.max_level
      below le = omega arith

-- `search_element` of a well-formed list ends, follows no wrong pointer, and answers like a `std::map`
-- with the same pairs.
pub search_element-find :
    (key : Bytes) (s : SkipList) (w : IsList s)
    → search_element key s ≡ some (find key (pairs w.towers))
unfolding search_element
search_element-find key s w =
    let sp = split_towers key w.towers w.sorted in
    let (found, e, a, v) = locate-here s w key sp in
    rw e (ap some (v ∙ sym (find-here key w.towers sp w.sorted)))
