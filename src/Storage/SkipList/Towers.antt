-- ===== src/Storage/SkipList/Towers.antt =====
-- The nodes of a skip list in the order of level 0, and the pointers that this order asks for.
use kv_raft_storage.Common.{
  ℕ, ◌≤◌, ◌<◌, ◌≡◌, ◌≢◌, ◌⊎◌, refl, sym, ap, ◌∙◌, inl, inr, Bool, true, false, ◌&&◌, List, [], ◌∷◌,
  ◌++◌, Option, none, some, ltb, leb, if◌then◌else◌, length, get_elem?, set, All, Bytes, Bool-cases,
  Option-cases, ◌>>=◌, get_elem?-set_self, get_elem?-set_ne, get_elem?-lt,
}
use kv_raft_storage.Storage.SkipList.{SkipNode, Heap, node_at, forward_at}

-- A node with `slots` pointers. On level `i` it is linked in if `lo ≤ i < hi`: a node of a list at rest
-- on all its levels, one that is put in or taken out on some.
pub record Tower : Type 0 where
  pub addr : ℕ
  pub key : Bytes
  pub value : Bytes
  pub slots : ℕ
  pub lo : ℕ
  pub hi : ℕ

abbrev pub covers : ℕ → Tower → Bool
covers i x = leb x.lo i && ltb i x.hi

-- The first tower that is linked in on the level.
abbrev pub next_at : ℕ → List Tower → Option ℕ
next_at i [] = none
next_at i (x ∷ xs) = if covers i x then some x.addr else next_at i xs

-- Linked in on all its levels, one at least.
abbrev pub AtRest : Tower → Type 0
AtRest x = (x.lo ≡ 0) × (x.hi ≡ x.slots) × (1 ≤ x.slots)

-- The node of a tower that has `rest` behind it.
pub record IsTower (h : Heap) (x : Tower) (rest : List Tower) : Type 0 where
  pub node : SkipNode
  pub at : node_at x.addr h ≡ some node
  pub has_key : node.key ≡ x.key
  pub has_value : node.value ≡ x.value
  pub sized : length node.forward ≡ x.slots
  pub links : (i : ℕ) → i < x.slots → get_elem? node.forward i ≡ some (next_at i rest)

-- All of `xs`, which `tail` is behind.
abbrev pub Rep : Heap → List Tower → List Tower → Type 0
Rep h [] tail = Unit {0}
Rep h (x ∷ xs) tail = IsTower h x (xs ++ tail) × Rep h xs tail

abbrev pub Elsewhere : ℕ → List Tower → Type 0
Elsewhere a xs = All (λ (x : Tower). x.addr ≢ a) xs

abbrev pub Distinct : List Tower → Type 0
Distinct [] = Unit {0}
Distinct (x ∷ xs) = Elsewhere x.addr xs × Distinct xs

pub forward-IsTower :
    {h : Heap} (x : Tower) {rest : List Tower}
    → IsTower h x rest
    → (i : ℕ) → i < x.slots
    → forward_at x.addr i h ≡ some (next_at i rest)
unfolding forward_at
forward-IsTower x t i lt = rw t.at (t.links i lt)

-- A change of the heap at another address.
pub node_at-set_ne :
    (p q : ℕ) (v : Option SkipNode) (h : Heap) → p ≢ q → node_at q (set h p v) ≡ node_at q h
unfolding node_at
node_at-set_ne p q v h ne =
    ap (λ (o : Option (Option SkipNode)). o >>= λ x. x) (get_elem?-set_ne h p q v ne)

pub node_at-lt : (p : ℕ) (h : Heap) {n : SkipNode} → node_at p h ≡ some n → p < length h
unfolding node_at
node_at-lt p h {n} e = elim (get_elem?-cases p) [
  | inl gone ↦ absurd (let e' = rw gone at e in cc)
  | inr (o, there) ↦ get_elem?-lt h p there
]
  where
    get_elem?-cases :
        (i : ℕ) → (get_elem? h i ≡ none) ⊎ ((o : Option SkipNode) × (get_elem? h i ≡ some o))
    get_elem?-cases i = Option-cases (get_elem? h i)

pub node_at-set_self :
    (p : ℕ) (v : Option SkipNode) (h : Heap) → p < length h → node_at p (set h p v) ≡ v
unfolding node_at
node_at-set_self p v h lt = rw (get_elem?-set_self h p v lt)

pub set-IsTower :
    (p : ℕ) (v : Option SkipNode) (h : Heap) (x : Tower) (rest : List Tower)
    → x.addr ≢ p
    → IsTower h x rest
    → IsTower (set h p v) x rest
set-IsTower p v h x rest ne t = record {
  node = t.node;
  at = node_at-set_ne p x.addr v h (λ e. ne (sym e)) ∙ t.at;
  has_key = t.has_key;
  has_value = t.has_value;
  sized = t.sized;
  links = t.links;
}

pub set-Rep :
    (p : ℕ) (v : Option SkipNode) (h : Heap) (xs tail : List Tower)
    → Elsewhere p xs
    → Rep h xs tail
    → Rep (set h p v) xs tail
set-Rep p v h [] tail d r = tt
set-Rep p v h (x ∷ xs) tail d r =
    (set-IsTower p v h x (xs ++ tail) d.0 r.0, set-Rep p v h xs tail d.1 r.1)

-- What stands behind a tower can be exchanged if it offers the same pointers.
pub IsTower-behind :
    {h : Heap} (x : Tower) {rest rest' : List Tower}
    → ((i : ℕ) → i < x.slots → next_at i rest ≡ next_at i rest')
    → IsTower h x rest
    → IsTower h x rest'
IsTower-behind x same t = record {
  node = t.node;
  at = t.at;
  has_key = t.has_key;
  has_value = t.has_value;
  sized = t.sized;
  links = λ i lt. t.links i lt ∙ ap some (same i lt);
}

pub next_at-append :
    (i : ℕ) (xs s s' : List Tower)
    → next_at i s ≡ next_at i s'
    → next_at i (xs ++ s) ≡ next_at i (xs ++ s')
next_at-append i [] s s' same = same
next_at-append i (x ∷ xs) s s' same = elim (Bool-cases (covers i x)) [
  | inl on ↦ rw on
  | inr off ↦ rw off (next_at-append i xs s s' same)
]

-- Behind a tower of the level it does not matter what follows.
pub next_at-stops :
    (i : ℕ) (xs : List Tower) (x : Tower) (s s' : List Tower)
    → covers i x ≡ true
    → next_at i (xs ++ x ∷ s) ≡ next_at i (xs ++ x ∷ s')
next_at-stops i [] x s s' on = rw on
next_at-stops i (y ∷ xs) x s s' on = elim (Bool-cases (covers i y)) [
  | inl c ↦ rw c
  | inr c ↦ rw c (next_at-stops i xs x s s' on)
]

pub next_at-none :
    (i : ℕ) (xs s : List Tower)
    → All (λ (x : Tower). covers i x ≡ false) xs
    → next_at i (xs ++ s) ≡ next_at i s
next_at-none i [] s a = refl
next_at-none i (x ∷ xs) s a = rw a.0 (next_at-none i xs s a.1)

pub Rep-behind :
    (h : Heap) (xs tail tail' : List Tower)
    → ((i : ℕ) → next_at i tail ≡ next_at i tail')
    → Rep h xs tail
    → Rep h xs tail'
Rep-behind h [] tail tail' same r = tt
Rep-behind h (x ∷ xs) tail tail' same r = (
  IsTower-behind x (λ i lt. next_at-append i xs tail tail' (same i)) r.0,
  Rep-behind h xs tail tail' same r.1,
)
