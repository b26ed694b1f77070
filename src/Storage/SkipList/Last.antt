-- ===== src/Storage/SkipList/Last.antt =====
-- The last tower of a level before a key, which the inner loop of the search finds.
use kv_raft_storage.Common.{
  ℕ, ◌≡◌, refl, sym, ap, ◌∙◌, subst, inl, inr, true, false, List, [], ◌∷◌, ◌++◌, if◌then◌else◌, All,
  All-append, Bytes, Bool-cases, append_assoc, append-nil,
}
use kv_raft_storage.Storage.KeyOrder.{key_lt}
use kv_raft_storage.Storage.SkipList.{Heap}
use kv_raft_storage.Storage.SkipList.Towers.{Tower, covers, Rep}
use kv_raft_storage.Storage.SkipList.Seek.{Place, seek}

-- The last tower of the level among those of `b` and `pre`.
unfoldable pub last_at : ℕ → Place → List Tower → Place
last_at i b [] = b
last_at i b (y ∷ pre) =
    let here = last_at i (y, pre) pre in
    let past = last_at i b pre in if covers i y then here else past

-- The key is behind all of `pre`, and before or at all of `post`.
abbrev pub AllLess : Bytes → List Tower → Type 0
AllLess key xs = All (λ (x : Tower). key_lt x.key key ≡ true) xs

abbrev pub NoneLess : Bytes → List Tower → Type 0
NoneLess key xs = All (λ (x : Tower). key_lt x.key key ≡ false) xs

abbrev pub onto : List Tower → Place → Place
onto post b = (b.0, b.1 ++ post)

seek-stops :
    (i : ℕ) (key : Bytes) (b : Place) (post : List Tower)
    → NoneLess key post
    → seek i key b post ≡ b
unfolding seek
seek-stops i key b [] g = refl
seek-stops i key b (y ∷ post) g = elim (Bool-cases (covers i y)) [
  | inl on ↦ rw (on, g.0)
  | inr off ↦ rw off (seek-stops i key b post g.1)
]

pub seek-last_at :
    (i : ℕ) (key : Bytes) (b : Place) (pre post : List Tower)
    → AllLess key pre
    → NoneLess key post
    → seek i key (onto post b) (pre ++ post) ≡ onto post (last_at i b pre)
unfolding seek last_at
seek-last_at i key b [] post l g = seek-stops i key (onto post b) post g
seek-last_at i key b (y ∷ pre) post l g = elim (Bool-cases (covers i y)) [
  | inl on ↦ rw (on, l.0) (seek-last_at i key (y, pre) pre post l.1 g)
  | inr off ↦ rw off (seek-last_at i key b pre post l.1 g)
]

-- It is found from any tower of the level before it.
pub last_at-from :
    (i : ℕ) (c : Place) (qs : List Tower) (x : Tower) (px : List Tower)
    → covers i x ≡ true
    → last_at i c (qs ++ x ∷ px) ≡ last_at i (x, px) px
unfolding last_at
last_at-from i c [] x px on = rw on
last_at-from i c (y ∷ qs) x px on = elim (Bool-cases (covers i y)) [
  | inl c' ↦ rw c' (last_at-from i (y, qs ++ x ∷ px) qs x px on)
  | inr c' ↦ rw c' (last_at-from i c qs x px on)
]

-- The place is one of `whole`.
abbrev pub IsIn : List Tower → Place → Type 0
IsIn whole b = (qs : List Tower) × (whole ≡ qs ++ b.0 ∷ b.1)

pub last_at-IsIn :
    (i : ℕ) (whole : List Tower) (b : Place) (mid pre : List Tower)
    → IsIn whole b
    → covers i b.0 ≡ true
    → b.1 ≡ mid ++ pre
    → IsIn whole (last_at i b pre) × (covers i (last_at i b pre).0 ≡ true)
unfolding last_at
last_at-IsIn i whole b mid [] at on split = (at, on)
last_at-IsIn i whole b mid (y ∷ pre) (qs, e) on split = elim (Bool-cases (covers i y)) [
  | inl c ↦
      let e' : whole ≡ (qs ++ b.0 ∷ mid) ++ y ∷ pre =
        e ∙ ap (λ l. qs ++ b.0 ∷ l) split ∙ sym (append_assoc qs (b.0 ∷ mid) (y ∷ pre)) in
      rw c (last_at-IsIn i whole (y, pre) [] pre (qs ++ b.0 ∷ mid, e') c refl)
  | inr c ↦
      let split' : b.1 ≡ (mid ++ y ∷ []) ++ pre = split ∙ sym (append_assoc mid (y ∷ []) pre) in
      rw c (last_at-IsIn i whole b (mid ++ y ∷ []) pre (qs, e) on split')
]

-- Behind it there is none of the level.
pub last_at-last :
    (i : ℕ) (b : Place) (mid pre : List Tower)
    → b.1 ≡ mid ++ pre
    → All (λ (x : Tower). covers i x ≡ false) mid
    → All (λ (x : Tower). covers i x ≡ false) (last_at i b pre).1
unfolding last_at
last_at-last i b mid [] split a =
    subst (All (λ (x : Tower). covers i x ≡ false)) (sym (split ∙ append-nil mid)) a
last_at-last i b mid (y ∷ pre) split a = elim (Bool-cases (covers i y)) [
  | inl c ↦ rw c (last_at-last i (y, pre) [] pre refl tt)
  | inr c ↦
      let split' : b.1 ≡ (mid ++ y ∷ []) ++ pre = split ∙ sym (append_assoc mid (y ∷ []) pre) in
      rw c (
        last_at-last i b (mid ++ y ∷ []) pre split'
          (All-append (λ (x : Tower). covers i x ≡ false) mid (y ∷ []) a (c, tt)))
]

pub Rep-drop : (h : Heap) (qs xs tail : List Tower) → Rep h (qs ++ xs) tail → Rep h xs tail
Rep-drop h [] xs tail r = r
Rep-drop h (q ∷ qs) xs tail r = Rep-drop h qs xs tail r.1

pub All-drop : (P : Tower → Type 0) (qs xs : List Tower) → All P (qs ++ xs) → All P xs
All-drop P [] xs a = a
All-drop P (q ∷ qs) xs a = All-drop P qs xs a.1

-- It is the same from the header as from a place of the level.
pub from_head :
    (i : ℕ) (x : Tower) (pre : List Tower) (b : Place)
    → IsIn (x ∷ pre) b
    → covers i b.0 ≡ true
    → covers i x ≡ true
    → last_at i (x, pre) pre ≡ last_at i b b.1
from_head i x pre b (qs, e) on head_on =
    sym (last_at-from i (x, pre) [] x pre head_on)
    ∙ ap (last_at i (x, pre)) e
    ∙ last_at-from i (x, pre) qs b.0 b.1 on

behind : List Tower → List Tower
behind [] = []
behind (x ∷ xs) = xs

pub tail_eq : {x y : Tower} {xs ys : List Tower} → x ∷ xs ≡ y ∷ ys → xs ≡ ys
unfolding behind
tail_eq e = ap behind e
