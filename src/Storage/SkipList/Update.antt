-- ===== src/Storage/SkipList/Update.antt =====
-- `update`, with the header on the levels that the list does not have yet.
use kv_raft_storage.Common.{
  ℕ, zero, suc, ◌+◌, ◌-◌, ◌≤◌, ◌≡◌, refl, sym, ap, ◌∙◌, false, List, [], ◌∷◌, ◌++◌, All, arith,
  take, replicate,
}
use kv_raft_storage.Storage.SkipList.Towers.{Tower, covers, AtRest}
use kv_raft_storage.Storage.SkipList.Seek.{Place}
use kv_raft_storage.Storage.SkipList.Descent.{tops}
use kv_raft_storage.Storage.SkipList.Last.{last_at}
use kv_raft_storage.Storage.SkipList.Find.{Under}
use kv_raft_storage.Storage.SkipList.Fill.{lasts}

lasts-append :
    (m i n j t : ℕ) (x : Tower) (pre : List Tower)
    → i + m ≡ j
    → m + n ≡ t
    → lasts i m x pre ++ lasts j n x pre ≡ lasts i t x pre
lasts-append zero i n j t x pre e1 e2 =
    let e : j ≡ i = omega arith in
    let e' : n ≡ t = omega arith in
    ap (λ (k : ℕ). lasts k n x pre) e ∙ ap (λ (k : ℕ). lasts i k x pre) e'
lasts-append (suc m) i n j zero x pre e1 e2 = absurd (omega arith)
lasts-append (suc m) i n j (suc t) x pre e1 e2 =
    ap (λ (l : List ℕ). (last_at i (x, pre) pre).0.addr ∷ l)
      (lasts-append m (suc i) n j t x pre (omega arith) (omega arith))

pub tops-lasts : (n : ℕ) (x : Tower) (pre : List Tower) → tops n x pre ≡ lasts 0 n x pre
tops-lasts zero x pre = refl
tops-lasts (suc n) x pre =
    ap (λ (l : List ℕ). l ++ (last_at n (x, pre) pre).0.addr ∷ []) (tops-lasts n x pre)
    ∙ lasts-append n 0 1 n (suc n) x pre (omega arith) (omega arith)

take-lasts :
    (n m i : ℕ) (x : Tower) (pre : List Tower) → n ≤ m → take n (lasts i m x pre) ≡ lasts i n x pre
take-lasts zero m i x pre le = refl
take-lasts (suc n) zero i x pre le = absurd (omega arith)
take-lasts (suc n) (suc m) i x pre le =
    ap (λ (l : List ℕ). (last_at i (x, pre) pre).0.addr ∷ l)
      (take-lasts n m (suc i) x pre (omega arith))

-- Above the towers there is the header only.
last_at-above :
    (i top : ℕ) (b : Place) (pre : List Tower)
    → All AtRest pre
    → Under top pre
    → top ≤ i
    → last_at i b pre ≡ b
unfolding last_at
last_at-above i top b [] a u le = refl
last_at-above i top b (y ∷ pre) a u le = rw off (last_at-above i top b pre a.1 u.1 le)
  where
    off : covers i y ≡ false
    off = let (lo, hi, _) = a.0 in let t = u.0 in ground arith

lasts-above :
    (n i top : ℕ) (x : Tower) (pre : List Tower)
    → All AtRest pre
    → Under top pre
    → top ≤ i
    → lasts i n x pre ≡ replicate n x.addr
lasts-above zero i top x pre a u le = refl
lasts-above (suc n) i top x pre a u le =
    rw (last_at-above i top (x, pre) pre a u le)
      (ap (λ (l : List ℕ). x.addr ∷ l) (lasts-above n (suc i) top x pre a u (omega arith)))

-- What the loop of an insertion reads of `update`.
pub update-lasts :
    (level random : ℕ) (x : Tower) (pre : List Tower)
    → All AtRest pre
    → Under (suc level) pre
    → take (suc random) (tops (suc level) x pre ++ replicate (random - level) x.addr)
      ≡ lasts 0 (suc random) x pre
update-lasts level random x pre a u =
    ap (λ (l : List ℕ). take (suc random) (l ++ replicate (random - level) x.addr))
      (tops-lasts (suc level) x pre)
    ∙ ap (λ (l : List ℕ). take (suc random) (lasts 0 (suc level) x pre ++ l))
        (sym (lasts-above (random - level) (suc level) (suc level) x pre a u (omega arith)))
    ∙ ap (take (suc random)) (
        lasts-append (suc level) 0 (random - level) (suc level) (suc level + (random - level)) x pre
          (omega arith) refl)
    ∙ take-lasts (suc random) (suc level + (random - level)) 0 x pre (omega arith)
