-- ===== src/Storage/SkipList/Grow.antt =====
-- A list with a new tower: the invariant, and the map that it shows.
use kv_raft_storage.Common.{
  ℕ, suc, ◌+◌, ◌-◌, ◌≤◌, ◌≡◌, refl, sym, ap, ◌∙◌, subst, List, [], ◌∷◌, ◌++◌, none, some, length,
  All, All-append, arith, append-nil, take, replicate, max, Bytes, length-append, length-replicate,
}
use kv_raft_storage.Storage.SortedMap.{insert, insert-Ascending, Ascending}
use kv_raft_storage.Storage.SkipList.{
  SkipList, Heap, node_at, create_node, link, insert_new, get_random_level,
}
use kv_raft_storage.Storage.SkipList.Towers.{Tower, AtRest, IsTower, Rep, Rep-behind, Distinct}
use kv_raft_storage.Storage.SkipList.Descent.{tops}
use kv_raft_storage.Storage.SkipList.Last.{All-drop}
use kv_raft_storage.Storage.SkipList.Find.{header_tower, pairs, Under, IsList, Split, here_at}
use kv_raft_storage.Storage.SkipList.Relink.{Rep-append, Rep-join}
use kv_raft_storage.Storage.SkipList.Fill.{upto, IsFilled, filled-IsTower, All-front}
use kv_raft_storage.Storage.SkipList.Insert.{Filling, link-fills}
use kv_raft_storage.Storage.SkipList.Update.{update-lasts}
use kv_raft_storage.Storage.SkipList.Extend.{
  node_at-new, append-Rep, Rep-Elsewhere, Distinct-insert, pairs-insert,
}

pub Under-weaken : (top top' : ℕ) (xs : List Tower) → top ≤ top' → Under top xs → Under top' xs
Under-weaken top top' [] le u = tt
Under-weaken top top' (x ∷ xs) le u =
    ((let a = u.0 in omega arith), Under-weaken top top' xs le u.1)

pub get_random_level-le : (odds max_level : ℕ) → get_random_level odds max_level ≤ max_level
unfolding get_random_level
get_random_level-le odds max_level = ground arith

-- The tower of the node that an insertion makes.
abbrev pub new_tower : ℕ → Bytes → Bytes → ℕ → Tower
new_tower a key value random = record {
  addr = a;
  key = key;
  value = value;
  slots = suc random;
  lo = 0;
  hi = suc random;
}

blank_links :
    (random : ℕ) (h : Heap) (a : ℕ) (key value : Bytes) (rest : List Tower)
    → node_at a h ≡ some (create_node key value random)
    → IsFilled h (new_tower a key value random) 0 rest
blank_links random h a key value rest e = record {
  node = create_node key value random;
  at = e;
  has_key = refl;
  has_value = refl;
  sized = length-replicate (random + 1) none ∙ (omega arith);
  links = λ i lt. absurd (omega arith);
}

module _ (s : SkipList) (w : IsList s) (key value : Bytes) (sp : Split key w.towers) (random : ℕ)
    (small : random ≤ s.max_level) where
  -- The loop over the levels of the new node, from the heap that has it.
  new-linked :
      (out : Heap) × (link
          (length s.nodes)
          0
          (take (suc random) (
            tops (suc s.level) (header_tower s.max_level) sp.pre ++ replicate (random - s.level) 0))
          (s.nodes ++ some (create_node key value random) ∷ [])
        ≡ some out)
      × Filling out
          (suc random)
          (header_tower s.max_level)
          sp.pre
          (new_tower (length s.nodes) key value random)
          sp.post
      × (length out ≡ suc (length s.nodes))
  new-linked =
      let x = header_tower s.max_level in
      let a = length s.nodes in
      let m = new_tower a key value random in
      let h : Heap = s.nodes ++ some (create_node key value random) ∷ [] in
      let rep = subst (λ l. Rep s.nodes (x ∷ l) []) sp.whole w.linked in
      let (rep_pre, rep_post) = Rep-append s.nodes (x ∷ sp.pre) sp.post [] rep in
      let at_rest = subst (All AtRest) sp.whole w.at_rest in
      let pre_rest = All-front AtRest sp.pre sp.post at_rest in
      let under =
        All-front (λ (y : Tower). y.slots ≤ suc s.level) sp.pre sp.post
          (subst (Under (suc s.level)) sp.whole w.under) in
      let filling : Filling h 0 x sp.pre m sp.post = (
        Rep-behind h (x ∷ sp.pre) sp.post (upto 0 m ∷ sp.post) (λ i. ground arith)
            (append-Rep s.nodes (some (create_node key value random)) (x ∷ sp.pre) sp.post
              (subst (λ l. Rep s.nodes (x ∷ sp.pre) l) (append-nil sp.post) rep_pre)),
        blank_links random h a key value sp.post
            (node_at-new s.nodes (create_node key value random)),
        append-Rep s.nodes (some (create_node key value random)) sp.post [] rep_post,
      ) in
      let (out, e, f, long) =
        link-fills x sp.pre sp.post m ((refl, refl, omega arith), pre_rest)
          (subst (λ l. Distinct (x ∷ l)) sp.whole w.distinct)
          (Rep-Elsewhere s.nodes (x ∷ sp.pre ++ sp.post) [] rep) (suc random) 0 h filling
          (omega arith) (omega arith) in
      (
        out,
        ap (λ (u : List ℕ). link a 0 u h) (update-lasts s.level random x sp.pre pre_rest under) ∙ e,
        f,
        long ∙ length-append s.nodes (some (create_node key value random) ∷ []) ∙ (omega arith),
      )

  -- With the new node linked in, the list is well-formed and has one more pair.
  pub insert_new-IsList :
      (odds : ℕ)
      → get_random_level odds s.max_level ≡ random
      → here_at key sp.post ≡ none
      → (out : SkipList) × (insert_new odds key value
            (tops (suc s.level) (header_tower s.max_level) sp.pre)
            s
          ≡ some out)
        × (w' : IsList out) × (pairs w'.towers ≡ insert key value (pairs w.towers))
  unfolding insert_new
  insert_new-IsList odds draw none_here =
      let x = header_tower s.max_level in
      let m = new_tower (length s.nodes) key value random in
      let (h, e, f, long) = new-linked in
      let (rep_pre, filled, rep_post) = f in
      let whole = sp.whole in
      let at_rest = subst (All AtRest) whole w.at_rest in
      let under = subst (Under (suc s.level)) whole w.under in
      let wide =
        Under-weaken (suc s.level) (suc (max s.level random)) (sp.pre ++ sp.post) (omega arith)
          under in
      let P = λ (y : Tower). y.slots ≤ suc (max s.level random) in
      let rep = subst (λ l. Rep s.nodes (x ∷ l) []) whole w.linked in
      let shown =
        pairs-insert sp.pre sp.post m sp.less sp.none_less none_here
        ∙ ap (λ (l : List Tower). insert key value (pairs l)) (sym whole) in
      let sizes = length-append sp.pre sp.post in
      let sizes' = length-append sp.pre (m ∷ sp.post) in
      let size = ap length whole in
      let fits = w.fits in
      let counted = w.counted in
      let level_le = w.level_le in
      (
        record s { level = max s.level random; count = s.count + 1; nodes = h },
        rw (draw, e),
        record {
          towers = sp.pre ++ m ∷ sp.post;
          level_le = omega arith;
          linked =
              Rep-join h (x ∷ sp.pre) (m ∷ sp.post) []
                (subst (Rep h (x ∷ sp.pre)) (sym (append-nil (m ∷ sp.post))) rep_pre)
                (
                  subst (IsTower h m) (sym (append-nil sp.post))
                      (filled-IsTower h m sp.post filled),
                  rep_post,
                );
          at_rest =
              All-append AtRest sp.pre (m ∷ sp.post) (All-front AtRest sp.pre sp.post at_rest)
                ((refl, refl, omega arith), All-drop AtRest sp.pre sp.post at_rest);
          under =
              All-append P sp.pre (m ∷ sp.post) (All-front P sp.pre sp.post wide)
                (omega arith, All-drop P sp.pre sp.post wide);
          distinct =
              Distinct-insert (x ∷ sp.pre) m sp.post
                (subst (λ l. Distinct (x ∷ l)) whole w.distinct)
                (Rep-Elsewhere s.nodes (x ∷ sp.pre ++ sp.post) [] rep);
          sorted =
              subst Ascending (sym shown) (insert-Ascending key value (pairs w.towers) w.sorted);
          fits = omega arith;
          counted = omega arith;
        },
        shown,
      )
