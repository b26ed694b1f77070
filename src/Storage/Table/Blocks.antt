-- ===== src/Storage/Table/Blocks.antt =====
-- `FindInIndexedBlock` over the blocks that `RebuildSSTableMetadata` builds.
use kv_raft_storage.Common.{
  ℕ, zero, suc, ◌≤◌, ◌≡◌, refl, sym, ap, subst, ◌∙◌, inl, inr, true, false, ◌||◌, [], ◌∷◌, ◌++◌,
  Option, none, if◌then◌else◌, length, Bytes, bytes_eq_iff, arith, Bool-cases,
}
use kv_raft_storage.Storage.KeyOrder.{
  key_lt, key_lt_irrefl, key_lt_asym, key-cases, key_lt-ne, key_lt-ne_sym, key_lt-le, key_le-lt,
}
use kv_raft_storage.Storage.SortedMap.{
  SortedMap, find, Behind, Ascending, Behind-find, Behind-trans, find-append_none, find-append_past,
  Behind-append_left, Behind-append_right,
}
use kv_raft_storage.Storage.Codec.{Entry}
use kv_raft_storage.Storage.Table.{find_in_block, find_in_blocks, scan_block, build_blocks}

find_in_block-eq :
    (key : Bytes) (items : SortedMap Entry)
    → Ascending items
    → find_in_block key items ≡ find key items
unfolding find_in_block find
find_in_block-eq key [] a = refl
find_in_block-eq key (x ∷ items) a = elim (key-cases key x.0) [
  | inl before ↦ rw (
    key_lt-ne_sym key x.0 before,
    key_lt-ne key x.0 before,
    before,
    Behind-find key items (Behind-trans key x.0 items before a.0),
  )
  | inr (inl here) ↦ rw (here, (bytes_eq_iff x.0 x.0).1 refl)
  | inr (inr past) ↦ rw (
    key_lt-ne x.0 key past,
    key_lt-ne_sym x.0 key past,
    key_lt_asym x.0 key past,
    find_in_block-eq key items a.1,
  )
]

-- What a scan of one block has taken.
record Scanned (last : Bytes) (items : SortedMap Entry)
    (out : Bytes × SortedMap Entry × SortedMap Entry) : Type 0 where
  whole : out.1 ++ out.2 ≡ items
  block : Ascending out.1
  rest : Ascending out.2
  behind : Behind out.0 out.2
  not_before : key_lt out.0 last ≡ false
  past : (key : Bytes) → key_lt out.0 key ≡ true → find key out.1 ≡ none

scan_block-Scanned :
    (n : ℕ) (last : Bytes) (items : SortedMap Entry)
    → Behind last items
    → Ascending items
    → Scanned last items (scan_block n last items)
unfolding scan_block find
scan_block-Scanned zero last items b a = record {
  whole = refl;
  block = tt;
  rest = a;
  behind = b;
  not_before = key_lt_irrefl last;
  past = λ key p. refl;
}
scan_block-Scanned (suc n) last [] b a = record {
  whole = refl;
  block = tt;
  rest = tt;
  behind = tt;
  not_before = key_lt_irrefl last;
  past = λ key p. refl;
}
scan_block-Scanned (suc n) last (x ∷ items) b a =
    let s = scan_block-Scanned n x.0 items a.0 a.1 in
    let scanned = scan_block n x.0 items in
    record {
      whole = ap (λ l. x ∷ l) s.whole;
      block = (
        Behind-append_left x.0 scanned.1 scanned.2 (subst (λ l. Behind x.0 l) (sym s.whole) a.0),
        s.block,
      );
      rest = s.rest;
      behind = s.behind;
      not_before = key_lt-le last x.0 scanned.0 b.0 s.not_before;
      past = λ key p.
          rw (key_lt-ne_sym x.0 key (key_le-lt x.0 scanned.0 key s.not_before p)) (s.past key p);
    }

scan_block-shorter :
    (n : ℕ) (last : Bytes) (items : SortedMap Entry)
    → length (scan_block n last items).2 ≤ length items
unfolding scan_block
scan_block-shorter zero last items = omega arith
scan_block-shorter (suc n) last [] = omega arith
scan_block-shorter (suc n) last (x ∷ items) = omega (arith, scan_block-shorter n x.0 items)

block-Ascending :
    (x : Bytes × Entry) (items : SortedMap Entry) (c : Bytes × SortedMap Entry × SortedMap Entry)
    → Scanned x.0 items c
    → Ascending (x ∷ items)
    → Ascending (x ∷ c.1)
block-Ascending x items c s a =
    (Behind-append_left x.0 c.1 c.2 (subst (λ l. Behind x.0 l) (sym s.whole) a.0), s.block)

-- Behind the last key of a block.
behind_block :
    (key : Bytes) (x : Bytes × Entry) (items : SortedMap Entry)
    (c : Bytes × SortedMap Entry × SortedMap Entry)
    → Scanned x.0 items c
    → key_lt c.0 key ≡ false
    → find key c.2 ≡ none
behind_block key x items c s h = elim (key-cases key c.0) [
  | inl p ↦ Behind-find key c.2 (Behind-trans key c.0 c.2 p s.behind)
  | inr (inl p) ↦ rw p (Behind-find c.0 c.2 s.behind)
  | inr (inr p) ↦ cc
]

past_block :
    (key : Bytes) (x : Bytes × Entry) (items : SortedMap Entry)
    (c : Bytes × SortedMap Entry × SortedMap Entry)
    → Scanned x.0 items c
    → key_lt c.0 key ≡ true
    → find key (x ∷ c.1) ≡ none
unfolding find
past_block key x items c s h =
    rw (key_lt-ne_sym x.0 key (key_le-lt x.0 c.0 key s.not_before h)) (s.past key h)

-- One round of the search.
one_block :
    (key : Bytes) (x : Bytes × Entry) (items : SortedMap Entry)
    (c : Bytes × SortedMap Entry × SortedMap Entry)
    → Scanned x.0 items c
    → Ascending (x ∷ items)
    → {found : Option Entry} → found ≡ find key c.2
    → (if key_lt key x.0 || key_lt c.0 key then found else find_in_block key (x ∷ c.1))
      ≡ find key (x ∷ items)
one_block key x items c s a ih =
    let whole = ap (λ l. x ∷ l) s.whole in
    elim (Bool-cases (key_lt key x.0)) [
      | inl before ↦
          let all : Behind key (x ∷ items) = (before, Behind-trans key x.0 items before a.0) in
          let none_behind =
            Behind-append_right key c.1 c.2 (subst (λ l. Behind key l) (sym s.whole) all.1) in
          rw (before, Behind-find key (x ∷ items) all) (ih ∙ Behind-find key c.2 none_behind)
      | inr nb ↦ elim (Bool-cases (key_lt c.0 key)) [
        | inl past ↦
            rw (nb, past)
              (ih
                ∙ sym (find-append_none key (x ∷ c.1) c.2 (past_block key x items c s past))
                ∙ ap (λ l. find key l) whole)
        | inr inside ↦
            rw (nb, inside)
              (find_in_block-eq key (x ∷ c.1) (block-Ascending x items c s a)
                ∙ sym (find-append_past key (x ∷ c.1) c.2 (behind_block key x items c s inside))
                ∙ ap (λ l. find key l) whole)
      ]
    ]

-- Searching the blocks that are built from ascending entries finds what the entries hold.
pub find_in_blocks-eq :
    (n : ℕ) (key : Bytes) (items : SortedMap Entry)
    → Ascending items
    → length items ≤ n
    → find_in_blocks key (build_blocks n items) ≡ find key items
unfolding find_in_blocks build_blocks scan_block find
find_in_blocks-eq zero key [] a h = refl
find_in_blocks-eq zero key (x ∷ items) a h = absurd (omega arith)
find_in_blocks-eq (suc n) key [] a h = refl
find_in_blocks-eq (suc n) key (x ∷ items) a h =
    let s = scan_block-Scanned 15 x.0 items a.0 a.1 in
    one_block key x items (scan_block 15 x.0 items) s a (
      find_in_blocks-eq n key (scan_block 15 x.0 items).2 s.rest
        (omega (arith, scan_block-shorter 15 x.0 items)))
