-- ===== src/Agent/HistBptree.antt =====
-- src/agent/hist_bptree.c: the index from sequence numbers to cells of the ring of agent/history.c, as
-- long as its root is a leaf, and the split of that leaf.
-- The arrays `keys` and `vals` of a node are memory of 32-bit words, as the structure has them: words
-- 0 to 5 are the three keys, words 6 to 8 the three values, and word 9 is the padding behind them.
-- A fourth key lies on the first two values. Trees with internal nodes are left out.
pub mod Leaf
mod Tests
use aev_os.Common.{
  ℕ, zero, suc, ◌+◌, ◌-◌, ◌*◌, ◌/◌, ◌%◌, ◌^◌, Bool, true, false, Option, none, some, List, [], ◌∷◌,
  ◌++◌, ltb, leb, ◌==◌, if◌then◌else◌, get_or, set, replicate, take,
}
use aev_os.Common.Errno.{Status, ok, enomem}

abbrev pub bp_max : ℕ
bp_max = 3

-- a leaf: `nkeys`, and the words of `keys` and `vals`
pub record BpLeaf : Type 0 where
  pub nkeys : ℕ
  pub words : List ℕ

abbrev pub key_at : List ℕ → ℕ → ℕ
key_at w i = get_or w (i * 2) 0 + get_or w (i * 2 + 1) 0 * 2 ^ 32

abbrev pub set_key : List ℕ → ℕ → ℕ → List ℕ
set_key w i key = set (set w (i * 2) (key % 2 ^ 32)) (i * 2 + 1) (key / 2 ^ 32)

abbrev pub val_at : List ℕ → ℕ → ℕ
val_at w i = get_or w (6 + i) 0

abbrev pub set_val : List ℕ → ℕ → ℕ → List ℕ
set_val w i val = set w (6 + i) val

-- `node_alloc`
abbrev pub blank_leaf : BpLeaf
blank_leaf = record { nkeys = 0; words = replicate 10 0 }

-- the loop of `leaf_insert_sorted` with the `n` lowest keys left, and the writes behind it
unfoldable pub insert_below : ℕ → ℕ → ℕ → List ℕ → List ℕ
insert_below zero key val w = set_val (set_key w 0 key) 0 val
insert_below (suc i) key val w =
    let w1 = set_key w (i + 1) (key_at w i) in
    let shifted = insert_below i key val (set_val w1 (i + 1) (val_at w1 i)) in
    if ltb key (key_at w i) then shifted else set_val (set_key w (i + 1) key) (i + 1) val

unfoldable pub leaf_insert_sorted : BpLeaf → ℕ → ℕ → BpLeaf
unfolding insert_below
leaf_insert_sorted leaf key val = record {
  nkeys = leaf.nkeys + 1;
  words = insert_below leaf.nkeys key val leaf.words;
}

-- `n` keys and values from index `j` on, copied to index `i` on
unfoldable pub copy_upper : ℕ → ℕ → ℕ → List ℕ → List ℕ → List ℕ
copy_upper zero i j from to = to
copy_upper (suc n) i j from to =
    copy_upper n (i + 1) (j + 1) from (set_val (set_key to i (key_at from j)) i (val_at from j))

-- the left and the right leaf
unfoldable pub split_leaf_node : BpLeaf → BpLeaf × BpLeaf
unfolding copy_upper
split_leaf_node leaf =
    let mid = leaf.nkeys / 2 in
    let n = leaf.nkeys - mid in
    (
      record leaf { nkeys = mid },
      record { nkeys = n; words = copy_upper n 0 mid leaf.words (replicate 10 0) },
    )

-- the index of the key among the `n` keys from `i` on
unfoldable pub key_index : ℕ → ℕ → ℕ → List ℕ → Option ℕ
key_index zero i key w = none
key_index (suc n) i key w =
    let rest = key_index n (i + 1) key w in if key_at w i == key then some i else rest

-- the leaves, in the order of `next`
abbrev pub Leaves : Type 0
Leaves = List BpLeaf

-- the end of `hist_bpt_insert` into the leaf, with the index of the key in it
unfoldable pub insert_at : BpLeaf → ℕ → ℕ → Bool → Option ℕ → Status × Leaves
insert_at leaf seq ring_idx memory (some i) =
    (ok, record leaf { words = set_val leaf.words i ring_idx } ∷ [])
insert_at leaf seq ring_idx memory none =
    let leaf' = leaf_insert_sorted leaf seq ring_idx in
    let (left, right) = split_leaf_node leaf' in
    if ltb leaf.nkeys bp_max
    then (ok, leaf' ∷ [])
    else if memory
    then (ok, left ∷ right ∷ [])
    else (enomem, leaf' ∷ [])

-- `hist_bpt_insert` into a tree whose root is the leaf
unfoldable pub insert_into_leaf : BpLeaf → ℕ → ℕ → Bool → Status × Leaves
unfolding insert_at key_index leaf_insert_sorted split_leaf_node
insert_into_leaf leaf seq ring_idx memory =
    insert_at leaf seq ring_idx memory (key_index leaf.nkeys 0 seq leaf.words)

-- the cells of the `n` keys from `i` on that are at least `min_seq`
unfoldable pub cells_from : ℕ → ℕ → ℕ → List ℕ → List ℕ
cells_from zero i min_seq w = []
cells_from (suc n) i min_seq w =
    let rest = cells_from n (i + 1) min_seq w in
    if leb min_seq (key_at w i) then val_at w i ∷ rest else rest

unfoldable pub cells_of : Leaves → ℕ → List ℕ
unfolding cells_from
cells_of [] min_seq = []
cells_of (l ∷ ls) min_seq = cells_from l.nkeys 0 min_seq l.words ++ cells_of ls min_seq

-- `hist_bpt_range_from_seq` along the leaves
abbrev pub range_from_seq : Leaves → ℕ → ℕ → List ℕ
range_from_seq ls min_seq max_out = take max_out (cells_of ls min_seq)
