-- ===== src/Agent/HistBptree/Leaf.antt =====
-- Inserting ascending keys into a leaf: three fit, the fourth destroys two values.
use aev_os.Common.{
  ℕ, ◌+◌, ◌*◌, ◌/◌, ◌%◌, ◌^◌, ◌≡◌, refl, [], ◌∷◌, ltb, if◌then◌else◌, arith, Bool-cases, inl, inr,
}
use aev_os.Agent.HistBptree.{BpLeaf, insert_below, leaf_insert_sorted}

-- a leaf of three keys, as words
abbrev pub full_leaf : ℕ → ℕ → ℕ → ℕ → ℕ → ℕ → ℕ → BpLeaf
full_leaf a b c u v w pad = record {
  nkeys = 3;
  words =
      a % 2 ^ 32
      ∷ a / 2 ^ 32
      ∷ b % 2 ^ 32
      ∷ b / 2 ^ 32
      ∷ c % 2 ^ 32
      ∷ c / 2 ^ 32
      ∷ u
      ∷ v
      ∷ w
      ∷ pad
      ∷ [];
}

whole : (k : ℕ) → k % 2 ^ 32 + k / 2 ^ 32 * 2 ^ 32 ≡ k
whole k = omega arith

-- a leaf of two keys
abbrev pub two_leaf : ℕ → ℕ → ℕ → ℕ → ℕ → ℕ → ℕ → BpLeaf
two_leaf a b c u v w pad = record (full_leaf a b c u v w pad) { nkeys = 2 }

-- leaf_insert_sorted into a leaf of two keys puts the new key behind the second, unless that is
-- above it, else behind the first, unless that is above it, else in front; each key keeps its
-- value.
pub leaf_insert_sorted-two_leaf :
    (a b c u v w pad seq ring_idx : ℕ)
    → leaf_insert_sorted (two_leaf a b c u v w pad) seq ring_idx ≡ (
        if ltb seq b
        then if ltb seq a
          then full_leaf seq a b ring_idx u v pad
          else full_leaf a seq b u ring_idx v pad
        else full_leaf a b seq u v ring_idx pad)
unfolding leaf_insert_sorted insert_below
leaf_insert_sorted-two_leaf a b c u v w pad seq ring_idx = elim (Bool-cases (ltb seq b)) [
  | inr ge ↦ rw (whole b, ge) refl
  | inl lt ↦ elim (Bool-cases (ltb seq a)) [
    | inr ge ↦ rw (whole b, whole a, lt, ge) refl
    | inl le ↦ rw (whole b, whole a, lt, le) refl
  ]
]
