-- ===== src/Kernel/Vmm/Tree.antt =====
-- Page tables as a tree, and the walk that creates nothing.
use aev_os.Common.{
  ℕ, zero, suc, ◌<◌, ◌≡◌, inl, inr, true, false, Option, none, some, arith, Bool-cases,
}
use aev_os.Kernel.Pmm.{bm_test}
use aev_os.Kernel.Pmm.Inv.{IsValid}
use aev_os.Kernel.Vmm.{Vm, is_present, is_huge, page_of, index, walk_from, phys_at}

-- Of each page, the level of the table that it holds, from 4 for a root to 1, or 0; and the entry that
-- points to it.
pub record Layout : Type 0 where
  pub kind : ℕ → ℕ
  pub owner : ℕ → ℕ × ℕ

-- An entry of a table leads to the table below that it owns, unless it is of a huge page or not
-- present; and the allocator has the tables' pages in use.
pub record IsTree (s : Vm) (l : Layout) : Type 0 where
  pub down :
      (p i n : ℕ)
      → l.kind p ≡ suc (suc n)
      → is_huge (s.mem p i) ≡ false
      → is_present (s.mem p i) ≡ true
      → (l.kind (page_of (s.mem p i)) ≡ suc n) × (l.owner (page_of (s.mem p i)) ≡ (p, i))
  pub in_use : (p : ℕ) → 0 < l.kind p → bm_test s.pmm.bitmap p ≡ true
  pub pages : IsValid s.pmm

-- No entry on the way is of a huge page.
abbrev pub IsSmall : ℕ → Vm → ℕ → ℕ → Type 0
IsSmall zero s p v = Unit
IsSmall (suc n) s p v =
    (is_huge (s.mem p (index v (suc n))) ≡ false)
    × (is_present (s.mem p (index v (suc n))) ≡ true
        → IsSmall n s (page_of (s.mem p (index v (suc n)))) v)

-- the final entry
abbrev pub final : ℕ → Vm → ℕ → ℕ → Option (ℕ × ℕ)
final n s p v = (walk_from n s p v false).0

-- what the tables give for an address
abbrev pub get : ℕ → Vm → ℕ → ℕ → ℕ
get n s p v = phys_at s (final n s p v) v

pub final_huge :
    (n : ℕ) (s : Vm) (p v : ℕ)
    → is_huge (s.mem p (index v (suc n))) ≡ true
    → final (suc n) s p v ≡ some (p, index v (suc n))
unfolding walk_from
final_huge n s p v h = ground arith

pub final_missing :
    (n : ℕ) (s : Vm) (p v : ℕ)
    → is_huge (s.mem p (index v (suc n))) ≡ false
    → is_present (s.mem p (index v (suc n))) ≡ false
    → final (suc n) s p v ≡ none
unfolding walk_from
final_missing n s p v h e = ground arith

pub final_below :
    (n : ℕ) (s : Vm) (p v : ℕ)
    → is_huge (s.mem p (index v (suc n))) ≡ false
    → is_present (s.mem p (index v (suc n))) ≡ true
    → final (suc n) s p v ≡ final n s (page_of (s.mem p (index v (suc n)))) v
unfolding walk_from
final_below n s p v h e = ground arith

-- the three outcomes of a round
pub data Round (e : ℕ) : Type 0 where
  huge : is_huge e ≡ true → Round e
  missing : is_huge e ≡ false → is_present e ≡ false → Round e
  below : is_huge e ≡ false → is_present e ≡ true → Round e

pub round : (e : ℕ) → Round e
round e = elim (Bool-cases (is_huge e)) [
  | inl h ↦ huge h
  | inr h ↦ elim (Bool-cases (is_present e)) [ inl t ↦ below h t | inr t ↦ missing h t ]
]
