-- ===== src/Kernel/Vmm/Room.antt =====
-- A walk that creates finds an entry where enough pages are free.
use aev_os.Common.{
  ℕ, zero, suc, ◌<◌, ◌≤◌, ◌≡◌, ◌≢◌, sym, subst, inl, inr, true, none, ◌==◌, arith, Bool-cases,
}
use aev_os.Kernel.Pmm.{Pmm, bm_test, pmm_alloc_page}
use aev_os.Kernel.Pmm.Inv.{IsValid}
use aev_os.Kernel.Pmm.Alloc.{pmm_alloc_page-IsValid, free-pmm_alloc_page}
use aev_os.Kernel.Vmm.{Vm, alloc_table, page_of, index, walk_from}
use aev_os.Kernel.Vmm.Tree.{round, huge, missing, below}
use aev_os.Kernel.Vmm.Alloc.{walk_huge, walk_below, walk_fresh, with_table, alloc_more}

-- The allocator has a page for each of `n` tables, and never gives the page 0.
pub record HasRoom (n : ℕ) (p : Pmm) : Type 0 where
  pub valid : IsValid p
  pub zero_used : bm_test p.bitmap 0 ≡ true
  pub enough : n ≤ p.free_pages

pub alloc_room :
    (n : ℕ) (p : Pmm)
    → HasRoom (suc n) p
    → (0 < (pmm_alloc_page p).0) × HasRoom n (pmm_alloc_page p).1
alloc_room n p h =
    let f = free-pmm_alloc_page h.valid (omega (arith, h.enough)) h.zero_used in
    (
      f.0,
      record {
        valid = pmm_alloc_page-IsValid h.valid;
        zero_used = alloc_more p h.valid 0 h.zero_used;
        enough = omega (arith, f.1, h.enough);
      },
    )

alloc_table_room :
    (n : ℕ) (s : Vm)
    → HasRoom (suc n) s.pmm
    → (0 < (alloc_table s).0) × HasRoom n (alloc_table s).1.pmm
unfolding alloc_table
alloc_table_room n s h =
    let a = alloc_room n s.pmm h in
    elim (Bool-cases ((pmm_alloc_page s.pmm).0 == 0)) [
      | inl z ↦ absurd (ground (arith, z, a.0))
      | inr z ↦ rw (z, alloc_table) a
    ]

-- With a page for each level, the walk finds an entry.
pub walk_from-room :
    (n : ℕ) (s : Vm) (p v : ℕ) → HasRoom n s.pmm → (walk_from n s p v true).0 ≢ none
unfolding walk_from
walk_from-room zero s p v h = λ e. cc e
walk_from-room (suc n) s p v h = elim (round (s.mem p i)) [
  | huge a ↦ subst (λ r. r.0 ≢ none) (sym (walk_huge n s p v a)) (λ e. cc e)
  | below a b ↦
      subst (λ r. r.0 ≢ none) (sym (walk_below n s p v a b))
        (walk_from-room n s (page_of (s.mem p i)) v (fewer h))
  | missing a b ↦
      let t = alloc_table_room n s h in
      let s' = with_table n s p v in
      subst (λ r. r.0 ≢ none) (sym (walk_fresh n s p v a b t.0))
        (walk_from-room n s' (page_of (s'.mem p i)) v t.1)
]
  where
    i : ℕ
    i = index v (suc n)

    fewer : HasRoom (suc n) s.pmm → HasRoom n s.pmm
    fewer r = record { valid = r.valid; zero_used = r.zero_used; enough = omega (arith, r.enough) }
