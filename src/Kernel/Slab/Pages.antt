-- ===== src/Kernel/Slab/Pages.antt =====
-- What the heap needs of the page allocator: pages that were free, marked, and no page given back.
use aev_os.Common.{
  ℕ, ◌+◌, ◌*◌, ◌≤◌, ◌<◌, ◌≡◌, ◌≢◌, inl, inr, refl, subst, true, false, ◌==◌, arith, Bool-cases,
}
use aev_os.Kernel.Pmm.{Pmm, page_size, bm_test, pmm_alloc_page, pmm_alloc_pages}
use aev_os.Kernel.Pmm.Inv.{IsValid}
use aev_os.Kernel.Pmm.Alloc.{pmm_alloc_page_lem, pmm_alloc_pages_one, pmm_alloc_pages_lem}

-- The call leaves the pages in use as they are, and what it returns, if not 0, is the address of
-- `count` pages that were free and are in use now.
pub record GivesPages (p : Pmm) (count : ℕ) (r : ℕ × Pmm) : Type 0 where
  pub keeps : (q : ℕ) → bm_test p.bitmap q ≡ true → bm_test r.1.bitmap q ≡ true
  pub start : ℕ
  pub address : r.0 ≢ 0 → r.0 ≡ start * page_size
  pub free : r.0 ≢ 0 → (q : ℕ) → start ≤ q → q < start + count → bm_test p.bitmap q ≡ false
  pub marked : r.0 ≢ 0 → (q : ℕ) → start ≤ q → q < start + count → bm_test r.1.bitmap q ≡ true

none-GivesPages : (p : Pmm) (count : ℕ) → GivesPages p count (0, p)
none-GivesPages p count = record {
  keeps = λ q h. h;
  start = 0;
  address = λ ne. absurd (ne refl);
  free = λ ne. absurd (ne refl);
  marked = λ ne. absurd (ne refl);
}

one-GivesPages : {p : Pmm} → IsValid p → GivesPages p 1 (pmm_alloc_page p)
one-GivesPages {p} v = elim (pmm_alloc_page_lem v) [
  | inl (used, e) ↦ rw e (none-GivesPages p 1)
  | inr t ↦ record {
    keeps = λ q h. ground (arith, t.marks q);
    start = t.page;
    address = λ ne. t.address;
    free = λ ne q lo hi. let e : t.page ≡ q = omega arith in rw (← e) t.free;
    marked = λ ne q lo hi. ground (arith, t.marks q);
  }
]

pub pmm_alloc_pages-GivesPages :
    {p : Pmm} (count : ℕ) → 0 < count → IsValid p → GivesPages p count (pmm_alloc_pages p count)
pmm_alloc_pages-GivesPages {p} count pos v = elim (Bool-cases (count == 1)) [
  | inl o ↦
      let e : 1 ≡ count = ground arith in
      subst (λ n. GivesPages p n (pmm_alloc_pages p n)) e
        (rw (pmm_alloc_pages_one p) (one-GivesPages v))
  | inr o ↦ elim (pmm_alloc_pages_lem count (ground arith) v) [
    | inl (used, e) ↦ rw e (none-GivesPages p count)
    | inr t ↦ record {
      keeps = λ q h. ground (arith, t.marks q);
      start = t.start;
      address = λ ne. t.address;
      free = λ ne q lo hi. t.free q lo hi;
      marked = λ ne q lo hi. ground (arith, t.marks q);
    }
  ]
]
