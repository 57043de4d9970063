-- ===== src/Kernel/Pmm/Free.antt =====
-- What the calls that give pages back do.
use mathlib.Core.Bool.{true≢false}
use aev_os.Common.{
  ℕ, zero, suc, ◌+◌, ◌/◌, ◌<◌, ◌≡◌, inl, inr, sym, ap, ◌∙◌, false, leb, ◌==◌, if◌then◌else◌, arith,
  Bool-cases,
}
use aev_os.Kernel.Pmm.{
  Pmm, page_size, bm_test, release, release_from, pmm_free_page, pmm_free_pages, pmm_alloc_page,
}
use aev_os.Kernel.Pmm.Range.{in_range}
use aev_os.Kernel.Pmm.Inv.{IsValid, release-IsValid, bm_test-release, total-release}
use aev_os.Kernel.Pmm.Bitmap.{count_free, count_free_ext}
use aev_os.Kernel.Pmm.Alloc.{
  TakesPage, total-pmm_alloc_page, pmm_alloc_page_lem, pmm_alloc_page-IsValid,
}

-- `pmm_free_page` keeps the invariant, for any address, also one that is free or out of range.
pub pmm_free_page-IsValid : {p : Pmm} (paddr : ℕ) → IsValid p → IsValid (pmm_free_page p paddr)
unfolding pmm_free_page
pmm_free_page-IsValid {p} paddr v = elim (Bool-cases (leb p.total_pages (paddr / page_size))) [
  | inl e ↦ rw e v
  | inr e ↦ rw e (release-IsValid v (paddr / page_size) (ground arith))
]

release_from-IsValid : (p : Pmm) (i n : ℕ) → IsValid p → IsValid (release_from p i n)
unfolding release_from
release_from-IsValid p i zero v = v
release_from-IsValid p i (suc n) v = elim (Bool-cases (leb p.total_pages i)) [
  | inl e ↦ rw e v
  | inr e ↦ rw e (release_from-IsValid (release p i) (i + 1) n (release-IsValid v i (ground arith)))
]

pub pmm_free_pages-IsValid :
    {p : Pmm} (paddr count : ℕ) → IsValid p → IsValid (pmm_free_pages p paddr count)
unfolding pmm_free_pages
pmm_free_pages-IsValid {p} paddr count v = release_from-IsValid p (paddr / page_size) count v

bm_test-release_from :
    (p : Pmm) (i n q : ℕ)
    → IsValid p
    → q < p.total_pages
    → bm_test (release_from p i n).bitmap q ≡ (if in_range i n q then false else bm_test p.bitmap q)
unfolding release_from
bm_test-release_from p i zero q v hq = ground arith
bm_test-release_from p i (suc n) q v hq = elim (Bool-cases (leb p.total_pages i)) [
  | inl e ↦ rw e (ground arith)
  | inr e ↦
      let inside : i < p.total_pages = ground arith in
      rw e (
        bm_test-release_from (release p i) (i + 1) n q (release-IsValid v i inside)
          (omega (arith, total-release p i))
        ∙ ground (arith, bm_test-release v i inside q))
]

-- `pmm_free_pages` frees the pages of the range that exist, and leaves the others as they are.
pub bm_test-pmm_free_pages :
    {p : Pmm} (paddr count q : ℕ)
    → IsValid p
    → q < p.total_pages
    → bm_test (pmm_free_pages p paddr count).bitmap q
      ≡ (if in_range (paddr / page_size) count q then false else bm_test p.bitmap q)
unfolding pmm_free_pages
bm_test-pmm_free_pages {p} paddr count q v hq =
    bm_test-release_from p (paddr / page_size) count q v hq

pub total-pmm_free_page :
    (p : Pmm) (paddr : ℕ) → (pmm_free_page p paddr).total_pages ≡ p.total_pages
unfolding pmm_free_page release
total-pmm_free_page p paddr = ground arith

pub bm_test-pmm_free_page :
    {p : Pmm} (paddr q : ℕ)
    → IsValid p
    → paddr / page_size < p.total_pages
    → bm_test (pmm_free_page p paddr).bitmap q
      ≡ (if paddr / page_size == q then false else bm_test p.bitmap q)
unfolding pmm_free_page
bm_test-pmm_free_page {p} paddr q v inside =
    let e : leb p.total_pages (paddr / page_size) ≡ false = ground arith in
    rw e (bm_test-release v (paddr / page_size) inside q)

free_taken :
    {p : Pmm}
    → IsValid p
    → TakesPage p (pmm_alloc_page p)
    → let (addr, p') = pmm_alloc_page p in
      ((q : ℕ) → bm_test (pmm_free_page p' addr).bitmap q ≡ bm_test p.bitmap q)
      × ((pmm_free_page p' addr).free_pages ≡ p.free_pages)
free_taken {p} v t =
    let p' = (pmm_alloc_page p).1 in
    let addr = (pmm_alloc_page p).0 in
    let v' = pmm_alloc_page-IsValid v in
    let page : addr / page_size ≡ t.page = omega (arith, t.address) in
    let same : (q : ℕ) → bm_test (pmm_free_page p' addr).bitmap q ≡ bm_test p.bitmap q = λ q.
      bm_test-pmm_free_page addr q v' (omega (arith, total-pmm_alloc_page p, t.inside))
      ∙ rw page (ground (arith, t.marks q, t.free)) in
    let after = pmm_free_page-IsValid addr v' in
    (
      same,
      after.counted
          ∙ ap (count_free (pmm_free_page p' addr).bitmap)
              (total-pmm_free_page p' addr ∙ total-pmm_alloc_page p)
          ∙ count_free_ext (pmm_free_page p' addr).bitmap p.bitmap p.total_pages (λ q _. same q)
          ∙ sym v.counted,
    )

-- If some page is free, giving back the page that `pmm_alloc_page` returns restores the state of
-- every page and the count of free pages.
pub pmm_free_page-pmm_alloc_page :
    {p : Pmm} (f : ℕ)
    → IsValid p
    → f < p.total_pages
    → bm_test p.bitmap f ≡ false
    → let (addr, p') = pmm_alloc_page p in
      ((q : ℕ) → bm_test (pmm_free_page p' addr).bitmap q ≡ bm_test p.bitmap q)
      × ((pmm_free_page p' addr).free_pages ≡ p.free_pages)
pmm_free_page-pmm_alloc_page {p} f v inside free = elim (pmm_alloc_page_lem v) [
  | inl (full, e) ↦ absurd (true≢false (sym (full f inside) ∙ free))
  | inr t ↦ free_taken v t
]
