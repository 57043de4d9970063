-- ===== src/Kernel/Pmm/Alloc.antt =====
-- What the allocations return and mark.
use aev_os.Common.{
  ℕ, zero, suc, refl, ◌+◌, ◌*◌, ◌≤◌, ◌<◌, ◌≡◌, ◌⊎◌, inl, inr, ◌∙◌, true, false, ◌==◌, if◌then◌else◌,
  arith, length, Bool-cases, some, Option-cases,
}
use aev_os.Kernel.Pmm.{
  Pmm, page_size, bm_set_range, bm_test, bm_find_first_free, bm_find_free, take_page, take_pages,
  pmm_alloc_page, pmm_alloc_pages,
}
use aev_os.Kernel.Pmm.Bitmap.{bm_test-bm_set, count_free-le, count_free-used}
use aev_os.Kernel.Pmm.Scan.{bm_find_first_free-IsFirstFree, AllFree, bm_find_free-IsFirstRun}
use aev_os.Kernel.Pmm.Range.{
  in_range, rounds_of-eq, length-set_from, set_from-Words, bm_test-set_from, count_free-set_from,
}
use aev_os.Kernel.Pmm.Inv.{IsValid, mark-IsValid}

-- What `pmm_alloc_page` returns: the address of `page`, the first free page, which it marks.
pub record TakesPage (p : Pmm) (r : ℕ × Pmm) : Type 0 where
  pub page : ℕ
  pub inside : page < p.total_pages
  pub free : bm_test p.bitmap page ≡ false
  pub first : (q : ℕ) → q < page → bm_test p.bitmap q ≡ true
  pub address : r.0 ≡ page * page_size
  pub marks : (q : ℕ) → bm_test r.1.bitmap q ≡ (if page == q then true else bm_test p.bitmap q)

-- On a valid state, pmm_alloc_page takes the first free page, marks it and no other, and returns
-- its address; it returns 0 and changes nothing exactly if every page is in use.
pub pmm_alloc_page_lem :
    {p : Pmm}
    → IsValid p
    → (((q : ℕ) → q < p.total_pages → bm_test p.bitmap q ≡ true) × (pmm_alloc_page p ≡ (0, p)))
      ⊎ TakesPage p (pmm_alloc_page p)
unfolding pmm_alloc_page take_page
pmm_alloc_page_lem {p} v =
    let first = bm_find_first_free-IsFirstFree p v.fits in
    elim (Option-cases (bm_find_first_free p)) [
      | inl e ↦ inl (λ q h. (rw e at first) q (omega arith) h, rw e)
      | inr (page, e) ↦
          let (lo, inside, free, below) = rw e at first in
          inr (record {
            page = page;
            inside = inside;
            free = free;
            first = λ q h. below q (omega arith) h;
            address = rw e;
            marks = λ q. rw e (bm_test-bm_set p.bitmap page q (omega (arith, v.words, v.small)));
          })
    ]

pub pmm_alloc_page-IsValid : {p : Pmm} → IsValid p → IsValid (pmm_alloc_page p).1
unfolding pmm_alloc_page take_page
pmm_alloc_page-IsValid {p} v =
    let first = bm_find_first_free-IsFirstFree p v.fits in
    elim (Option-cases (bm_find_first_free p)) [
      | inl e ↦ rw e v
      | inr (page, e) ↦
          let (lo, inside, free, below) = rw e at first in rw e (mark-IsValid v page inside free)
    ]

take_pages-IsValid :
    {p : Pmm} (count start : ℕ)
    → IsValid p
    → start + count ≤ p.total_pages
    → AllFree p.bitmap start count
    → IsValid (take_pages p count (some start)).1
unfolding take_pages bm_set_range
take_pages-IsValid {p} count start v inside free =
    let inside' : start + count ≤ length p.bitmap * 64 = omega (arith, v.words, v.small) in
    let counted = count_free-set_from p.bitmap start count p.total_pages inside' inside free in
    rw (rounds_of-eq start count (omega (arith, v.small))) (record {
      words = length-set_from p.bitmap start count ∙ v.words;
      fits = set_from-Words p.bitmap start count inside' v.fits;
      small = v.small;
      counted = omega (arith, counted, v.counted, v.small, count_free-le p.bitmap p.total_pages);
    })

-- pmm_alloc_pages keeps the invariant: the free count is the number of clear bits below
-- total_pages.
pub pmm_alloc_pages-IsValid :
    {p : Pmm} (count : ℕ) → IsValid p → IsValid (pmm_alloc_pages p count).1
unfolding pmm_alloc_pages
pmm_alloc_pages-IsValid {p} count v = elim (Bool-cases (count == 0)) [
  | inl z ↦ rw z v
  | inr z ↦ elim (Bool-cases (count == 1)) [
    | inl o ↦ rw (z, o) (pmm_alloc_page-IsValid v)
    | inr o ↦
        let first = bm_find_free-IsFirstRun p 0 count (omega arith) (ground arith) in
        elim (Option-cases (bm_find_free p 0 count)) [
          | inl e ↦ rw (z, o, e) (unfold take_pages in v)
          | inr (start, e) ↦
              let (lo, inside, free, below) = rw e at first in
              rw (z, o, e) (take_pages-IsValid count start v inside free)
        ]
  ]
]

-- What `pmm_alloc_pages` returns: the address of the first run of `count` free pages, which it marks.
pub record TakesPages (p : Pmm) (count : ℕ) (r : ℕ × Pmm) : Type 0 where
  pub start : ℕ
  pub inside : start + count ≤ p.total_pages
  pub free : AllFree p.bitmap start count
  pub first : (s : ℕ) → s < start → ¬ AllFree p.bitmap s count
  pub address : r.0 ≡ start * page_size
  pub marks :
      (q : ℕ) → bm_test r.1.bitmap q ≡ (if in_range start count q then true else bm_test p.bitmap q)

-- On a valid state, pmm_alloc_pages of two pages or more takes the first run of free pages that is
-- long enough, marks it and no other page, and returns its address; it returns 0 and changes
-- nothing exactly if there is no such run.
pub pmm_alloc_pages_lem :
    {p : Pmm} (count : ℕ)
    → 2 ≤ count
    → IsValid p
    → (((s : ℕ) → s + count ≤ p.total_pages → ¬ AllFree p.bitmap s count)
        × (pmm_alloc_pages p count ≡ (0, p)))
      ⊎ TakesPages p count (pmm_alloc_pages p count)
unfolding pmm_alloc_pages take_pages bm_set_range
pmm_alloc_pages_lem {p} count two v =
    let first = bm_find_free-IsFirstRun p 0 count (omega arith) (omega arith) in
    let z : (count == 0) ≡ false = ground arith in
    let o : (count == 1) ≡ false = ground arith in
    elim (Option-cases (bm_find_free p 0 count)) [
      | inl e ↦ inl (λ s h. (rw e at first) s (omega arith) h, rw (z, o, e))
      | inr (start, e) ↦
          let (lo, inside, free, below) = rw e at first in
          let whole = rounds_of-eq start count (omega (arith, v.small)) in
          inr (record {
            start = start;
            inside = inside;
            free = free;
            first = λ s h. below s (omega arith) h;
            address = rw (z, o, e);
            marks = λ q.
                rw (z, o, e, whole)
                  (bm_test-set_from p.bitmap start count q (omega (arith, v.words, v.small)));
          })
    ]

pub total-pmm_alloc_page : (p : Pmm) → (pmm_alloc_page p).1.total_pages ≡ p.total_pages
unfolding pmm_alloc_page take_page
total-pmm_alloc_page p = ground arith

pub pmm_alloc_pages_one : (p : Pmm) → pmm_alloc_pages p 1 ≡ pmm_alloc_page p
unfolding pmm_alloc_pages
pmm_alloc_pages_one p = refl

-- Where a page is free, and page 0 is not, an address other than 0 is returned, and one page fewer is
-- free.
pub free-pmm_alloc_page :
    {p : Pmm}
    → IsValid p
    → 0 < p.free_pages
    → bm_test p.bitmap 0 ≡ true
    → (0 < (pmm_alloc_page p).0) × ((pmm_alloc_page p).1.free_pages + 1 ≡ p.free_pages)
unfolding pmm_alloc_page take_page
free-pmm_alloc_page {p} v h z =
    let first = bm_find_first_free-IsFirstFree p v.fits in
    elim (Option-cases (bm_find_first_free p)) [
      | inl e ↦
          let used = λ (q : ℕ) (k : q < p.total_pages). (rw e at first) q (omega arith) k in
          absurd (omega (arith, h, v.counted, count_free-used p.bitmap p.total_pages used))
      | inr (page, e) ↦
          let (lo, inside, free, below) = rw e at first in
          let up : 0 < page = not_zero page free in
          rw e (
            omega (arith, up),
            omega (arith, h, v.counted, v.small, count_free-le p.bitmap p.total_pages),
          )
    ]
  where
    not_zero : (page : ℕ) → bm_test p.bitmap page ≡ false → 0 < page
    not_zero zero f = absurd (cc (f, z))
    not_zero (suc page) f = omega arith
