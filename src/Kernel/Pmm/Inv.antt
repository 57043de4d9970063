-- ===== src/Kernel/Pmm/Inv.antt =====
-- The invariant of the page allocator, and the operations on one page.
use aev_os.Common.{
  ℕ, ◌/◌, ◌≤◌, ◌<◌, ◌≡◌, ◌∙◌, true, false, ◌==◌, if◌then◌else◌, arith, length, Bool-cases, inl, inr,
}
use aev_os.Kernel.Pmm.{Pmm, pmm_max_pages, dec64, bm_set, bm_clear, bm_test, release, reserve}
use aev_os.Kernel.Pmm.Bitmap.{
  Words, bm_test-bm_set, bm_test-bm_clear, length-bm_set, length-bm_clear, bm_set-Words,
  bm_clear-Words, count_free, count_free-le, count_free-bm_set, count_free-bm_clear,
}

-- `free_pages` counts the free pages.
pub record IsValid (p : Pmm) : Type 0 where
  pub words : length p.bitmap ≡ pmm_max_pages / 64
  pub fits : Words p.bitmap
  pub small : p.total_pages ≤ pmm_max_pages
  pub counted : p.free_pages ≡ count_free p.bitmap p.total_pages

module _ {p : Pmm} (v : IsValid p) (page : ℕ) (inside : page < p.total_pages) where
  in_bitmap : page / 64 < length p.bitmap
  in_bitmap = omega (arith, v.words, v.small)

  -- A free page is marked as used.
  pub mark-IsValid :
      bm_test p.bitmap page ≡ false
      → IsValid (record p { bitmap = bm_set p.bitmap page; free_pages = dec64 p.free_pages })
  mark-IsValid free =
      let one = count_free-bm_set p.bitmap page in_bitmap p.total_pages inside free in
      let all = count_free-le p.bitmap p.total_pages in
      record {
        words = length-bm_set p.bitmap page ∙ v.words;
        fits = bm_set-Words p.bitmap page in_bitmap v.fits;
        small = v.small;
        counted = omega (arith, one, all, v.counted, v.small);
      }

  -- Giving a page back keeps the invariant.
  pub release-IsValid : IsValid (release p page)
  unfolding release
  release-IsValid = elim (Bool-cases (bm_test p.bitmap page)) [
    | inl e ↦
        let one = count_free-bm_clear p.bitmap page in_bitmap p.total_pages inside e in
        let all = count_free-le (bm_clear p.bitmap page) p.total_pages in
        rw e (record {
          words = length-bm_clear p.bitmap page ∙ v.words;
          fits = bm_clear-Words p.bitmap page in_bitmap v.fits;
          small = v.small;
          counted = omega (arith, one, all, v.counted, v.small);
        })
    | inr e ↦ rw e v
  ]

  pub reserve-IsValid : IsValid (reserve p page)
  unfolding reserve
  reserve-IsValid = elim (Bool-cases (bm_test p.bitmap page)) [
    | inl e ↦ rw e v
    | inr e ↦ rw e (mark-IsValid e)
  ]

  -- After `release` the page is free, and the others are as before.
  pub bm_test-release :
      (q : ℕ)
      → bm_test (release p page).bitmap q ≡ (if page == q then false else bm_test p.bitmap q)
  unfolding release
  bm_test-release q = ground (arith, bm_test-bm_clear p.bitmap page q in_bitmap)

  pub bm_test-reserve :
      (q : ℕ) → bm_test (reserve p page).bitmap q ≡ (if page == q then true else bm_test p.bitmap q)
  unfolding reserve
  bm_test-reserve q = ground (arith, bm_test-bm_set p.bitmap page q in_bitmap)

pub total-release : (p : Pmm) (page : ℕ) → (release p page).total_pages ≡ p.total_pages
unfolding release
total-release p page = ground arith

pub total-reserve : (p : Pmm) (page : ℕ) → (reserve p page).total_pages ≡ p.total_pages
unfolding reserve
total-reserve p page = ground arith
