-- ===== src/Kernel/Pmm/Boot.antt =====
-- `pmm_init`: the regions of the memory map, and the reserved pages.
use aev_os.Common.{
  ℕ, zero, suc, ◌+◌, ◌-◌, ◌*◌, ◌/◌, ◌%◌, ◌^◌, ◌≤◌, ◌<◌, ◌≡◌, inl, inr, refl, sym, ◌∙◌, true, false,
  List, [], ◌∷◌, ltb, leb, arith, length, Bool-cases, length-replicate, get_or-replicate_lt,
  replicate,
}
use aev_os.Kernel.Pmm.{
  Pmm, MmapEntry, BootInfo, page_size, pmm_max_pages, uint64_max, bm_test, bm_clear_range,
  clear_from, rounds_of, region_pages, add_region, add_regions, align_up, end_of, reserve,
  reserve_from, blank, pmm_init, low_pages,
}
use aev_os.Common.Bits.{test_bit_ones}
use aev_os.Kernel.Pmm.Bitmap.{Words, count_free-le, count_free-used}
use aev_os.Kernel.Pmm.Range.{
  rounds_of-eq, length-clear_from, clear_from-Words, count_free-clear_from,
}
use aev_os.Kernel.Pmm.Inv.{IsValid, reserve-IsValid}

abbrev pub first_page : MmapEntry → ℕ
first_page e = align_up e.base / page_size

abbrev pub page_count : MmapEntry → ℕ
page_count e = (end_of e - align_up e.base) / page_size

-- A usable region that lies in managed memory, and whose pages have not been freed before.
pub record IsClean (p : Pmm) (e : MmapEntry) : Type 0 where
  pub inside : first_page e + page_count e ≤ p.total_pages
  pub unused :
      (q : ℕ) → first_page e ≤ q → q < first_page e + page_count e → bm_test p.bitmap q ≡ true

add_region-IsValid : {p : Pmm} (e : MmapEntry) → IsValid p → IsClean p e → IsValid (add_region p e)
unfolding add_region region_pages bm_clear_range
add_region-IsValid {p} e v c = elim (Bool-cases e.usable) [
  | inr u ↦ rw u v
  | inl u ↦ elim (Bool-cases (leb (end_of e) (align_up e.base))) [
    | inl l ↦ rw (u, l) v
    | inr l ↦
        let uncut : ltb p.total_pages (first_page e + page_count e) ≡ false =
          ground (arith, c.inside) in
        let inside' : first_page e + page_count e ≤ length p.bitmap * 64 =
          omega (arith, v.words, v.small, c.inside) in
        let counted =
          count_free-clear_from p.bitmap (first_page e) (page_count e) p.total_pages inside'
            c.inside c.unused in
        rw
          (
            u,
            l,
            uncut,
            rounds_of-eq (first_page e) (page_count e) (omega (arith, v.small, c.inside)),
          )
          (record {
            words = length-clear_from p.bitmap (first_page e) (page_count e) ∙ v.words;
            fits = clear_from-Words p.bitmap (first_page e) (page_count e) inside' v.fits;
            small = v.small;
            counted = omega (
              arith,
              counted,
              v.counted,
              v.small,
              count_free-le (clear_from p.bitmap (first_page e) (page_count e)) p.total_pages,
            );
          })
  ]
]

reserve_from-IsValid : (p : Pmm) (i n : ℕ) → IsValid p → IsValid (reserve_from p i n)
unfolding reserve_from
reserve_from-IsValid p i zero v = v
reserve_from-IsValid p i (suc n) v = elim (Bool-cases (ltb i p.total_pages)) [
  | inl e ↦ rw e (reserve_from-IsValid (reserve p i) (i + 1) n (reserve-IsValid v i (ground arith)))
  | inr e ↦ rw e v
]

-- Every region is clean when its turn comes.
abbrev pub AreClean : Pmm → List MmapEntry → Type 0
AreClean p [] = Unit
AreClean p (e ∷ es) = IsClean p e × AreClean (add_region p e) es

add_regions-IsValid :
    (p : Pmm) (es : List MmapEntry) → IsValid p → AreClean p es → IsValid (add_regions p es)
unfolding add_regions
add_regions-IsValid p [] v c = v
add_regions-IsValid p (e ∷ es) v c =
    add_regions-IsValid (add_region p e) es (add_region-IsValid e v c.0) c.1

pub bm_test-blank : (bi : BootInfo) (q : ℕ) → q < pmm_max_pages → bm_test (blank bi).bitmap q ≡ true
unfolding blank bm_test
bm_test-blank bi q h =
    rw (get_or-replicate_lt (pmm_max_pages / 64) (q / 64) uint64_max 0 (omega arith))
      (test_bit_ones 64 uint64_max (q % 64) (omega arith) (omega arith))

uint64_max-lt : uint64_max < 2 ^ 64
uint64_max-lt = omega arith

Words-blank : (n : ℕ) → Words (replicate n uint64_max)
unfolding replicate
Words-blank zero w = omega arith
Words-blank (suc n) zero = uint64_max-lt
Words-blank (suc n) (suc w) = Words-blank n w

blank-IsValid : (bi : BootInfo) → IsValid (blank bi)
blank-IsValid bi =
    let none_free =
      count_free-used (blank bi).bitmap (blank bi).total_pages
        (λ q h. bm_test-blank bi q (unfold blank in omega arith)) in
    unfold blank in
    record {
      words = length-replicate (pmm_max_pages / 64) uint64_max;
      fits = Words-blank (pmm_max_pages / 64);
      small = omega arith;
      counted = sym none_free;
    }

-- pmm_init sets the invariant up, if the usable regions lie in the managed memory and do not
-- overlap.
pub pmm_init-IsValid : (bi : BootInfo) → AreClean (blank bi) bi.mmap → IsValid (pmm_init bi)
unfolding pmm_init
pmm_init-IsValid bi c =
    reserve_from-IsValid _ 0 low_pages
      (reserve_from-IsValid _ _ _ (add_regions-IsValid (blank bi) bi.mmap (blank-IsValid bi) c))

rounds_of_beyond :
    (start total : ℕ)
    → start < 2 ^ 64
    → total < start
    → rounds_of start (2 ^ 64 - (start - total)) ≡ 0
unfolding rounds_of
rounds_of_beyond start total low h = omega arith

-- A usable region that begins behind the managed memory frees no page, and yet pmm_init takes the
-- distance from its free count, modulo 2 ^ 64.
pub add_region_beyond :
    (p : Pmm) (e : MmapEntry)
    → e.usable ≡ true
    → align_up e.base < end_of e
    → p.total_pages < first_page e
    → p.total_pages ≤ pmm_max_pages
    → (add_region p e).bitmap ≡ p.bitmap
      × ((add_region p e).free_pages
          ≡ (p.free_pages + (2 ^ 64 - (first_page e - p.total_pages))) % 2 ^ 64)
unfolding add_region region_pages bm_clear_range
add_region_beyond p e u long beyond small =
    let start = first_page e in
    let low : start < 2 ^ 64 = omega arith in
    let open_end : leb (end_of e) (align_up e.base) ≡ false = ground arith in
    let cut : ltb p.total_pages (start + page_count e) ≡ true = ground arith in
    let num : (p.total_pages + 2 ^ 64 - start) % 2 ^ 64 ≡ 2 ^ 64 - (start - p.total_pages) =
      omega arith in
    let none_walked : rounds_of start (2 ^ 64 - (start - p.total_pages)) ≡ 0 =
      rounds_of_beyond start p.total_pages low beyond in
    rw (u, open_end, cut, num) (rw none_walked (unfold clear_from in refl), refl)
