-- ===== src/Kernel/Pmm/Tests.antt =====
-- The theorems on the page allocator at a machine with 8 MiB of memory.
use aev_os.Common.{
  ℕ, ◌+◌, ◌-◌, ◌^◌, ◌%◌, ◌≤◌, ◌<◌, ◌≡◌, ◌⊎◌, refl, true, false, [], ◌∷◌, arith, replicate,
}
use aev_os.Common.Bits.{test_bit, set_bit, clear_bit}
use aev_os.Kernel.Pmm.{
  Pmm, MmapEntry, BootInfo, bm_test, pmm_init, blank, add_region, pmm_alloc_page, pmm_alloc_pages,
  bm_find_first_free, add_regions, reserve_from, reserve, region_pages, bm_clear_range, clear_from,
  rounds_of, bm_set, bm_clear,
}
use aev_os.Kernel.Pmm.Scan.{IsFirstFree, AllFree, bm_find_first_free-IsFirstFree}
use aev_os.Kernel.Pmm.Inv.{IsValid}
use aev_os.Kernel.Pmm.Alloc.{TakesPage, TakesPages, pmm_alloc_page_lem, pmm_alloc_pages_lem}
use aev_os.Kernel.Pmm.Boot.{
  AreClean, first_page, bm_test-blank, pmm_init-IsValid, add_region_beyond,
}

-- usable from 2 MiB to 4 MiB
abbrev ram : MmapEntry
ram = record { base = 0x20_0000; length = 0x20_0000; usable = true }

abbrev machine : BootInfo
machine = record {
  total_memory = 0x80_0000;
  mmap = ram ∷ [];
  kernel_phys_base = 0x20_0000;
  kernel_size = 0x1_0000;
}

machine-AreClean : AreClean (blank machine) machine.mmap
machine-AreClean = (
  record {
    inside = unfold blank in omega arith;
    unused = λ q lo hi. bm_test-blank machine q (omega arith);
  },
  tt,
)

abbrev pub booted : Pmm
booted = pmm_init machine

pub booted-IsValid : IsValid booted
booted-IsValid = pmm_init-IsValid machine machine-AreClean

-- page 600 is usable and not the kernel's
page_600_free : bm_test booted.bitmap 600 ≡ false
unfolding pmm_init add_regions add_region region_pages bm_clear_range clear_from rounds_of
    reserve_from reserve blank bm_test bm_set bm_clear test_bit set_bit clear_bit replicate
page_600_free = refl

total_booted : booted.total_pages ≡ 2048
unfolding pmm_init add_regions add_region region_pages bm_clear_range clear_from rounds_of
    reserve_from reserve blank bm_test bm_set bm_clear test_bit set_bit clear_bit replicate
total_booted = refl

-- pages of the low memory and of the kernel
pub page_0_used : bm_test booted.bitmap 0 ≡ true
unfolding pmm_init add_regions add_region region_pages bm_clear_range clear_from rounds_of
    reserve_from reserve blank bm_test bm_set bm_clear test_bit set_bit clear_bit replicate
page_0_used = refl

pub page_512_used : bm_test booted.bitmap 512 ≡ true
unfolding pmm_init add_regions add_region region_pages bm_clear_range clear_from rounds_of
    reserve_from reserve blank bm_test bm_set bm_clear test_bit set_bit clear_bit replicate
page_512_used = refl

pub page_513_used : bm_test booted.bitmap 513 ≡ true
unfolding pmm_init add_regions add_region region_pages bm_clear_range clear_from rounds_of
    reserve_from reserve blank bm_test bm_set bm_clear test_bit set_bit clear_bit replicate
page_513_used = refl

pub page_514_used : bm_test booted.bitmap 514 ≡ true
unfolding pmm_init add_regions add_region region_pages bm_clear_range clear_from rounds_of
    reserve_from reserve blank bm_test bm_set bm_clear test_bit set_bit clear_bit replicate
page_514_used = refl

pub page_515_used : bm_test booted.bitmap 515 ≡ true
unfolding pmm_init add_regions add_region region_pages bm_clear_range clear_from rounds_of
    reserve_from reserve blank bm_test bm_set bm_clear test_bit set_bit clear_bit replicate
page_515_used = refl

pub free_booted : booted.free_pages ≡ 496
unfolding pmm_init add_regions add_region region_pages bm_clear_range clear_from rounds_of
    reserve_from reserve blank bm_test bm_set bm_clear test_bit set_bit clear_bit replicate
free_booted = refl

bm_find_first_free-IsFirstFree_example :
    IsFirstFree booted.bitmap 0 booted.total_pages (bm_find_first_free booted)
bm_find_first_free-IsFirstFree_example = bm_find_first_free-IsFirstFree booted booted-IsValid.fits

pmm_alloc_page_lem_example :
    (((q : ℕ) → q < booted.total_pages → bm_test booted.bitmap q ≡ true)
      × (pmm_alloc_page booted ≡ (0, booted)))
    ⊎ TakesPage booted (pmm_alloc_page booted)
pmm_alloc_page_lem_example = pmm_alloc_page_lem booted-IsValid

pmm_alloc_pages_lem_example :
    (((s : ℕ) → s + 3 ≤ booted.total_pages → ¬ AllFree booted.bitmap s 3)
      × (pmm_alloc_pages booted 3 ≡ (0, booted)))
    ⊎ TakesPages booted 3 (pmm_alloc_pages booted 3)
pmm_alloc_pages_lem_example = pmm_alloc_pages_lem 3 (omega arith) booted-IsValid

-- a usable region at 16 MiB, of a machine that reports 8 MiB of memory
abbrev high : MmapEntry
high = record { base = 0x100_0000; length = 0x10_0000; usable = true }

add_region_beyond_example :
    ((add_region booted high).bitmap ≡ booted.bitmap)
    × ((add_region booted high).free_pages
        ≡ (booted.free_pages + (2 ^ 64 - (first_page high - booted.total_pages))) % 2 ^ 64)
add_region_beyond_example =
    add_region_beyond booted high refl (omega arith) (omega (arith, total_booted))
      (omega (arith, total_booted))
