-- ===== src/Kernel/Pmm.antt =====
-- src/kernel/mm/pmm.c: the physical page allocator, a bitmap of pages in use.
-- The global `pmm` is the state, without its lock: each call runs under the lock. The counter
-- `free_pages` is a 64-bit word. Page numbers are far below 2 ^ 64, so sums of them do not wrap,
-- except in `bm_set_range` and `bm_clear_range`, where the wrap is written out.
pub mod Bitmap
pub mod Scan
pub mod Range
pub mod Inv
pub mod Alloc
pub mod Free
pub mod Boot
pub mod Tests
use aev_os.Common.{
  ℕ, zero, suc, ◌+◌, ◌-◌, ◌*◌, ◌/◌, ◌%◌, ◌^◌, Bool, true, false, not, Option, none, some, List, [],
  ◌∷◌, ltb, leb, ◌==◌, if◌then◌else◌, get_or, set, replicate, min,
}
use aev_os.Common.Bits.{test_bit, set_bit, clear_bit, lowest_zero}

-- `pmm_t`, without its lock
pub record Pmm : Type 0 where
  pub bitmap : List ℕ
  pub total_pages : ℕ
  pub free_pages : ℕ

abbrev pub pmm_max_pages : ℕ
pmm_max_pages = 2 ^ 20

abbrev pub page_size : ℕ
page_size = 4096

abbrev pub uint64_max : ℕ
uint64_max = 2 ^ 64 - 1

-- `x--` and `x++` on a `uint64_t`
abbrev pub dec64 : ℕ → ℕ
dec64 x = (x + 2 ^ 64 - 1) % 2 ^ 64

abbrev pub inc64 : ℕ → ℕ
inc64 x = (x + 1) % 2 ^ 64

pub bm_set : List ℕ → ℕ → List ℕ
bm_set bm page = set bm (page / 64) (set_bit (get_or bm (page / 64) 0) (page % 64))

pub bm_clear : List ℕ → ℕ → List ℕ
bm_clear bm page = set bm (page / 64) (clear_bit (get_or bm (page / 64) 0) (page % 64))

pub bm_test : List ℕ → ℕ → Bool
bm_test bm page = test_bit (get_or bm (page / 64) 0) (page % 64)

-- The loops from page `i` on, with `rounds` left.
pub set_from : List ℕ → ℕ → ℕ → List ℕ
set_from bm i zero = bm
set_from bm i (suc rounds) = set_from (bm_set bm i) (i + 1) rounds

pub clear_from : List ℕ → ℕ → ℕ → List ℕ
clear_from bm i zero = bm
clear_from bm i (suc rounds) = clear_from (bm_clear bm i) (i + 1) rounds

-- `for (i = start; i < start + count && i < PMM_MAX_PAGES; i++)`
pub rounds_of : ℕ → ℕ → ℕ
rounds_of start count = min ((start + count) % 2 ^ 64) pmm_max_pages - start

pub bm_set_range : List ℕ → ℕ → ℕ → List ℕ
bm_set_range bm start count = set_from bm start (rounds_of start count)

pub bm_clear_range : List ℕ → ℕ → ℕ → List ℕ
bm_clear_range bm start count = clear_from bm start (rounds_of start count)

-- The loop of `bm_find_free` at page `i`, with `rounds` left: `run` free pages from `start` on are
-- behind it. `none` is `UINT64_MAX`.
pub find_run : List ℕ → ℕ → ℕ → ℕ → ℕ → ℕ → Option ℕ
find_run bm count run start i zero = none
find_run bm count run start i (suc rounds) =
    let skip = find_run bm count 0 (i + 1) (i + 1) rounds in
    let more = find_run bm count (run + 1) start (i + 1) rounds in
    if bm_test bm i then skip else if run + 1 == count then some start else more

pub bm_find_free : Pmm → ℕ → ℕ → Option ℕ
unfolding find_run
bm_find_free p from count = find_run p.bitmap count 0 from from (p.total_pages - from)

-- The loop of `bm_find_first_free` at word `w`, with `rounds` left.
pub find_word : List ℕ → ℕ → ℕ → ℕ → Option ℕ
find_word bm total w zero = none
find_word bm total w (suc rounds) =
    let rest = find_word bm total (w + 1) rounds in
    let page = w * 64 + lowest_zero 64 (get_or bm w 0) in
    if get_or bm w 0 == uint64_max then rest else if ltb page total then some page else rest

pub bm_find_first_free : Pmm → Option ℕ
unfolding find_word
bm_find_first_free p = find_word p.bitmap p.total_pages 0 ((p.total_pages + 63) / 64)

-- what `pmm_alloc_page` does with the page found; the result is an address
pub take_page : Pmm → Option ℕ → ℕ × Pmm
take_page p none = (0, p)
take_page p (some page) =
    (page * page_size, record p { bitmap = bm_set p.bitmap page; free_pages = dec64 p.free_pages })

pub pmm_alloc_page : Pmm → ℕ × Pmm
pmm_alloc_page p = take_page p (bm_find_first_free p)

pub take_pages : Pmm → ℕ → Option ℕ → ℕ × Pmm
take_pages p count none = (0, p)
take_pages p count (some start) = (
  start * page_size,
  record p {
    bitmap = bm_set_range p.bitmap start count;
    free_pages = (p.free_pages + 2 ^ 64 - count) % 2 ^ 64;
  },
)

pub pmm_alloc_pages : Pmm → ℕ → ℕ × Pmm
pmm_alloc_pages p count =
    if count == 0
    then (0, p)
    else if count == 1
    then pmm_alloc_page p
    else take_pages p count (bm_find_free p 0 count)

-- `if (bm_test(page)) { bm_clear(page); free_pages++; }`
pub release : Pmm → ℕ → Pmm
release p page =
    if bm_test p.bitmap page
    then record p { bitmap = bm_clear p.bitmap page; free_pages = inc64 p.free_pages }
    else p

pub pmm_free_page : Pmm → ℕ → Pmm
pmm_free_page p paddr =
    let page = paddr / page_size in if leb p.total_pages page then p else release p page

-- the loop of `pmm_free_pages` at page `i`, with `rounds` left
pub release_from : Pmm → ℕ → ℕ → Pmm
release_from p i zero = p
release_from p i (suc rounds) =
    let rest = release_from (release p i) (i + 1) rounds in if leb p.total_pages i then p else rest

pub pmm_free_pages : Pmm → ℕ → ℕ → Pmm
unfolding release_from
pmm_free_pages p paddr count = release_from p (paddr / page_size) count

-- `mmap_entry_t`, with whether its type is `MMAP_USABLE`
pub record MmapEntry : Type 0 where
  pub base : ℕ
  pub length : ℕ
  pub usable : Bool

-- what `pmm_init` reads of `boot_info_t`
pub record BootInfo : Type 0 where
  pub total_memory : ℕ
  pub mmap : List MmapEntry
  pub kernel_phys_base : ℕ
  pub kernel_size : ℕ

-- `ALIGN_UP` and `ALIGN_DOWN` to a page, on a `uint64_t`
abbrev pub align_up : ℕ → ℕ
align_up x = (x + (page_size - 1)) % 2 ^ 64 / page_size * page_size

abbrev pub align_down : ℕ → ℕ
align_down x = x / page_size * page_size

abbrev pub end_of : MmapEntry → ℕ
end_of e = align_down ((e.base + e.length) % 2 ^ 64)

-- The number of pages of a region, cut at `total_pages`; the subtraction wraps.
pub region_pages : ℕ → MmapEntry → ℕ
region_pages total e =
    let start = align_up e.base / page_size in
    let num = (end_of e - align_up e.base) / page_size in
    if ltb total (start + num) then (total + 2 ^ 64 - start) % 2 ^ 64 else num

-- one round of the loop over the memory map
pub add_region : Pmm → MmapEntry → Pmm
add_region p e =
    let num = region_pages p.total_pages e in
    if not e.usable then p else if leb (end_of e) (align_up e.base) then p else record p {
      bitmap = bm_clear_range p.bitmap (align_up e.base / page_size) num;
      free_pages = (p.free_pages + num) % 2 ^ 64;
    }

pub add_regions : Pmm → List MmapEntry → Pmm
add_regions p [] = p
add_regions p (e ∷ es) = add_regions (add_region p e) es

-- `if (!bm_test(i)) { bm_set(i); free_pages--; }`
pub reserve : Pmm → ℕ → Pmm
reserve p page =
    if not (bm_test p.bitmap page)
    then record p { bitmap = bm_set p.bitmap page; free_pages = dec64 p.free_pages }
    else p

-- `for (; i < end && i < total_pages; i++)`, with `rounds` left before `end`
pub reserve_from : Pmm → ℕ → ℕ → Pmm
reserve_from p i zero = p
reserve_from p i (suc rounds) =
    let rest = reserve_from (reserve p i) (i + 1) rounds in if ltb i p.total_pages then rest else p

abbrev pub low_pages : ℕ
low_pages = 256

-- every page in use
pub blank : BootInfo → Pmm
blank bi = record {
  bitmap = replicate (pmm_max_pages / 64) uint64_max;
  total_pages = min (bi.total_memory / page_size) pmm_max_pages;
  free_pages = 0;
}

pub pmm_init : BootInfo → Pmm
pmm_init bi =
    let p = add_regions (blank bi) bi.mmap in
    let q =
      reserve_from p (bi.kernel_phys_base / page_size) (align_up bi.kernel_size / page_size) in
    reserve_from q 0 low_pages
