-- ===== src/Kernel/Slab/Boot.antt =====
-- `slab_init`: the heap at the start.
use aev_os.Common.{ℕ, ◌*◌, ◌≡◌, refl, Bool, true, ◌&&◌, List, [], ◌∷◌, ltb, leb, ◌==◌, arith}
use aev_os.Kernel.Pmm.{Pmm, page_size}
use aev_os.Kernel.Pmm.Inv as PmmInv
use aev_os.Kernel.Slab.{cache_sizes, new_cache, new_caches, slab_init}
use aev_os.Kernel.Slab.Holders.{
  holders, holders_caches, holders_cache, holders_list, cover_caches, cover_cache, cover_list,
}
use aev_os.Kernel.Slab.Object.{IsShape}
use aev_os.Kernel.Slab.Malloc.{AllCaches, IsValid}

-- the test for the sizes of a new cache
fits_pages : ℕ → Bool
fits_pages size =
    let c = new_cache size in
    ltb 0 c.obj_size
    && ltb 0 c.obj_per_slab
    && leb c.obj_per_slab 128
    && c.obj_per_slab * c.obj_size == c.pages_per_slab * page_size
    && ltb 0 c.pages_per_slab
    && leb c.pages_per_slab 16

all_fit : List ℕ → Bool
all_fit [] = true
all_fit (n ∷ ns) = fits_pages n && all_fit ns

sizes_fit : all_fit cache_sizes ≡ true
unfolding all_fit fits_pages
sizes_fit = refl

new_cache-IsShape : (size : ℕ) → fits_pages size ≡ true → IsShape (new_cache size)
unfolding fits_pages
new_cache-IsShape size h = record {
  size_pos = ground arith;
  some = ground arith;
  few = ground arith;
  fits = ground arith;
  pages = ground arith;
  small = ground arith;
}

new_caches-AllCaches : (sizes : List ℕ) → all_fit sizes ≡ true → AllCaches (new_caches sizes)
unfolding all_fit new_caches
new_caches-AllCaches [] h = tt
new_caches-AllCaches (n ∷ ns) h = (
  record { shape = new_cache-IsShape n (ground arith); partial = tt; full = tt },
  new_caches-AllCaches ns (ground arith),
)

no_pages : (q : ℕ) (sizes : List ℕ) → cover_caches q (new_caches sizes) ≡ 0
unfolding cover_caches cover_cache cover_list new_caches
no_pages q [] = refl
no_pages q (n ∷ ns) = omega (arith, no_pages q ns)

no_objects : (b : ℕ) (sizes : List ℕ) → holders_caches b (new_caches sizes) ≡ 0
unfolding holders_caches holders_cache holders_list new_caches
no_objects b [] = refl
no_objects b (n ∷ ns) = omega (arith, no_objects b ns)

-- slab_init on a valid page allocator gives a valid heap, without an object in use.
pub slab_init-IsValid :
    (p : Pmm) → PmmInv.IsValid p → IsValid (slab_init p) × ((b : ℕ) → holders b (slab_init p) ≡ 0)
unfolding slab_init holders
slab_init-IsValid p v = (
  record {
    caches = new_caches-AllCaches cache_sizes sizes_fit;
    pmm = v;
    apart = λ q. omega (arith, no_pages q cache_sizes);
  },
  λ b. no_objects b cache_sizes,
)
