-- ===== src/Kernel/Slab.antt =====
-- src/kernel/mm/slab.c: the kernel heap. A cache hands out objects of one size from slabs, each a run
-- of pages of the page allocator with a bitmap of the objects in use.
-- An address is a number, and 0 is a null pointer. The intrusive lists `partial` and `full` are lists
-- of slabs; a slab is in one of them. The bitmap of a slab works as that of pmm.c does. The locks are
-- held for a whole call. What is in the memory handed out (`kmemset`, `kmemcpy`) is left out.
pub mod Pages
pub mod Holders
pub mod Object
pub mod CacheInv
pub mod Alloc
pub mod Malloc
pub mod Release
pub mod FreeLists
pub mod FreeCache
pub mod Free
pub mod Boot
pub mod Calls
mod Tests
use aev_os.Common.{
  ℕ, zero, suc, ◌+◌, ◌-◌, ◌*◌, ◌/◌, ◌%◌, ◌^◌, Bool, true, false, not, ◌&&◌, ◌||◌, Option, none,
  some, List, [], ◌∷◌, ltb, leb, ◌==◌, if◌then◌else◌,
}
use aev_os.Kernel.Pmm.{Pmm, page_size, bm_set, bm_clear, bm_test, find_word, pmm_alloc_pages}

abbrev pub slab_pool_size : ℕ
slab_pool_size = 512

abbrev pub slab_max_objects : ℕ
slab_max_objects = 128

-- `PHYS_MAP_BASE`
abbrev pub phys_map_base : ℕ
phys_map_base = 0xFFFF_8000_0000_0000

abbrev pub cache_sizes : List ℕ
cache_sizes = 32 ∷ 64 ∷ 128 ∷ 256 ∷ 512 ∷ 1024 ∷ 2048 ∷ 4096 ∷ 8192 ∷ 16384 ∷ 32768 ∷ 65536 ∷ []

pub record Slab : Type 0 where
  pub base : ℕ
  pub phys : ℕ
  pub total_obj : ℕ
  pub free_count : ℕ
  pub bitmap : List ℕ

pub record Cache : Type 0 where
  pub obj_size : ℕ
  pub pages_per_slab : ℕ
  pub obj_per_slab : ℕ
  pub partial : List Slab
  pub full : List Slab

-- `slab_pool_next`, and the page allocator
pub record Pool : Type 0 where
  pub pool_next : ℕ
  pub pmm : Pmm

pub record Heap : Type 0 where
  pub caches : List Cache
  pub pool : Pool

abbrev pub slab_bm_find_free : Slab → Option ℕ
slab_bm_find_free s = find_word s.bitmap s.total_obj 0 ((s.total_obj + 63) / 64)

abbrev pub new_slab : Cache → ℕ → Slab
new_slab c paddr = record {
  base = paddr + phys_map_base;
  phys = paddr;
  total_obj = c.obj_per_slab;
  free_count = c.obj_per_slab;
  bitmap = 0 ∷ 0 ∷ [];
}

-- `slab_create` with a slab of the pool and the pages asked for
pub with_pages : Cache → ℕ → ℕ × Pmm → Option Slab × Pool
with_pages c next (paddr, p) =
    (if paddr == 0 then none else some (new_slab c paddr), record { pool_next = next; pmm = p })

pub slab_create : Cache → Pool → Option Slab × Pool
slab_create c g =
    if ltb g.pool_next slab_pool_size
    then with_pages c (g.pool_next + 1) (pmm_alloc_pages g.pmm c.pages_per_slab)
    else (none, g)

abbrev pub mark : Slab → ℕ → Slab
mark s idx = record s {
  bitmap = bm_set s.bitmap idx;
  free_count = (s.free_count + 2 ^ 32 - 1) % 2 ^ 32;
}

-- `cache_alloc` with the first partial slab `s` and the index found in it
pub take_at : Cache → Slab → List Slab → Option ℕ → ℕ × Cache
take_at c s rest none = (0, record c { partial = s ∷ rest })
take_at c s rest (some idx) =
    let s' = mark s idx in
    (
      s.base + idx * c.obj_size,
      if s'.free_count == 0
          then record c { partial = rest; full = s' ∷ c.full }
          else record c { partial = s' ∷ rest },
    )

abbrev pub take_object : Cache → Slab → List Slab → ℕ × Cache
take_object c s rest = take_at c s rest (slab_bm_find_free s)

-- `cache_alloc` without a partial slab, with what `slab_create` gives
pub alloc_new : Cache → Option Slab × Pool → ℕ × Cache × Pool
alloc_new c (none, g) = (0, c, g)
alloc_new c (some s, g) = let (a, c') = take_object c s [] in (a, c', g)

pub alloc_in : Cache → Pool → List Slab → ℕ × Cache × Pool
alloc_in c g [] = alloc_new c (slab_create c g)
alloc_in c g (s ∷ rest) = let (a, c') = take_object c s rest in (a, c', g)

pub cache_alloc : Cache → Pool → ℕ × Cache × Pool
unfolding alloc_in alloc_new take_at
cache_alloc c g = alloc_in c g c.partial

-- whether the pointer lies in the slab's pages
abbrev pub owns : ℕ → ℕ → Slab → Bool
owns bytes ptr s = leb s.base ptr && ltb ptr (s.base + bytes)

abbrev pub slab_bytes : Cache → ℕ
slab_bytes c = c.pages_per_slab * page_size

abbrev pub index_of : ℕ → ℕ → Slab → ℕ
index_of size ptr s = (ptr - s.base) % 2 ^ 32 / size

abbrev pub unmark : Slab → ℕ → Slab
unmark s idx = record s { bitmap = bm_clear s.bitmap idx; free_count = (s.free_count + 1) % 2 ^ 32 }

-- a slab whose object at `ptr` is freed, if it is in use
pub free_object : ℕ → ℕ → Slab → Slab
free_object size ptr s =
    let idx = index_of size ptr s in if not (bm_test s.bitmap idx) then s else unmark s idx

pub slab_behind : Slab → Option (List Slab) → Option (List Slab)
slab_behind s none = none
slab_behind s (some ss) = some (s ∷ ss)

-- the walk along `partial`, which frees the object in the first slab that owns the pointer
pub free_partial : Cache → ℕ → List Slab → Option (List Slab)
free_partial c ptr [] = none
free_partial c ptr (s ∷ ss) =
    if owns (slab_bytes c) ptr s
    then some (free_object c.obj_size ptr s ∷ ss)
    else slab_behind s (free_partial c ptr ss)

pub owner_behind : Slab → Option (Slab × List Slab) → Option (Slab × List Slab)
owner_behind s none = none
owner_behind s (some (o, ss)) = some (o, s ∷ ss)

-- the walk along `full`: the first slab that owns the pointer, and the list without it
pub find_full : ℕ → ℕ → List Slab → Option (Slab × List Slab)
find_full bytes ptr [] = none
find_full bytes ptr (s ∷ ss) =
    if owns bytes ptr s then some (s, ss) else owner_behind s (find_full bytes ptr ss)

-- the slab moves from `full` to `partial`, if its object was in use
pub free_full : Cache → ℕ → Option (Slab × List Slab) → Cache
free_full c ptr none = c
free_full c ptr (some (s, rest)) =
    if not (bm_test s.bitmap (index_of c.obj_size ptr s))
    then c
    else record c { partial = unmark s (index_of c.obj_size ptr s) ∷ c.partial; full = rest }

pub free_found : Cache → ℕ → Option (List Slab) → Cache
free_found c ptr none = free_full c ptr (find_full (slab_bytes c) ptr c.full)
free_found c ptr (some ss) = record c { partial = ss }

pub cache_free : Cache → ℕ → Cache
unfolding free_partial free_found free_full find_full
cache_free c ptr = free_found c ptr (free_partial c ptr c.partial)

-- the cache in front of the others, changed or as it was
pub changed_first : List Cache → ℕ × Cache × Pool → ℕ × List Cache × Pool
changed_first cs (a, c, g) = (a, c ∷ cs, g)

pub kept_first : Cache → ℕ × List Cache × Pool → ℕ × List Cache × Pool
kept_first c (a, cs, g) = (a, c ∷ cs, g)

-- `find_cache` and `cache_alloc` on the cache found
pub alloc_fit : ℕ → List Cache → Pool → ℕ × List Cache × Pool
alloc_fit size [] g = (0, [], g)
alloc_fit size (c ∷ cs) g =
    if leb size c.obj_size
    then changed_first cs (cache_alloc c g)
    else kept_first c (alloc_fit size cs g)

pub with_caches : ℕ × List Cache × Pool → ℕ × Heap
with_caches (a, cs, g) = (a, record { caches = cs; pool = g })

pub kmalloc : Heap → ℕ → ℕ × Heap
unfolding alloc_fit changed_first kept_first with_caches
kmalloc h size = if size == 0 then (0, h) else with_caches (alloc_fit size h.caches h.pool)

pub any_owns : ℕ → ℕ → List Slab → Bool
any_owns bytes ptr [] = false
any_owns bytes ptr (s ∷ ss) = owns bytes ptr s || any_owns bytes ptr ss

-- the test of `find_cache_for_ptr` for one cache
abbrev pub cache_owns : Cache → ℕ → Bool
cache_owns c ptr = any_owns (slab_bytes c) ptr c.partial || any_owns (slab_bytes c) ptr c.full

-- `find_cache_for_ptr` and `cache_free` on the cache found
pub free_owner : ℕ → List Cache → List Cache
free_owner ptr [] = []
free_owner ptr (c ∷ cs) = if cache_owns c ptr then cache_free c ptr ∷ cs else c ∷ free_owner ptr cs

pub kfree : Heap → ℕ → Heap
unfolding free_owner
kfree h ptr = if ptr == 0 then h else record h { caches = free_owner ptr h.caches }

-- the object size of the cache that `find_cache_for_ptr` gives
pub owner_size : ℕ → List Cache → Option ℕ
owner_size ptr [] = none
owner_size ptr (c ∷ cs) = if cache_owns c ptr then some c.obj_size else owner_size ptr cs

-- the end of `krealloc`, where a new object is needed
pub move_object : ℕ → ℕ × Heap → ℕ × Heap
move_object ptr (a, h) = if a == 0 then (0, h) else (a, kfree h ptr)

-- `krealloc` with the size of the old object
pub grow : Heap → ℕ → ℕ → Option ℕ → ℕ × Heap
grow h ptr new_size none = (0, h)
grow h ptr new_size (some size) =
    if leb new_size size then (ptr, h) else move_object ptr (kmalloc h new_size)

pub krealloc : Heap → ℕ → ℕ → ℕ × Heap
unfolding owner_size
krealloc h ptr new_size =
    if ptr == 0
    then kmalloc h new_size
    else if new_size == 0
    then (0, kfree h ptr)
    else grow h ptr new_size (owner_size ptr h.caches)

-- the overflow check of `kcalloc`
pub kcalloc : Heap → ℕ → ℕ → ℕ × Heap
kcalloc h count size =
    let total = count * size % 2 ^ 64 in
    if not (count == 0) && not (total / count == size) then (0, h) else kmalloc h total

abbrev pub new_cache : ℕ → Cache
new_cache size =
    let pages = if leb size page_size then 1 else (size + page_size - 1) / page_size in
    let fit = pages * page_size / size in
    record {
      obj_size = size;
      pages_per_slab = pages;
      obj_per_slab = if ltb slab_max_objects fit then slab_max_objects else fit;
      partial = [];
      full = [];
    }

pub new_caches : List ℕ → List Cache
new_caches [] = []
new_caches (size ∷ sizes) = new_cache size ∷ new_caches sizes

-- `slab_init`, on the page allocator as it is
pub slab_init : Pmm → Heap
unfolding new_caches
slab_init p = record { caches = new_caches cache_sizes; pool = record { pool_next = 0; pmm = p } }
