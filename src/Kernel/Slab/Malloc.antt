-- ===== src/Kernel/Slab/Malloc.antt =====
-- `kmalloc`: the object it returns is no one else's.
use aev_os.Common.{
  ℕ, ◌+◌, ◌≤◌, ◌≡◌, ◌≢◌, refl, List, [], ◌∷◌, leb, ◌==◌, if◌then◌else◌, arith, Bool-cases, inl, inr,
}
use aev_os.Kernel.Pmm.Inv as PmmInv
use aev_os.Kernel.Slab.{
  Cache, Pool, Heap, cache_alloc, changed_first, kept_first, alloc_fit, with_caches, kmalloc,
}
use aev_os.Kernel.Slab.Holders.{
  in_block, one_if, holders_cache, holders_caches, holders, cover_cache, cover_caches,
}
use aev_os.Kernel.Slab.Object.{page_of}
use aev_os.Kernel.Slab.CacheInv.{All-mono, holders_list-le, IsCache}
use aev_os.Kernel.Slab.Alloc.{used, Allocates, After, cache_alloc-After}

abbrev pub AllCaches : List Cache → Type 0
AllCaches [] = Unit
AllCaches (c ∷ cs) = IsCache c × AllCaches cs

-- The heap: valid caches and page allocator, and a page is in one slab at most, and only if it is in
-- use there.
pub record IsValid (h : Heap) : Type 0 where
  pub caches : AllCaches h.caches
  pub pmm : PmmInv.IsValid h.pool.pmm
  pub apart : (q : ℕ) → cover_caches q h.caches ≤ used h.pool.pmm q

-- The caches behind `alloc_fit`.
AfterAll : ℕ → List Cache → Pool → ℕ × List Cache × Pool → Type 0
AfterAll size cs g (a, cs', g') =
    AllCaches cs'
    × (slot : ℕ) × (a ≢ 0 → size ≤ slot)
    × Allocates slot g.pmm g'.pmm a (λ b. holders_caches b cs) (λ b. holders_caches b cs')
        (λ q. cover_caches q cs) (λ q. cover_caches q cs')

changed-AfterAll :
    (size : ℕ) (c : Cache) (cs : List Cache) (g : Pool) (r : ℕ × Cache × Pool) (v : IsCache c)
    (pv : PmmInv.IsValid g.pmm)
    → AllCaches cs
    → size ≤ c.obj_size
    → After c g v pv r
    → AfterAll size (c ∷ cs) g (changed_first cs r)
unfolding AfterAll changed_first holders_caches cover_caches
changed-AfterAll size c cs g (a, c', g') v pv vs le (v', same, al) = (
  (v', vs),
  c.obj_size,
  λ ne. le,
  record {
    more = al.more;
    pmm = al.pmm;
    covered = λ q. omega (arith, al.covered q);
    fresh = al.fresh;
    object = λ b. omega (arith, al.object b);
  },
)

kept-AfterAll :
    (size : ℕ) (c : Cache) (cs : List Cache) (g : Pool) (r : ℕ × List Cache × Pool)
    → IsCache c
    → AfterAll size cs g r
    → AfterAll size (c ∷ cs) g (kept_first c r)
unfolding AfterAll kept_first holders_caches cover_caches
kept-AfterAll size c cs g (a, cs', g') v (vs, slot, le, al) = (
  (v, vs),
  slot,
  le,
  record {
    more = al.more;
    pmm = al.pmm;
    covered = λ q. omega (arith, al.covered q);
    fresh = al.fresh;
    object = λ b. omega (arith, al.object b);
  },
)

alloc_fit-AfterAll :
    (size : ℕ) (cs : List Cache) (g : Pool)
    → AllCaches cs
    → PmmInv.IsValid g.pmm
    → AfterAll size cs g (alloc_fit size cs g)
unfolding AfterAll alloc_fit
alloc_fit-AfterAll size [] g vs pv = (
  tt,
  0,
  λ ne. absurd (ne refl),
  record {
    more = λ q. 0;
    pmm = pv;
    covered = λ q. omega arith;
    fresh = λ q. omega arith;
    object = λ b. omega arith;
  },
)
alloc_fit-AfterAll size (c ∷ cs) g (v, vs) pv = elim (Bool-cases (leb size c.obj_size)) [
  | inl l ↦ rw l (
      changed-AfterAll size c cs g (cache_alloc c g) v pv vs (ground arith)
        (cache_alloc-After c g v pv))
  | inr l ↦
      rw l (kept-AfterAll size c cs g (alloc_fit size cs g) v (alloc_fit-AfterAll size cs g vs pv))
]

-- What `kmalloc` does on a heap `h`: it returns 0 and changes no object, or returns the address of a
-- block of at least `size` bytes, which becomes an object in use beside the others.
pub record Mallocs (size : ℕ) (h : Heap) (r : ℕ × Heap) : Type 0 where
  pub slot : ℕ
  pub big : r.0 ≢ 0 → size ≤ slot
  pub valid : IsValid r.1
  pub object :
      (b : ℕ) → holders b r.1 ≡ holders b h + (if r.0 == 0 then 0 else one_if (in_block r.0 slot b))

with_caches-Mallocs :
    (size : ℕ) (h : Heap) (r : ℕ × List Cache × Pool)
    → IsValid h
    → AfterAll size h.caches h.pool r
    → Mallocs size h (with_caches r)
unfolding AfterAll with_caches holders
with_caches-Mallocs size h (a, cs, g) v (vs, slot, le, al) = record {
  slot = slot;
  big = le;
  valid = record {
    caches = vs;
    pmm = al.pmm;
    apart = λ q. omega (arith, v.apart q, al.covered q, al.fresh q);
  };
  object = al.object;
}

-- kmalloc of a valid heap leaves a valid heap. It returns 0 and changes no object, or returns the
-- address of a block of at least size bytes, and a byte is then held by the objects that held it
-- before and, if it is in the block, by one more.
pub kmalloc-Mallocs : (h : Heap) (size : ℕ) → IsValid h → Mallocs size h (kmalloc h size)
unfolding kmalloc
kmalloc-Mallocs h size v = elim (Bool-cases (size == 0)) [
  | inl z ↦
      rw z (record { slot = 0; big = λ ne. absurd (ne refl); valid = v; object = λ b. omega arith })
  | inr z ↦ rw z (
      with_caches-Mallocs size h (alloc_fit size h.caches h.pool) v
        (alloc_fit-AfterAll size h.caches h.pool v.caches v.pmm))
]

pub holders_cache-le :
    (c : Cache) (b : ℕ) → IsCache c → holders_cache b c ≤ cover_cache (page_of b) c
unfolding holders_cache cover_cache
holders_cache-le c b v = omega (
  arith,
  holders_list-le c c.partial b v.shape (All-mono _ _ c.partial (λ s h. h.0) v.partial),
  holders_list-le c c.full b v.shape (All-mono _ _ c.full (λ s h. h.0) v.full),
)

pub holders_caches-le :
    (cs : List Cache) (b : ℕ) → AllCaches cs → holders_caches b cs ≤ cover_caches (page_of b) cs
unfolding holders_caches cover_caches
holders_caches-le [] b vs = omega arith
holders_caches-le (c ∷ cs) b (v, vs) =
    omega (arith, holders_cache-le c b v, holders_caches-le cs b vs)

-- No byte belongs to two objects in use of a valid heap.
pub holders-le_one : (h : Heap) (b : ℕ) → IsValid h → holders b h ≤ 1
unfolding holders
holders-le_one h b v = ground (arith, holders_caches-le h.caches b v.caches, v.apart (page_of b))
