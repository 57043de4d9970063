-- ===== src/Kernel/Slab/FreeCache.antt =====
-- Freeing an object of a cache: `cache_free`, and the test of `find_cache_for_ptr`.
use aev_os.Common.{
  ℕ, ◌+◌, ◌*◌, ◌≤◌, ◌≡◌, refl, true, false, Option, none, some, List, [], ◌∷◌, arith, Bool-cases,
  inl, inr,
}
use aev_os.Kernel.Pmm.{bm_test}
use aev_os.Kernel.Slab.{Slab, Cache, owns, slab_bytes, unmark, free_partial, find_full}
use aev_os.Kernel.Slab.Holders.{held, holders_list, cover_list}
use aev_os.Kernel.Slab.Object.{IsSlab, page_of, unmark-IsSlab, free_count-unmark, holders-unmark}
use aev_os.Kernel.Slab.CacheInv.{All, All-mono, holders_list-le}
use aev_os.Kernel.Slab.{cache_owns, any_owns, free_full, free_found, cache_free}
use aev_os.Kernel.Slab.Holders.{holders_cache, cover_cache, IsObjectIn}
use aev_os.Kernel.Slab.CacheInv.{IsCache, IsShape-lists}
use aev_os.Kernel.Slab.Release.{
  Frees, false-not_gone, no_owner, owner_covers, idx, idx-lt, unused, freed, inside_object,
}
use aev_os.Kernel.Slab.FreeLists.{
  FreesPartial, FindsFull, free_partial-FreesPartial, find_full-FindsFull,
}

-- What freeing does to a cache.
pub record FreesIn (c : Cache) (ptr : ℕ) (c' : Cache) : Type 0 where
  pub valid : IsCache c'
  pub cover : (p : ℕ) → cover_cache p c' ≡ cover_cache p c
  pub frees :
      Frees
        (λ a. IsObjectIn c.obj_size a c)
        c.obj_size
        ptr
        (λ b. holders_cache b c)
        (λ b. holders_cache b c')

module _ (c : Cache) (v : IsCache c) (ptr : ℕ) where
  -- The byte has no object in use.
  untouched :
      holders_cache ptr c ≡ 0
      → Frees
          (λ a. IsObjectIn c.obj_size a c)
          c.obj_size
          ptr
          (λ b. holders_cache b c)
          (λ b. holders_cache b c)
  untouched e = record {
    start = ptr;
    gone = false;
    real = λ g. absurd (false-not_gone g);
    inside = ground (arith, v.shape.size_pos);
    object = λ b. omega arith;
    nothing = e;
  }

  free_full-FreesIn :
      (r : Option (Slab × List Slab))
      → holders_list c.obj_size ptr c.partial ≡ 0
      → FindsFull c v.shape ptr c.full r
      → FreesIn c ptr (free_full c ptr r)
  unfolding free_full holders_cache cover_cache holders_list cover_list
  free_full-FreesIn none empty h = record {
    valid = v;
    cover = λ p. refl;
    frees = untouched (omega (arith, empty, h));
  }
  free_full-FreesIn (some (s, rest)) empty (vs, vr, owned, cover, among, held, none_left) =
      elim (Bool-cases (bm_test s.bitmap (idx c v.shape ptr s vs.0 owned))) [
        | inl used ↦
            let i = idx c v.shape ptr s vs.0 owned in
            let lt = idx-lt c v.shape ptr s vs.0 owned in
            let gone = free_count-unmark c.obj_per_slab s i v.shape.few vs.0 lt used in
            rw used (record {
              valid = record {
                shape = IsShape-lists c (unmark s i ∷ c.partial) rest v.shape;
                partial = (
                  (unmark-IsSlab c.obj_per_slab s i v.shape.few vs.0 lt used, omega (arith, gone)),
                  v.partial,
                );
                full = vr;
              };
              cover = λ p. omega (arith, cover p);
              frees = record {
                start = s.base + i * c.obj_size;
                gone = true;
                real = λ g. (
                  refl,
                  inr (
                      among (s.base + i * c.obj_size)
                        (i, omega (arith, lt, vs.0.total), used, refl)),
                );
                inside = inside_object c v.shape ptr s vs.0 owned;
                object = λ b. omega (
                  arith,
                  held b,
                  holders-unmark c.obj_per_slab s i v.shape.few vs.0 lt c.obj_size b used,
                );
                nothing = omega (arith, empty, none_left, freed c v.shape ptr s vs.0 owned used);
              };
            })
        | inr free ↦ rw free (record {
          valid = v;
          cover = λ p. refl;
          frees =
              untouched
                (omega (arith, empty, none_left, held ptr, unused c v.shape ptr s vs.0 owned free));
        })
      ]

  free_found-FreesIn :
      (r : Option (List Slab))
      → cover_cache (page_of ptr) c ≤ 1
      → FreesPartial c v.shape ptr c.partial r
      → FreesIn c ptr (free_found c ptr r)
  unfolding free_found holders_cache cover_cache
  free_found-FreesIn none le h =
      free_full-FreesIn (find_full (slab_bytes c) ptr c.full) h
        (find_full-FindsFull c v.shape ptr c.full v.full (omega (arith, le)))
  free_found-FreesIn (some ss) le (vs, cover, one, fr) =
      let empty : holders_list c.obj_size ptr c.full ≡ 0 = omega (
        arith,
        holders_list-le c c.full ptr v.shape (All-mono _ _ c.full (λ s h. h.0) v.full),
        one,
        le,
      ) in
      record {
        valid = record { shape = IsShape-lists c ss c.full v.shape; partial = vs; full = v.full };
        cover = λ p. omega (arith, cover p);
        frees = record {
          start = fr.start;
          gone = fr.gone;
          real = λ g. (refl, inl (fr.real g));
          inside = fr.inside;
          object = λ b. omega (arith, fr.object b);
          nothing = omega (arith, fr.nothing, empty);
        };
      }

  pub cache_free-FreesIn : cover_cache (page_of ptr) c ≤ 1 → FreesIn c ptr (cache_free c ptr)
  unfolding cache_free cover_cache
  cache_free-FreesIn le =
      free_found-FreesIn (free_partial c ptr c.partial) le
        (free_partial-FreesPartial c v.shape ptr c.partial v.partial (omega (arith, le)))

  -- The test of `find_cache_for_ptr`.
  any_owns-false :
      (ss : List Slab)
      → All (IsSlab c.obj_per_slab) ss
      → any_owns (slab_bytes c) ptr ss ≡ false
      → holders_list c.obj_size ptr ss ≡ 0
  unfolding any_owns holders_list
  any_owns-false [] vs h = refl
  any_owns-false (s ∷ ss) (vs, rest) h = elim (Bool-cases (owns (slab_bytes c) ptr s)) [
    | inl owned ↦ ground (arith, owned)
    | inr away ↦
        omega (arith, no_owner c v.shape ptr s vs away, any_owns-false ss rest (rw away at h))
  ]

  any_owns-true :
      (ss : List Slab)
      → All (IsSlab c.obj_per_slab) ss
      → any_owns (slab_bytes c) ptr ss ≡ true
      → 1 ≤ cover_list c.pages_per_slab (page_of ptr) ss
  unfolding any_owns cover_list
  any_owns-true [] vs h = ground arith
  any_owns-true (s ∷ ss) (vs, rest) h = elim (Bool-cases (owns (slab_bytes c) ptr s)) [
    | inl owned ↦ omega (arith, owner_covers c v.shape ptr s vs owned)
    | inr away ↦ omega (arith, any_owns-true ss rest (rw away at h))
  ]

  partial_slabs : All (IsSlab c.obj_per_slab) c.partial
  partial_slabs = All-mono _ _ c.partial (λ s h. h.0) v.partial

  full_slabs : All (IsSlab c.obj_per_slab) c.full
  full_slabs = All-mono _ _ c.full (λ s h. h.0) v.full

  pub cache_owns-false : cache_owns c ptr ≡ false → holders_cache ptr c ≡ 0
  unfolding holders_cache
  cache_owns-false h = elim (Bool-cases (any_owns (slab_bytes c) ptr c.partial)) [
    | inl e ↦ absurd (ground (arith, e))
    | inr e ↦ omega (
      arith,
      any_owns-false c.partial partial_slabs e,
      any_owns-false c.full full_slabs (rw e at h),
    )
  ]

  pub cache_owns-true : cache_owns c ptr ≡ true → 1 ≤ cover_cache (page_of ptr) c
  unfolding cover_cache
  cache_owns-true h = elim (Bool-cases (any_owns (slab_bytes c) ptr c.partial)) [
    | inl e ↦ omega (arith, any_owns-true c.partial partial_slabs e)
    | inr e ↦ omega (arith, any_owns-true c.full full_slabs (rw e at h))
  ]
