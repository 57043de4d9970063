-- ===== src/Kernel/Slab/Alloc.antt =====
-- `cache_alloc`: the object it takes, and the pages a new slab brings.
use aev_os.Common.{
  ℕ, ◌+◌, ◌*◌, ◌/◌, ◌≤◌, ◌≡◌, ◌≢◌, refl, ap, sym, subst, ◌∙◌, true, List, [], ◌∷◌, ltb, ◌==◌,
  if◌then◌else◌, arith, Bool-cases, inl, inr,
}
use aev_os.Kernel.Pmm.{Pmm, page_size, bm_test, pmm_alloc_pages}
use aev_os.Kernel.Pmm.Inv as PmmInv
use aev_os.Kernel.Pmm.Alloc.{pmm_alloc_pages-IsValid}
use aev_os.Kernel.Slab.{
  Slab, Cache, Pool, slab_pool_size, new_slab, take_object, slab_create, with_pages, alloc_new,
  alloc_in, cache_alloc,
}
use aev_os.Kernel.Slab.Pages.{GivesPages, pmm_alloc_pages-GivesPages}
use aev_os.Kernel.Slab.Holders.{
  in_block, one_if, holders_list, holders_cache, covers, cover_list, cover_cache,
}
use aev_os.Kernel.Slab.Object.{new_slab-IsSlab, holders-new_slab}
use aev_os.Kernel.Slab.CacheInv.{All, IsPartial, IsCache, take_object-TakesObject}

-- Whether a page is in use, as a number.
abbrev pub used : Pmm → ℕ → ℕ
used p q = one_if (bm_test p.bitmap q)

-- What an allocation does to the numbers of holders and of slabs with a page: `more` counts the
-- pages that a new slab brings, which were free.
pub record Allocates (size : ℕ) (p p' : Pmm) (a : ℕ) (held held' cover cover' : ℕ → ℕ)
    : Type 0 where
  pub more : ℕ → ℕ
  pub pmm : PmmInv.IsValid p'
  pub covered : (q : ℕ) → cover' q ≡ cover q + more q
  pub fresh : (q : ℕ) → used p q + more q ≤ used p' q
  pub object : (b : ℕ) → held' b ≡ held b + (if a == 0 then 0 else one_if (in_block a size b))

module _ (c : Cache) (g : Pool) (v : IsCache c) (pv : PmmInv.IsValid g.pmm) where
  -- the state behind `cache_alloc`
  abbrev pub After : ℕ × Cache × Pool → Type 0
  After (a, c', g') =
      IsCache c'
      × (c'.obj_size ≡ c.obj_size)
      × Allocates c.obj_size g.pmm g'.pmm a (λ b. holders_cache b c) (λ b. holders_cache b c')
          (λ q. cover_cache q c) (λ q. cover_cache q c')

  unchanged :
      (next : ℕ) (p : Pmm)
      → PmmInv.IsValid p
      → ((q : ℕ) → bm_test g.pmm.bitmap q ≡ true → bm_test p.bitmap q ≡ true)
      → After (0, c, record { pool_next = next; pmm = p })
  unchanged next p pv' keeps = (
    v,
    refl,
    record {
      more = λ q. 0;
      pmm = pv';
      covered = λ q. omega arith;
      fresh = λ q. ground (arith, keeps q);
      object = λ b. omega arith;
    },
  )

  from_partial :
      (s : Slab) (rest : List Slab)
      → c.partial ≡ s ∷ rest
      → After ((take_object c s rest).0, (take_object c s rest).1, g)
  unfolding holders_cache cover_cache
  from_partial s rest e =
      let vs = subst (All (IsPartial c.obj_per_slab)) e v.partial in
      let t = take_object-TakesObject c s rest v.shape vs.0 vs.1 v.full in
      (
        t.valid,
        t.size,
        record {
          more = λ q. 0;
          pmm = pv;
          covered = λ q. omega (arith, t.cover q, ap (cover_list c.pages_per_slab q) e);
          fresh = λ q. omega arith;
          object = λ b.
              ground
                (arith, t.holders b, ap (holders_list c.obj_size b) e, t.address, vs.0.0.mapped);
        },
      )

  from_new :
      (next start : ℕ) (p : Pmm)
      → start * page_size ≢ 0
      → PmmInv.IsValid p
      → GivesPages g.pmm c.pages_per_slab (start * page_size, p)
      → c.partial ≡ []
      → let s = new_slab c (start * page_size) in
        After ((take_object c s []).0, (take_object c s []).1, record { pool_next = next; pmm = p })
  unfolding holders_cache cover_cache holders_list cover_list
  from_new next start p ne pv' gives e =
      let s = new_slab c (start * page_size) in
      let vs = new_slab-IsSlab c start v.shape.few in
      let t = take_object-TakesObject c s [] v.shape (vs, v.shape.some) tt v.full in
      let same : gives.start * page_size ≡ start * page_size = sym (gives.address ne) in
      let page : start * page_size / page_size ≡ start = omega arith in
      (
        t.valid,
        t.size,
        record {
          more = λ q. covers c.pages_per_slab q s;
          pmm = pv';
          covered = λ q. omega (arith, t.cover q, ap (cover_list c.pages_per_slab q) e);
          fresh =
              λ q. ground (arith, gives.keeps q, gives.free ne q, gives.marked ne q, same, page);
          object = λ b. ground (
            arith,
            t.holders b,
            holders-new_slab c (start * page_size) b,
            ap (holders_list c.obj_size b) e,
            t.address,
          );
        },
      )

  with_pages-After :
      (next : ℕ) (r : ℕ × Pmm)
      → PmmInv.IsValid r.1
      → GivesPages g.pmm c.pages_per_slab r
      → c.partial ≡ []
      → After (alloc_new c (with_pages c next r))
  unfolding alloc_new with_pages
  with_pages-After next (paddr, p) pv' gives e = elim (Bool-cases (paddr == 0)) [
    | inl z ↦ rw z (unchanged next p pv' gives.keeps)
    | inr z ↦
        let ne : paddr ≢ 0 = λ h. absurd (ground arith) in
        let at : paddr ≡ gives.start * page_size = gives.address ne in
        rw z (
          subst
            (λ a. After (
              (take_object c (new_slab c a) []).0,
              (take_object c (new_slab c a) []).1,
              record { pool_next = next; pmm = p },
            ))
            (sym at)
            (from_new next gives.start p (λ h. ne (at ∙ h)) pv'
              (subst (λ a. GivesPages g.pmm c.pages_per_slab (a, p)) at gives) e))
  ]

  slab_create-After : c.partial ≡ [] → After (alloc_new c (slab_create c g))
  unfolding slab_create alloc_new
  slab_create-After e = elim (Bool-cases (ltb g.pool_next slab_pool_size)) [
    | inl l ↦ rw l (
        with_pages-After (g.pool_next + 1) (pmm_alloc_pages g.pmm c.pages_per_slab)
          (pmm_alloc_pages-IsValid c.pages_per_slab pv)
          (pmm_alloc_pages-GivesPages c.pages_per_slab v.shape.pages pv) e)
    | inr l ↦ rw l (unchanged g.pool_next g.pmm pv (λ q h. h))
  ]

  pub cache_alloc-After : After (cache_alloc c g)
  unfolding cache_alloc alloc_in
  cache_alloc-After = go c.partial refl
    where
      go : (ss : List Slab) → c.partial ≡ ss → After (alloc_in c g ss)
      go [] e = slab_create-After e
      go (s ∷ rest) e = from_partial s rest e
