-- ===== src/Kernel/Slab/CacheInv.antt =====
-- The invariant of a cache, and what taking an object from it does.
use aev_os.Common.{
  ℕ, ◌+◌, ◌*◌, ◌≤◌, ◌<◌, ◌≡◌, ◌≢◌, refl, true, false, Option, none, some, List, [], ◌∷◌, ◌==◌,
  arith, Bool-cases, inl, inr,
}
use aev_os.Kernel.Pmm.{bm_test}
use aev_os.Kernel.Pmm.Bitmap.{count_free-used}
use aev_os.Kernel.Pmm.Scan.{IsFirstFree}
use aev_os.Kernel.Slab.{Slab, Cache, slab_bm_find_free, mark, take_at, take_object}
use aev_os.Kernel.Slab.Holders.{
  in_block, one_if, holders_list, holders_cache, cover_list, cover_cache,
}
use aev_os.Kernel.Slab.Object.{
  IsShape, IsSlab, page_of, find_free-IsFirstFree, mark-IsSlab, holders-mark, holders_slab-le,
}

-- `P` of every slab
abbrev pub All : (Slab → Type 0) → List Slab → Type 0
All P [] = Unit
All P (s ∷ ss) = P s × All P ss

abbrev pub IsPartial : ℕ → Slab → Type 0
IsPartial n s = IsSlab n s × (0 < s.free_count)

abbrev pub IsFull : ℕ → Slab → Type 0
IsFull n s = IsSlab n s × (s.free_count ≡ 0)

pub record IsCache (c : Cache) : Type 0 where
  pub shape : IsShape c
  pub partial : All (IsPartial c.obj_per_slab) c.partial
  pub full : All (IsFull c.obj_per_slab) c.full

-- The sizes do not depend on the slabs.
pub IsShape-lists :
    (c : Cache) (ss ts : List Slab) → IsShape c → IsShape (record c { partial = ss; full = ts })
IsShape-lists c ss ts sh = record {
  size_pos = sh.size_pos;
  some = sh.some;
  few = sh.few;
  fits = sh.fits;
  pages = sh.pages;
  small = sh.small;
}

pub All-mono :
    (P Q : Slab → Type 0) (ss : List Slab) → ((s : Slab) → P s → Q s) → All P ss → All Q ss
All-mono P Q [] f h = tt
All-mono P Q (s ∷ ss) f (h, hs) = (f s h, All-mono P Q ss f hs)

pub holders_list-le :
    (c : Cache) (ss : List Slab) (b : ℕ)
    → IsShape c
    → All (IsSlab c.obj_per_slab) ss
    → holders_list c.obj_size b ss ≤ cover_list c.pages_per_slab (page_of b) ss
unfolding holders_list cover_list
holders_list-le c [] b sh v = omega arith
holders_list-le c (s ∷ ss) b sh (v, vs) =
    omega (arith, holders_slab-le c s b sh v, holders_list-le c ss b sh vs)

-- What `cache_alloc` does to a cache whose partial slabs are `s ∷ rest`.
pub record TakesObject (c : Cache) (s : Slab) (rest : List Slab) (r : ℕ × Cache) : Type 0 where
  pub idx : ℕ
  pub inside : idx < c.obj_per_slab
  pub address : r.0 ≡ s.base + idx * c.obj_size
  pub valid : IsCache r.1
  pub size : r.1.obj_size ≡ c.obj_size
  pub holders :
      (b : ℕ)
      → holders_cache b r.1
        ≡ holders_list c.obj_size b (s ∷ rest)
          + holders_list c.obj_size b c.full
          + one_if (in_block r.0 c.obj_size b)
  pub cover :
      (p : ℕ)
      → cover_cache p r.1
        ≡ cover_list c.pages_per_slab p (s ∷ rest) + cover_list c.pages_per_slab p c.full

module _ (c : Cache) (s : Slab) (rest : List Slab) (sh : IsShape c) (v : IsPartial c.obj_per_slab s)
    (vs : All (IsPartial c.obj_per_slab) rest) (vf : All (IsFull c.obj_per_slab) c.full) where
  some_free : slab_bm_find_free s ≢ none
  some_free e =
      let used : (q : ℕ) → 0 ≤ q → q < c.obj_per_slab → bm_test s.bitmap q ≡ true =
        rw e at (find_free-IsFirstFree c.obj_per_slab s v.0) in
      let none_free = count_free-used s.bitmap c.obj_per_slab (λ q h. used q (omega arith) h) in
      absurd (omega (arith, none_free, v.0.counted, v.1))

  take_idx :
      (idx : ℕ)
      → idx < c.obj_per_slab
      → bm_test s.bitmap idx ≡ false
      → TakesObject c s rest (take_at c s rest (some idx))
  unfolding take_at holders_cache holders_list cover_cache cover_list
  take_idx idx inside free =
      let s' = mark s idx in
      let v' : IsSlab c.obj_per_slab s' = mark-IsSlab c.obj_per_slab s idx sh.few v.0 inside free in
      elim (Bool-cases (s'.free_count == 0)) [
        | inl z ↦ rw z (record {
          idx = idx;
          inside = inside;
          address = refl;
          valid = record {
            shape = IsShape-lists c rest (s' ∷ c.full) sh;
            partial = vs;
            full = ((v', ground arith), vf);
          };
          size = refl;
          holders = λ b.
              omega (arith, holders-mark c.obj_per_slab s idx sh.few v.0 inside c.obj_size b free);
          cover = λ p. omega arith;
        })
        | inr z ↦ rw z (record {
          idx = idx;
          inside = inside;
          address = refl;
          valid = record {
            shape = IsShape-lists c (s' ∷ rest) c.full sh;
            partial = ((v', ground arith), vs);
            full = vf;
          };
          size = refl;
          holders = λ b.
              omega (arith, holders-mark c.obj_per_slab s idx sh.few v.0 inside c.obj_size b free);
          cover = λ p. omega arith;
        })
      ]

  pub take_object-TakesObject : TakesObject c s rest (take_object c s rest)
  take_object-TakesObject =
      go (slab_bm_find_free s) some_free (find_free-IsFirstFree c.obj_per_slab s v.0)
    where
      go :
          (r : Option ℕ)
          → r ≢ none
          → IsFirstFree s.bitmap 0 c.obj_per_slab r
          → TakesObject c s rest (take_at c s rest r)
      go none ne f = absurd (ne refl)
      go (some idx) ne (lo, inside, free, below) = take_idx idx inside free
