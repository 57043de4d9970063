-- ===== src/Kernel/Slab/Release.antt =====
-- The lists of slabs when an object is freed: `free_object`, `free_partial` and `find_full`.
use aev_os.Common.{
  ℕ, ◌+◌, ◌-◌, ◌*◌, ◌/◌, ◌<◌, ◌≡◌, refl, ap, Bool, true, false, ◌&&◌, arith, Bool-cases, inl, inr,
}
use native.Mathlib.Nat.{div-mul-le_self, div-lt_iff_lt-mul, lt-div-mul-add}
use aev_os.Kernel.Pmm.{bm_set, bm_test}
use aev_os.Kernel.Slab.{Slab, Cache, owns, slab_bytes, index_of, unmark, free_object}
use aev_os.Kernel.Slab.Holders.{
  in_block, in_object, one_if, held-le, held-bm_set, holders_slab, covers, IsObject,
}
use aev_os.Kernel.Slab.Object.{
  IsShape, IsSlab, page_of, holders_slab-le, unmark-IsSlab, free_count-unmark, holders-unmark,
}
use aev_os.Kernel.Slab.CacheInv.{IsPartial}

-- What freeing does to the numbers of holders: either they stay as they were, or they fall by one
-- for the bytes of the object at `start`, which has the byte `ptr` and was in use, and no others.
-- No object in use has the byte `ptr` any more. `InUse` has the starts of the objects in use before.
pub record Frees (InUse : ℕ → Type 0) (size ptr : ℕ) (before after : ℕ → ℕ) : Type 0 where
  pub start : ℕ
  pub gone : Bool
  pub real : gone ≡ true → InUse start
  pub inside : in_block start size ptr ≡ true
  pub object : (b : ℕ) → after b + one_if (gone && in_block start size b) ≡ before b
  pub nothing : after ptr ≡ 0

pub false-not_gone : false ≡ true → ⊥
false-not_gone g = omega (arith, ap one_if g)

module _ (c : Cache) (sh : IsShape c) (ptr : ℕ) where
  pub no_owner :
      (s : Slab)
      → IsSlab c.obj_per_slab s
      → owns (slab_bytes c) ptr s ≡ false
      → holders_slab c.obj_size ptr s ≡ 0
  unfolding holders_slab
  no_owner s v away =
      rw v.total
        (ground (arith, held-le s.bitmap s.base c.obj_size c.obj_per_slab ptr, sh.fits, away))

  pub owner_covers :
      (s : Slab)
      → IsSlab c.obj_per_slab s
      → owns (slab_bytes c) ptr s ≡ true
      → covers c.pages_per_slab (page_of ptr) s ≡ 1
  owner_covers s v owned = ground (arith, v.mapped, v.aligned)

  module _ (s : Slab) (v : IsSlab c.obj_per_slab s) (yes : owns (slab_bytes c) ptr s ≡ true) where
    abbrev pub idx : ℕ
    idx = index_of c.obj_size ptr s

    small_offset : ptr - s.base < 65536
    small_offset = ground (arith, sh.small)

    idx-eq : idx ≡ (ptr - s.base) / c.obj_size
    idx-eq = ap (λ x. x / c.obj_size) (omega (arith, small_offset))

    pub inside_object : in_object s.base c.obj_size idx ptr ≡ true
    inside_object = ground (
      arith,
      idx-eq,
      div-mul-le_self (ptr - s.base) c.obj_size,
      lt-div-mul-add {a = ptr - s.base} sh.size_pos,
    )

    pub idx-lt : idx < c.obj_per_slab
    idx-lt = rw idx-eq (
        (div-lt_iff_lt-mul {x = ptr - s.base} {y = c.obj_per_slab} sh.size_pos).1
          (ground (arith, sh.fits)))

    -- An object that is not in use: no object in use has the byte.
    pub unused : bm_test s.bitmap idx ≡ false → holders_slab c.obj_size ptr s ≡ 0
    unfolding holders_slab
    unused free = rw v.total (
        ground (
          arith,
          held-bm_set s.bitmap s.base c.obj_size idx ptr (omega (arith, idx-lt, sh.few, v.words))
              c.obj_per_slab idx-lt free,
          held-le (bm_set s.bitmap idx) s.base c.obj_size c.obj_per_slab ptr,
          inside_object,
        ))

    pub freed : bm_test s.bitmap idx ≡ true → holders_slab c.obj_size ptr (unmark s idx) ≡ 0
    unfolding holders_slab
    freed used = ground (
      arith,
      holders-unmark c.obj_per_slab s idx sh.few v idx-lt c.obj_size ptr used,
      holders_slab-le c s ptr sh v,
      inside_object,
    )

    pub free_object-Frees :
        Frees
          (λ a. IsObject c.obj_size a s)
          c.obj_size
          ptr
          (λ b. holders_slab c.obj_size b s)
          (λ b. holders_slab c.obj_size b (free_object c.obj_size ptr s))
    unfolding free_object holders_slab
    free_object-Frees = elim (Bool-cases (bm_test s.bitmap idx)) [
      | inl used ↦ rw used (record {
        start = s.base + idx * c.obj_size;
        gone = true;
        real = λ g. (idx, omega (arith, idx-lt, v.total), used, refl);
        inside = inside_object;
        object = λ b. holders-unmark c.obj_per_slab s idx sh.few v idx-lt c.obj_size b used;
        nothing = freed used;
      })
      | inr free ↦ rw free (record {
        start = s.base + idx * c.obj_size;
        gone = false;
        real = λ g. absurd (false-not_gone g);
        inside = inside_object;
        object = λ b. omega arith;
        nothing = unused free;
      })
    ]

    pub free_object-IsPartial :
        0 < s.free_count → IsPartial c.obj_per_slab (free_object c.obj_size ptr s)
    unfolding free_object
    free_object-IsPartial any = elim (Bool-cases (bm_test s.bitmap idx)) [
      | inl used ↦ rw used (
        unmark-IsSlab c.obj_per_slab s idx sh.few v idx-lt used,
        omega (arith, free_count-unmark c.obj_per_slab s idx sh.few v idx-lt used),
      )
      | inr free ↦ rw free (v, any)
    ]

    pub free_object-phys : (free_object c.obj_size ptr s).phys ≡ s.phys
    unfolding free_object
    free_object-phys = elim (Bool-cases (bm_test s.bitmap idx)) [
      | inl used ↦ rw used refl
      | inr free ↦ rw free refl
    ]
