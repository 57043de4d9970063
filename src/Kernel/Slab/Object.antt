-- ===== src/Kernel/Slab/Object.antt =====
-- A slab that counts its free objects, and what taking and freeing an object do to it.
use aev_os.Common.{
  ℕ, zero, suc, ◌+◌, ◌-◌, ◌*◌, ◌/◌, ◌≤◌, ◌<◌, ◌≡◌, refl, sym, ◌∙◌, true, false, [], ◌∷◌, arith,
  length, get_or,
}
use aev_os.Kernel.Pmm.{page_size, bm_clear, bm_test}
use aev_os.Kernel.Pmm.Bitmap.{
  Words, length-bm_set, length-bm_clear, bm_set-Words, bm_clear-Words, count_free, count_free-le,
  count_free-bm_set, count_free-bm_clear, bm_test-zeros, count_free_all,
}
use aev_os.Kernel.Pmm.Scan.{IsFirstFree, find_word-IsFirstFree}
use aev_os.Kernel.Slab.{Slab, Cache, phys_map_base, slab_bm_find_free, new_slab, mark, unmark}
use aev_os.Kernel.Slab.Holders.{
  in_object, one_if, held-le, held-empty, held-bm_set, held-bm_clear, holders_slab, covers,
}

-- The sizes of a cache: its objects are the pages of a slab.
pub record IsShape (c : Cache) : Type 0 where
  pub size_pos : 0 < c.obj_size
  pub some : 0 < c.obj_per_slab
  pub few : c.obj_per_slab ≤ 128
  pub fits : c.obj_per_slab * c.obj_size ≡ c.pages_per_slab * page_size
  pub pages : 0 < c.pages_per_slab
  pub small : c.pages_per_slab ≤ 16

-- a slab of `n` objects
pub record IsSlab (n : ℕ) (s : Slab) : Type 0 where
  pub words : length s.bitmap ≡ 2
  pub fits : Words s.bitmap
  pub total : s.total_obj ≡ n
  pub counted : s.free_count ≡ count_free s.bitmap n
  pub mapped : s.base ≡ s.phys + phys_map_base
  pub aligned : s.phys ≡ s.phys / page_size * page_size

pub find_free-IsFirstFree :
    (n : ℕ) (s : Slab) → IsSlab n s → IsFirstFree s.bitmap 0 n (slab_bm_find_free s)
find_free-IsFirstFree n s v =
    rw v.total (find_word-IsFirstFree s.bitmap n 0 ((n + 63) / 64) v.fits (omega arith))

module _ (n : ℕ) (s : Slab) (idx : ℕ) (few : n ≤ 128) (v : IsSlab n s) (inside : idx < n) where
  in_bitmap : idx / 64 < length s.bitmap
  in_bitmap = omega (arith, v.words)

  pub mark-IsSlab : bm_test s.bitmap idx ≡ false → IsSlab n (mark s idx)
  mark-IsSlab free = record {
    words = length-bm_set s.bitmap idx ∙ v.words;
    fits = bm_set-Words s.bitmap idx in_bitmap v.fits;
    total = v.total;
    counted = omega (
      arith,
      count_free-bm_set s.bitmap idx in_bitmap n inside free,
      count_free-le s.bitmap n,
      v.counted,
    );
    mapped = v.mapped;
    aligned = v.aligned;
  }

  pub unmark-IsSlab : bm_test s.bitmap idx ≡ true → IsSlab n (unmark s idx)
  unmark-IsSlab used = record {
    words = length-bm_clear s.bitmap idx ∙ v.words;
    fits = bm_clear-Words s.bitmap idx in_bitmap v.fits;
    total = v.total;
    counted = omega (
      arith,
      count_free-bm_clear s.bitmap idx in_bitmap n inside used,
      count_free-le (bm_clear s.bitmap idx) n,
      v.counted,
    );
    mapped = v.mapped;
    aligned = v.aligned;
  }

  pub free_count-unmark : bm_test s.bitmap idx ≡ true → (unmark s idx).free_count ≡ s.free_count + 1
  free_count-unmark used = omega (
    arith,
    count_free-bm_clear s.bitmap idx in_bitmap n inside used,
    count_free-le (bm_clear s.bitmap idx) n,
    v.counted,
  )

  pub holders-mark :
      (size b : ℕ)
      → bm_test s.bitmap idx ≡ false
      → holders_slab size b (mark s idx)
        ≡ holders_slab size b s + one_if (in_object s.base size idx b)
  unfolding holders_slab
  holders-mark size b free =
      rw v.total (held-bm_set s.bitmap s.base size idx b in_bitmap n inside free)

  pub holders-unmark :
      (size b : ℕ)
      → bm_test s.bitmap idx ≡ true
      → holders_slab size b (unmark s idx) + one_if (in_object s.base size idx b)
        ≡ holders_slab size b s
  unfolding holders_slab
  holders-unmark size b used =
      rw v.total (held-bm_clear s.bitmap s.base size idx b in_bitmap n inside used)

-- the page behind an address of the mapping
abbrev pub page_of : ℕ → ℕ
page_of b = (b - phys_map_base) / page_size

-- A byte is held by one object of a slab at most, and only if the slab has its page.
pub holders_slab-le :
    (c : Cache) (s : Slab) (b : ℕ)
    → IsShape c
    → IsSlab c.obj_per_slab s
    → holders_slab c.obj_size b s ≤ covers c.pages_per_slab (page_of b) s
unfolding holders_slab
holders_slab-le c s b sh v = rw v.total (
    ground
      (arith, held-le s.bitmap s.base c.obj_size c.obj_per_slab b, sh.fits, v.mapped, v.aligned))

get_or-blank : (w : ℕ) → get_or {A = ℕ} (0 ∷ 0 ∷ []) w 0 ≡ 0
get_or-blank zero = refl
get_or-blank (suc zero) = refl
get_or-blank (suc (suc w)) = refl

blank_free : (q : ℕ) → bm_test (0 ∷ 0 ∷ []) q ≡ false
blank_free q = bm_test-zeros (0 ∷ 0 ∷ []) q get_or-blank

pub new_slab-IsSlab :
    (c : Cache) (start : ℕ)
    → c.obj_per_slab ≤ 128
    → IsSlab c.obj_per_slab (new_slab c (start * page_size))
new_slab-IsSlab c start few = record {
  words = refl;
  fits = λ w. omega (arith, get_or-blank w);
  total = refl;
  counted = sym (count_free_all (0 ∷ 0 ∷ []) c.obj_per_slab blank_free);
  mapped = refl;
  aligned = omega arith;
}

pub holders-new_slab : (c : Cache) (paddr b : ℕ) → holders_slab c.obj_size b (new_slab c paddr) ≡ 0
unfolding holders_slab
holders-new_slab c paddr b =
    held-empty (0 ∷ 0 ∷ []) (paddr + phys_map_base) c.obj_size c.obj_per_slab b
      (λ i lt. blank_free i)
