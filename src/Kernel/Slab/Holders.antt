-- ===== src/Kernel/Slab/Holders.antt =====
-- Which objects in use hold a byte: the number of them, over a bitmap, a slab, a cache and the heap.
pub use aev_os.Common.{one_if}
use aev_os.Common.{
  ℕ, zero, suc, ◌+◌, ◌*◌, ◌/◌, ◌≤◌, ◌<◌, ◌≡◌, ◌⊎◌, refl, Bool, true, false, ◌&&◌, List, [], ◌∷◌,
  ltb, leb, arith, length, ℕ_discrete,
}
use aev_os.Kernel.Pmm.{page_size, bm_set, bm_clear, bm_test}
use aev_os.Kernel.Pmm.Bitmap.{bm_test-bm_set, bm_test-bm_clear}
use aev_os.Kernel.Pmm.Range.{in_range}
use aev_os.Kernel.Slab.{Slab, Cache, Heap}

-- the byte `b` is one of the `size` bytes from `a` on
abbrev pub in_block : ℕ → ℕ → ℕ → Bool
in_block a size b = leb a b && ltb b (a + size)

-- the byte `b` lies in the `i`-th object behind `base`
abbrev pub in_object : ℕ → ℕ → ℕ → ℕ → Bool
in_object base size i b = in_block (base + i * size) size b

-- how many of the first `n` objects are in use and hold `b`
pub held : List ℕ → ℕ → ℕ → ℕ → ℕ → ℕ
held bm base size zero b = 0
held bm base size (suc n) b =
    one_if (bm_test bm n && in_object base size n b) + held bm base size n b

unfoldable pub holders_slab : ℕ → ℕ → Slab → ℕ
holders_slab size b s = held s.bitmap s.base size s.total_obj b

unfoldable pub holders_list : ℕ → ℕ → List Slab → ℕ
holders_list size b [] = 0
holders_list size b (s ∷ ss) = holders_slab size b s + holders_list size b ss

unfoldable pub holders_cache : ℕ → Cache → ℕ
holders_cache b c = holders_list c.obj_size b c.partial + holders_list c.obj_size b c.full

unfoldable pub holders_caches : ℕ → List Cache → ℕ
holders_caches b [] = 0
holders_caches b (c ∷ cs) = holders_cache b c + holders_caches b cs

-- the number of objects in use of the heap that hold the byte `b`
unfoldable pub holders : ℕ → Heap → ℕ
unfolding holders_caches holders_cache holders_list holders_slab held
holders b h = holders_caches b h.caches

-- The address is that of an object in use of the slab, whose objects have the given size.
abbrev pub IsObject : ℕ → ℕ → Slab → Type 0
IsObject size a s =
    (i : ℕ) × (i < s.total_obj) × (bm_test s.bitmap i ≡ true) × (a ≡ s.base + i * size)

abbrev pub IsObjectAmong : ℕ → ℕ → List Slab → Type 0
IsObjectAmong size a [] = ⊥
IsObjectAmong size a (s ∷ ss) = IsObject size a s ⊎ IsObjectAmong size a ss

abbrev pub IsObjectIn : ℕ → ℕ → Cache → Type 0
IsObjectIn size a c =
    (size ≡ c.obj_size) × (IsObjectAmong c.obj_size a c.partial ⊎ IsObjectAmong c.obj_size a c.full)

-- An object in use of `size` bytes starts at the address.
abbrev pub IsObjectOf : ℕ → ℕ → List Cache → Type 0
IsObjectOf size a [] = ⊥
IsObjectOf size a (c ∷ cs) = IsObjectIn size a c ⊎ IsObjectOf size a cs

-- how many slabs of the heap hold the page `p`
abbrev pub covers : ℕ → ℕ → Slab → ℕ
covers pages p s = one_if (in_range (s.phys / page_size) pages p)

unfoldable pub cover_list : ℕ → ℕ → List Slab → ℕ
cover_list pages p [] = 0
cover_list pages p (s ∷ ss) = covers pages p s + cover_list pages p ss

unfoldable pub cover_cache : ℕ → Cache → ℕ
cover_cache p c = cover_list c.pages_per_slab p c.partial + cover_list c.pages_per_slab p c.full

unfoldable pub cover_caches : ℕ → List Cache → ℕ
cover_caches p [] = 0
cover_caches p (c ∷ cs) = cover_cache p c + cover_caches p cs

next_object : (n size : ℕ) → suc n * size ≡ n * size + size
next_object n size = grind arith

-- Objects of a slab do not overlap.
pub held-le :
    (bm : List ℕ) (base size n b : ℕ)
    → held bm base size n b ≤ one_if (leb base b && ltb b (base + n * size))
unfolding held
held-le bm base size zero b = omega arith
held-le bm base size (suc n) b = ground (arith, next_object n size, held-le bm base size n b)

pub held-empty :
    (bm : List ℕ) (base size n b : ℕ)
    → ((i : ℕ) → i < n → bm_test bm i ≡ false)
    → held bm base size n b ≡ 0
unfolding held
held-empty bm base size zero b h = refl
held-empty bm base size (suc n) b h =
    ground (arith, h n, held-empty bm base size n b (λ i lt. h i (omega arith)))

module _ (bm : List ℕ) (base size idx b : ℕ) (inside : idx / 64 < length bm) where
  held-bm_set_above : (n : ℕ) → n ≤ idx → held (bm_set bm idx) base size n b ≡ held bm base size n b
  unfolding held
  held-bm_set_above zero h = refl
  held-bm_set_above (suc n) h = ground (arith, bm_test-bm_set bm idx n inside, held-bm_set_above n)

  -- One more object in use.
  pub held-bm_set :
      (n : ℕ)
      → idx < n
      → bm_test bm idx ≡ false
      → held (bm_set bm idx) base size n b
        ≡ held bm base size n b + one_if (in_object base size idx b)
  unfolding held
  held-bm_set zero h free = absurd (omega arith)
  held-bm_set (suc n) h free = elim (ℕ_discrete idx n) [
    | yes e ↦
        rw (← e, bm_test-bm_set bm idx idx inside, held-bm_set_above idx (omega arith))
          (ground arith)
    | no ne ↦ ground (arith, bm_test-bm_set bm idx n inside, held-bm_set n)
  ]

  held-bm_clear_above :
      (n : ℕ) → n ≤ idx → held (bm_clear bm idx) base size n b ≡ held bm base size n b
  unfolding held
  held-bm_clear_above zero h = refl
  held-bm_clear_above (suc n) h =
      ground (arith, bm_test-bm_clear bm idx n inside, held-bm_clear_above n)

  -- One object less.
  pub held-bm_clear :
      (n : ℕ)
      → idx < n
      → bm_test bm idx ≡ true
      → held (bm_clear bm idx) base size n b + one_if (in_object base size idx b)
        ≡ held bm base size n b
  unfolding held
  held-bm_clear zero h used = absurd (omega arith)
  held-bm_clear (suc n) h used = elim (ℕ_discrete idx n) [
    | yes e ↦
        rw (← e, bm_test-bm_clear bm idx idx inside, held-bm_clear_above idx (omega arith))
          (ground arith)
    | no ne ↦ ground (arith, bm_test-bm_clear bm idx n inside, held-bm_clear n)
  ]
