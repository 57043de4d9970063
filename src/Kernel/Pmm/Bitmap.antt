-- ===== src/Kernel/Pmm/Bitmap.antt =====
-- What the bitmap operations do to the pages: the laws of the bits, page by page.
use aev_os.Common.{
  ℕ, zero, suc, ◌+◌, ◌/◌, ◌%◌, ◌^◌, ◌≤◌, ◌<◌, ◌≡◌, refl, true, false, List, ◌==◌, if◌then◌else◌,
  arith, length, get_or, length-set, get_or-set_self, get_or-set_ne, ℕ_discrete,
}
use aev_os.Common.Bits.{
  test_bit-zero, test_bit-set_bit, test_bit-clear_bit, set_bit-lt, clear_bit-le,
}
use aev_os.Kernel.Pmm.{bm_set, bm_clear, bm_test}

module _ (bm : List ℕ) (p q : ℕ) (inside : p / 64 < length bm) where
  -- Setting page `p` changes page `p` alone.
  pub bm_test-bm_set : bm_test (bm_set bm p) q ≡ (if p == q then true else bm_test bm q)
  unfolding bm_test bm_set
  bm_test-bm_set = elim (ℕ_discrete (p / 64) (q / 64)) [
    | yes e ↦ rw (← e, get_or-set_self bm (p / 64) _ 0 inside, test_bit-set_bit) (ground arith)
    | no ne ↦ rw (get_or-set_ne bm (p / 64) (q / 64) _ 0 ne) (ground arith)
  ]

  pub bm_test-bm_clear : bm_test (bm_clear bm p) q ≡ (if p == q then false else bm_test bm q)
  unfolding bm_test bm_clear
  bm_test-bm_clear = elim (ℕ_discrete (p / 64) (q / 64)) [
    | yes e ↦ rw (← e, get_or-set_self bm (p / 64) _ 0 inside, test_bit-clear_bit) (ground arith)
    | no ne ↦ rw (get_or-set_ne bm (p / 64) (q / 64) _ 0 ne) (ground arith)
  ]

pub length-bm_set : (bm : List ℕ) (p : ℕ) → length (bm_set bm p) ≡ length bm
unfolding bm_set
length-bm_set bm p = length-set bm _ _

pub length-bm_clear : (bm : List ℕ) (p : ℕ) → length (bm_clear bm p) ≡ length bm
unfolding bm_clear
length-bm_clear bm p = length-set bm _ _

-- every word fits 64 bits
abbrev pub Words : List ℕ → Type 0
Words bm = (w : ℕ) → get_or bm w 0 < 2 ^ 64

pub bm_set-Words : (bm : List ℕ) (p : ℕ) → p / 64 < length bm → Words bm → Words (bm_set bm p)
unfolding bm_set
bm_set-Words bm p inside h w = elim (ℕ_discrete (p / 64) w) [
  | yes e ↦
      rw (← e, get_or-set_self bm (p / 64) _ 0 inside)
        (set_bit-lt 64 _ _ (h (p / 64)) (omega arith))
  | no ne ↦ rw (get_or-set_ne bm (p / 64) w _ 0 ne) (h w)
]

pub bm_clear-Words : (bm : List ℕ) (p : ℕ) → p / 64 < length bm → Words bm → Words (bm_clear bm p)
unfolding bm_clear
bm_clear-Words bm p inside h w = elim (ℕ_discrete (p / 64) w) [
  | yes e ↦
      rw (← e, get_or-set_self bm (p / 64) _ 0 inside)
        (omega (arith, h (p / 64), clear_bit-le (get_or bm (p / 64) 0) (p % 64)))
  | no ne ↦ rw (get_or-set_ne bm (p / 64) w _ 0 ne) (h w)
]

-- how many of the first `n` pages are free
pub count_free : List ℕ → ℕ → ℕ
count_free bm zero = 0
count_free bm (suc n) = (if bm_test bm n then 0 else 1) + count_free bm n

pub count_free_ext :
    (bm bm' : List ℕ) (n : ℕ)
    → ((q : ℕ) → q < n → bm_test bm q ≡ bm_test bm' q)
    → count_free bm n ≡ count_free bm' n
unfolding count_free
count_free_ext bm bm' zero same = refl
count_free_ext bm bm' (suc n) same =
    rw (same n (omega arith), count_free_ext bm bm' n (λ q h. same q (omega arith)))

pub count_free-used :
    (bm : List ℕ) (n : ℕ) → ((q : ℕ) → q < n → bm_test bm q ≡ true) → count_free bm n ≡ 0
unfolding count_free
count_free-used bm zero used = refl
count_free-used bm (suc n) used =
    rw (used n (omega arith), count_free-used bm n (λ q h. used q (omega arith)))

pub count_free-le : (bm : List ℕ) (n : ℕ) → count_free bm n ≤ n
unfolding count_free
count_free-le bm zero = omega arith
count_free-le bm (suc n) = ground (arith, count_free-le bm n)

module _ (bm : List ℕ) (p : ℕ) (inside : p / 64 < length bm) where
  count_free-bm_set_above : (n : ℕ) → n ≤ p → count_free (bm_set bm p) n ≡ count_free bm n
  unfolding count_free
  count_free-bm_set_above zero h = refl
  count_free-bm_set_above (suc n) h = rw bm_test-bm_set (ground (arith, count_free-bm_set_above n))

  -- Setting a free page leaves one free page less.
  pub count_free-bm_set :
      (n : ℕ) → p < n → bm_test bm p ≡ false → count_free (bm_set bm p) n + 1 ≡ count_free bm n
  unfolding count_free
  count_free-bm_set zero h free = absurd (omega arith)
  count_free-bm_set (suc n) h free =
      ground (arith, bm_test-bm_set bm p n inside, count_free-bm_set_above n, count_free-bm_set n)

  count_free-bm_clear_above : (n : ℕ) → n ≤ p → count_free (bm_clear bm p) n ≡ count_free bm n
  unfolding count_free
  count_free-bm_clear_above zero h = refl
  count_free-bm_clear_above (suc n) h =
      ground (arith, bm_test-bm_clear bm p n inside, count_free-bm_clear_above n)

  -- Clearing a used page gives one free page more.
  pub count_free-bm_clear :
      (n : ℕ) → p < n → bm_test bm p ≡ true → count_free (bm_clear bm p) n ≡ count_free bm n + 1
  unfolding count_free
  count_free-bm_clear zero h used = absurd (omega arith)
  count_free-bm_clear (suc n) h used =
      ground
        (arith, bm_test-bm_clear bm p n inside, count_free-bm_clear_above n, count_free-bm_clear n)

pub bm_test-zeros : (bm : List ℕ) (q : ℕ) → ((w : ℕ) → get_or bm w 0 ≡ 0) → bm_test bm q ≡ false
unfolding bm_test
bm_test-zeros bm q h = rw (h (q / 64)) (test_bit-zero (q % 64))

pub count_free_all : (bm : List ℕ) (n : ℕ) → ((q : ℕ) → bm_test bm q ≡ false) → count_free bm n ≡ n
unfolding count_free
count_free_all bm zero h = refl
count_free_all bm (suc n) h = ground (arith, h n, count_free_all bm n h)
