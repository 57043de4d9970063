-- ===== src/Kernel/Pmm/Range.antt =====
-- What the loops over a range of pages do.
use aev_os.Common.{
  ℕ, zero, suc, ◌+◌, ◌*◌, ◌≤◌, ◌<◌, ◌≡◌, refl, ◌∙◌, Bool, true, false, ◌&&◌, List, ltb, leb,
  if◌then◌else◌, arith, length,
}
use aev_os.Kernel.Pmm.{pmm_max_pages, bm_set, bm_clear, bm_test, set_from, clear_from, rounds_of}
use aev_os.Kernel.Pmm.Bitmap.{
  Words, bm_test-bm_set, bm_test-bm_clear, length-bm_set, length-bm_clear, bm_set-Words,
  bm_clear-Words, count_free, count_free-bm_set, count_free-bm_clear,
}

-- `i ≤ q < i + n`, as a test
abbrev pub in_range : ℕ → ℕ → ℕ → Bool
in_range i n q = leb i q && ltb q (i + n)

-- A range that lies in the bitmap is walked whole.
pub rounds_of-eq : (start count : ℕ) → start + count ≤ pmm_max_pages → rounds_of start count ≡ count
unfolding rounds_of
rounds_of-eq start count h = omega arith

pub length-set_from : (bm : List ℕ) (i n : ℕ) → length (set_from bm i n) ≡ length bm
unfolding set_from
length-set_from bm i zero = refl
length-set_from bm i (suc n) = length-set_from (bm_set bm i) (i + 1) n ∙ length-bm_set bm i

pub set_from-Words :
    (bm : List ℕ) (i n : ℕ) → i + n ≤ length bm * 64 → Words bm → Words (set_from bm i n)
unfolding set_from
set_from-Words bm i zero h w = w
set_from-Words bm i (suc n) h w =
    set_from-Words (bm_set bm i) (i + 1) n (omega (arith, length-bm_set bm i))
      (bm_set-Words bm i (omega arith) w)

-- The pages of the range are in use, and the others are as before.
pub bm_test-set_from :
    (bm : List ℕ) (i n q : ℕ)
    → i + n ≤ length bm * 64
    → bm_test (set_from bm i n) q ≡ (if in_range i n q then true else bm_test bm q)
unfolding set_from
bm_test-set_from bm i zero q h = ground arith
bm_test-set_from bm i (suc n) q h =
    bm_test-set_from (bm_set bm i) (i + 1) n q (omega (arith, length-bm_set bm i))
    ∙ ground (arith, bm_test-bm_set bm i q (omega arith))

pub count_free-set_from :
    (bm : List ℕ) (i n total : ℕ)
    → i + n ≤ length bm * 64
    → i + n ≤ total
    → ((q : ℕ) → i ≤ q → q < i + n → bm_test bm q ≡ false)
    → count_free (set_from bm i n) total + n ≡ count_free bm total
unfolding set_from
count_free-set_from bm i zero total h le all = omega arith
count_free-set_from bm i (suc n) total h le all = omega (
  arith,
  count_free-set_from (bm_set bm i) (i + 1) n total (omega (arith, length-bm_set bm i))
      (omega arith)
      (λ q lo hi.
        bm_test-bm_set bm i q (omega arith) ∙ ground (arith, all q (omega arith) (omega arith))),
  count_free-bm_set bm i (omega arith) total (omega arith) (all i (omega arith) (omega arith)),
)

pub length-clear_from : (bm : List ℕ) (i n : ℕ) → length (clear_from bm i n) ≡ length bm
unfolding clear_from
length-clear_from bm i zero = refl
length-clear_from bm i (suc n) = length-clear_from (bm_clear bm i) (i + 1) n ∙ length-bm_clear bm i

pub clear_from-Words :
    (bm : List ℕ) (i n : ℕ) → i + n ≤ length bm * 64 → Words bm → Words (clear_from bm i n)
unfolding clear_from
clear_from-Words bm i zero h w = w
clear_from-Words bm i (suc n) h w =
    clear_from-Words (bm_clear bm i) (i + 1) n (omega (arith, length-bm_clear bm i))
      (bm_clear-Words bm i (omega arith) w)

-- The pages of the range are free, and the others are as before.
pub bm_test-clear_from :
    (bm : List ℕ) (i n q : ℕ)
    → i + n ≤ length bm * 64
    → bm_test (clear_from bm i n) q ≡ (if in_range i n q then false else bm_test bm q)
unfolding clear_from
bm_test-clear_from bm i zero q h = ground arith
bm_test-clear_from bm i (suc n) q h =
    bm_test-clear_from (bm_clear bm i) (i + 1) n q (omega (arith, length-bm_clear bm i))
    ∙ ground (arith, bm_test-bm_clear bm i q (omega arith))

pub count_free-clear_from :
    (bm : List ℕ) (i n total : ℕ)
    → i + n ≤ length bm * 64
    → i + n ≤ total
    → ((q : ℕ) → i ≤ q → q < i + n → bm_test bm q ≡ true)
    → count_free (clear_from bm i n) total ≡ count_free bm total + n
unfolding clear_from
count_free-clear_from bm i zero total h le all = omega arith
count_free-clear_from bm i (suc n) total h le all = omega (
  arith,
  count_free-clear_from (bm_clear bm i) (i + 1) n total (omega (arith, length-bm_clear bm i))
      (omega arith)
      (λ q lo hi.
        bm_test-bm_clear bm i q (omega arith) ∙ ground (arith, all q (omega arith) (omega arith))),
  count_free-bm_clear bm i (omega arith) total (omega arith) (all i (omega arith) (omega arith)),
)
