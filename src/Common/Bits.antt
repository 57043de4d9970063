-- ===== src/Common/Bits.antt =====
-- One bit of a machine word: `(w >> i) & 1`, `w | (1 << i)` and `w & ~(1 << i)`, by recursion on the
-- bit's index.
use Prim.Native.Nat.{ℕ, zero, suc, ◌+◌, ◌*◌, ◌/◌, ◌%◌, ◌^◌, ◌≤◌, ◌<◌}
use mathlib.Core.Path.{◌≡◌}
use mathlib.Core.Logic.{inl, inr}
use mathlib.Core.Bool.{Bool, true, false}
use native.Mathlib.Omega.{arith}
use native.Mathlib.Nat.{pow-suc}
use aev_os.Common.Tests.{◌==◌, if◌then◌else◌, Bool-cases}

unfoldable pub test_bit : ℕ → ℕ → Bool
test_bit w zero = w % 2 == 1
test_bit w (suc i) = test_bit (w / 2) i

unfoldable pub set_bit : ℕ → ℕ → ℕ
set_bit w zero = w / 2 * 2 + 1
set_bit w (suc i) = set_bit (w / 2) i * 2 + w % 2

unfoldable pub clear_bit : ℕ → ℕ → ℕ
clear_bit w zero = w / 2 * 2
clear_bit w (suc i) = clear_bit (w / 2) i * 2 + w % 2

-- The index of the lowest zero bit, which is `ctz(~w)`, of a word with `bits` bits; `bits` if there
-- is none.
unfoldable pub lowest_zero : ℕ → ℕ → ℕ
lowest_zero zero w = 0
lowest_zero (suc bits) w = let rest = lowest_zero bits (w / 2) in if w % 2 == 1 then suc rest else 0

double_half : (n b : ℕ) → b < 2 → (n * 2 + b) / 2 ≡ n
double_half n b h = omega arith

pub test_bit-set_bit :
    (w i j : ℕ) → test_bit (set_bit w i) j ≡ (if i == j then true else test_bit w j)
unfolding test_bit set_bit
test_bit-set_bit w zero zero = ground arith
test_bit-set_bit w zero (suc j) =
    let e : (w / 2 * 2 + 1) / 2 ≡ w / 2 = omega arith in rw e (ground arith)
test_bit-set_bit w (suc i) zero = ground arith
test_bit-set_bit w (suc i) (suc j) =
    rw (double_half (set_bit (w / 2) i) (w % 2) (omega arith), test_bit-set_bit (w / 2) i j)
      (ground arith)

pub test_bit-clear_bit :
    (w i j : ℕ) → test_bit (clear_bit w i) j ≡ (if i == j then false else test_bit w j)
unfolding test_bit clear_bit
test_bit-clear_bit w zero zero = ground arith
test_bit-clear_bit w zero (suc j) =
    let e : w / 2 * 2 / 2 ≡ w / 2 = omega arith in rw e (ground arith)
test_bit-clear_bit w (suc i) zero = ground arith
test_bit-clear_bit w (suc i) (suc j) =
    rw (double_half (clear_bit (w / 2) i) (w % 2) (omega arith), test_bit-clear_bit (w / 2) i j)
      (ground arith)

-- Bits below the lowest zero are ones.
pub lowest_zero_below : (bits w i : ℕ) → i < lowest_zero bits w → test_bit w i ≡ true
unfolding lowest_zero test_bit
lowest_zero_below zero w i h = absurd (omega arith)
lowest_zero_below (suc bits) w zero h = ground arith
lowest_zero_below (suc bits) w (suc i) h = ground (arith, lowest_zero_below bits (w / 2) i)

pub lowest_zero-le : (bits w : ℕ) → lowest_zero bits w ≤ bits
unfolding lowest_zero
lowest_zero-le zero w = omega arith
lowest_zero-le (suc bits) w = ground (arith, lowest_zero-le bits (w / 2))

-- Unless all bits are ones, the lowest zero is one.
pub lowest_zero_at :
    (bits w : ℕ) → lowest_zero bits w < bits → test_bit w (lowest_zero bits w) ≡ false
unfolding lowest_zero test_bit
lowest_zero_at zero w h = absurd (omega arith)
lowest_zero_at (suc bits) w h = elim (Bool-cases (w % 2 == 1)) [
  | inl e ↦ rw e (lowest_zero_at bits (w / 2) (ground arith))
  | inr e ↦ rw e e
]

-- A word of `bits` bits that is not all ones has a zero.
pub lowest_zero-lt : (bits w : ℕ) → w + 1 < 2 ^ bits → lowest_zero bits w < bits
unfolding lowest_zero
lowest_zero-lt zero w h = absurd (omega arith)
lowest_zero-lt (suc bits) w h = ground (arith, lowest_zero-lt bits (w / 2), pow-suc 2 bits)

pub set_bit-lt : (bits w i : ℕ) → w < 2 ^ bits → i < bits → set_bit w i < 2 ^ bits
unfolding set_bit
set_bit-lt zero w i h k = absurd (omega arith)
set_bit-lt (suc bits) w zero h k = omega (arith, pow-suc 2 bits)
set_bit-lt (suc bits) w (suc i) h k =
    omega (
      arith,
      pow-suc 2 bits,
      set_bit-lt bits (w / 2) i (omega (arith, pow-suc 2 bits)) (omega arith),
    )

pub clear_bit-le : (w i : ℕ) → clear_bit w i ≤ w
unfolding clear_bit
clear_bit-le w zero = omega arith
clear_bit-le w (suc i) = omega (arith, clear_bit-le (w / 2) i)

-- A bit of the word of ones is set.
pub test_bit_ones : (bits w i : ℕ) → w + 1 ≡ 2 ^ bits → i < bits → test_bit w i ≡ true
unfolding test_bit
test_bit_ones zero w i e h = absurd (omega arith)
test_bit_ones (suc bits) w zero e h = ground (arith, pow-suc 2 bits)
test_bit_ones (suc bits) w (suc i) e h =
    test_bit_ones bits (w / 2) i (omega (arith, pow-suc 2 bits)) (omega arith)

pub test_bit-zero : (i : ℕ) → test_bit 0 i ≡ false
unfolding test_bit
test_bit-zero zero = ground arith
test_bit-zero (suc i) = test_bit-zero i
