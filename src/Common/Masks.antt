-- ===== src/Common/Masks.antt =====
-- Words as sets of bits: `a & b`, `a | b` and `a & ~b` of words with a number of bits.
use Prim.Native.Nat.{ℕ, zero, suc, ◌+◌, ◌*◌, ◌/◌, ◌%◌, ◌^◌, ◌<◌}
use mathlib.Core.Path.{◌≡◌, refl}
use mathlib.Core.Logic.{inl, inr}
use mathlib.Core.Bool.{true, false}
use native.Mathlib.Omega.{arith}
use native.Mathlib.Nat.{pow-suc}
use aev_os.Common.Tests.{◌==◌, if◌then◌else◌, Bool-cases}
use aev_os.Common.Bits.{test_bit}

unfoldable pub mask_and : ℕ → ℕ → ℕ → ℕ
mask_and zero a b = 0
mask_and (suc bits) a b = mask_and bits (a / 2) (b / 2) * 2 + (if a % 2 == 1 then b % 2 else 0)

unfoldable pub mask_or : ℕ → ℕ → ℕ → ℕ
mask_or zero a b = 0
mask_or (suc bits) a b = mask_or bits (a / 2) (b / 2) * 2 + (if a % 2 == 1 then 1 else b % 2)

unfoldable pub mask_without : ℕ → ℕ → ℕ → ℕ
mask_without zero a b = 0
mask_without (suc bits) a b =
    mask_without bits (a / 2) (b / 2) * 2 + (if b % 2 == 1 then 0 else a % 2)

-- every bit of `b` is one of `a`
abbrev pub Includes : ℕ → ℕ → Type 0
Includes a b = (i : ℕ) → test_bit b i ≡ true → test_bit a i ≡ true

half : (n b : ℕ) → b < 2 → (n * 2 + b) / 2 ≡ n
half n b h = omega arith

pub test_bit-mask_or :
    (bits a b i : ℕ)
    → i < bits
    → test_bit (mask_or bits a b) i ≡ (if test_bit a i then true else test_bit b i)
unfolding mask_or test_bit
test_bit-mask_or zero a b i h = absurd (omega arith)
test_bit-mask_or (suc bits) a b zero h = ground arith
test_bit-mask_or (suc bits) a b (suc i) h =
    rw (half (mask_or bits (a / 2) (b / 2)) (if a % 2 == 1 then 1 else b % 2) (ground arith))
      (test_bit-mask_or bits (a / 2) (b / 2) i (omega arith))

pub test_bit-mask_without :
    (bits a b i : ℕ)
    → i < bits
    → test_bit (mask_without bits a b) i ≡ (if test_bit b i then false else test_bit a i)
unfolding mask_without test_bit
test_bit-mask_without zero a b i h = absurd (omega arith)
test_bit-mask_without (suc bits) a b zero h = ground arith
test_bit-mask_without (suc bits) a b (suc i) h =
    rw (half (mask_without bits (a / 2) (b / 2)) (if b % 2 == 1 then 0 else a % 2) (ground arith))
      (test_bit-mask_without bits (a / 2) (b / 2) i (omega arith))

pub test_bit_small : (bits b i : ℕ) → b < 2 ^ bits → test_bit b i ≡ true → i < bits
unfolding test_bit
test_bit_small zero b zero h e = absurd (ground arith)
test_bit_small zero b (suc i) h e =
    absurd (ground (arith, test_bit_small zero (b / 2) i (omega arith) e))
test_bit_small (suc bits) b zero h e = omega arith
test_bit_small (suc bits) b (suc i) h e =
    omega (arith, test_bit_small bits (b / 2) i (omega (arith, pow-suc 2 bits)) e)

pub mask_and-Includes : (bits a b : ℕ) → b < 2 ^ bits → mask_and bits a b ≡ b → Includes a b
unfolding mask_and test_bit
mask_and-Includes zero a b h e i t = absurd (omega (arith, test_bit_small zero b i h t))
mask_and-Includes (suc bits) a b h e zero t = ground arith
mask_and-Includes (suc bits) a b h e (suc i) t =
    mask_and-Includes bits (a / 2) (b / 2) (omega (arith, pow-suc 2 bits)) (ground arith) i t

pub Includes-mask_and : (bits a b : ℕ) → b < 2 ^ bits → Includes a b → mask_and bits a b ≡ b
unfolding mask_and test_bit
Includes-mask_and zero a b h inc = omega arith
Includes-mask_and (suc bits) a b h inc = ground (
  arith,
  inc 0,
  Includes-mask_and bits (a / 2) (b / 2) (omega (arith, pow-suc 2 bits)) (λ i. inc (suc i)),
)

-- A word that is not 0 has a bit.
pub some_bit : (bits b : ℕ) → b < 2 ^ bits → 0 < b → (i : ℕ) × (test_bit b i ≡ true)
unfolding test_bit
some_bit zero b h pos = absurd (omega arith)
some_bit (suc bits) b h pos = elim (Bool-cases (b % 2 == 1)) [
  | inl e ↦ (0, e)
  | inr e ↦
      let (i, t) = some_bit bits (b / 2) (omega (arith, pow-suc 2 bits)) (ground arith) in
      (suc i, t)
]

pub mask_and_zero : (bits b : ℕ) → mask_and bits 0 b ≡ 0
unfolding mask_and
mask_and_zero zero b = refl
mask_and_zero (suc bits) b = ground (arith, mask_and_zero bits (b / 2))

pub mask_without_zero : (bits b : ℕ) → mask_without bits 0 b ≡ 0
unfolding mask_without
mask_without_zero zero b = refl
mask_without_zero (suc bits) b = ground (arith, mask_without_zero bits (b / 2))
