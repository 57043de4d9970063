-- ===== src/Clib/Str/Copy.antt =====
-- What `strncpy` writes.
use aev_os.Common.{
  ℕ, zero, suc, ◌-◌, ◌≤◌, ◌<◌, ◌≡◌, refl, ap, ◌∙◌, List, [], ◌∷◌, ◌++◌, arith, length, take, drop,
  replicate,
}
use aev_os.Clib.Str.{pad, strncpy}

pad_lem : (d : List ℕ) (n : ℕ) → n ≤ length d → pad d n ≡ replicate n 0 ++ drop n d
unfolding pad replicate
pad_lem d zero h = refl
pad_lem [] (suc n) h = absurd (omega arith)
pad_lem (c ∷ d) (suc n) h = ap (λ r. 0 ∷ r) (pad_lem d n (omega arith))

-- A string of `n` bytes or more: `strncpy` writes its first `n` bytes, without a terminator, and
-- nothing else.
pub strncpy_long :
    (d s : List ℕ) (n : ℕ) → n ≤ length s → n ≤ length d → strncpy d s n ≡ take n s ++ drop n d
unfolding strncpy
strncpy_long d s zero h k = refl
strncpy_long [] s (suc n) h k = absurd (omega arith)
strncpy_long (c ∷ d) [] (suc n) h k = absurd (omega arith)
strncpy_long (c ∷ d) (x ∷ s) (suc n) h k =
    ap (λ r. x ∷ r) (strncpy_long d s n (omega arith) (omega arith))

-- Of a string shorter than n, strncpy writes the string and zeros, n + 1 bytes in all, one more
-- than the n that it may write (the memory has more than n bytes).
pub strncpy_short :
    (d s : List ℕ) (n : ℕ)
    → length s < n
    → n < length d
    → strncpy d s n ≡ s ++ (replicate (suc n - length s) 0 ++ drop (suc n) d)
unfolding strncpy replicate
strncpy_short d s zero h k = absurd (omega arith)
strncpy_short [] s (suc n) h k = absurd (omega arith)
strncpy_short (c ∷ d) [] (suc n) h k =
    ap (λ r. 0 ∷ r) (pad_lem d (suc n) (omega arith))
    ∙ ap (λ (m : ℕ). replicate m 0 ++ drop (suc n) d) all
  where
    all : suc (suc n) ≡ suc (suc n) - 0
    all = omega arith
strncpy_short (c ∷ d) (x ∷ s) (suc n) h k =
    ap (λ r. x ∷ r)
      (strncpy_short d s n (omega arith) (omega arith)
        ∙ ap (λ (m : ℕ). s ++ (replicate m 0 ++ drop (suc n) d)) (omega arith))
