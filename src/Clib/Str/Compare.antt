-- ===== src/Clib/Str/Compare.antt =====
-- What the comparisons decide.
use aev_os.Common.{ℕ, zero, suc, ◌<◌, ◌≡◌, ◌↔◌, List, [], ◌∷◌, arith, take}
use aev_os.Common.Int.{pos}
use aev_os.Clib.Str.{strcmp, strncmp}

-- the bytes of a string are not zero
abbrev pub IsString : List ℕ → Type 0
IsString [] = Unit
IsString (c ∷ s) = (0 < c) × IsString s

-- strcmp returns 0 exactly for equal strings, of strings whose bytes are not zero.
pub strcmp-eq_iff : (a b : List ℕ) → IsString a → IsString b → (strcmp a b ≡ pos 0) ↔ (a ≡ b)
unfolding strcmp
strcmp-eq_iff [] [] ha hb = ground arith
strcmp-eq_iff [] (y ∷ b) ha hb = ground arith
strcmp-eq_iff (x ∷ a) [] ha hb = ground arith
strcmp-eq_iff (x ∷ a) (y ∷ b) ha hb = ground (arith, strcmp-eq_iff a b ha.1 hb.1)

-- strncmp returns 0 exactly for strings that agree in their first n bytes, of strings whose bytes
-- are not zero.
pub strncmp-eq_iff :
    (a b : List ℕ) (n : ℕ)
    → IsString a
    → IsString b
    → (strncmp a b n ≡ pos 0) ↔ (take n a ≡ take n b)
unfolding strncmp
strncmp-eq_iff a b zero ha hb = ground arith
strncmp-eq_iff [] [] (suc n) ha hb = ground arith
strncmp-eq_iff [] (y ∷ b) (suc n) ha hb = ground arith
strncmp-eq_iff (x ∷ a) [] (suc n) ha hb = ground arith
strncmp-eq_iff (x ∷ a) (y ∷ b) (suc n) ha hb = ground (arith, strncmp-eq_iff a b n ha.1 hb.1)
