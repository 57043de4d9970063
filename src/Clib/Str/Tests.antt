-- ===== src/Clib/Str/Tests.antt =====
-- The theorems on strings at concrete strings.
use aev_os.Common.{
  ℕ, suc, ◌-◌, ◌≡◌, ◌≢◌, ◌↔◌, none, refl, List, [], ◌∷◌, ◌++◌, arith, length, take, drop, replicate,
}
use aev_os.Clib.Str.{strncpy}
use aev_os.Clib.Str.Compare.{IsString}
use aev_os.Clib.Str.Search.{Occurs, strstr, strstr-Occurs}
use aev_os.Clib.Str.Copy.{strncpy_short, strncpy_long}

abbrev ab : List ℕ
ab = 97 ∷ 98 ∷ []

abbrev field : List ℕ
field = 1 ∷ 2 ∷ 3 ∷ 4 ∷ 5 ∷ 6 ∷ []

-- Four bytes are asked for, and the fifth is cleared.
strncpy_runs : strncpy field ab 4 ≡ 97 ∷ 98 ∷ 0 ∷ 0 ∷ 0 ∷ 6 ∷ []
unfolding strncpy
strncpy_runs = refl

strncpy_short_example :
    strncpy field ab 4 ≡ ab ++ (replicate (suc 4 - length ab) 0 ++ drop (suc 4) field)
strncpy_short_example = strncpy_short field ab 4 (omega arith) (omega arith)

strncpy_long_example : strncpy field ab 2 ≡ take 2 ab ++ drop 2 field
strncpy_long_example = strncpy_long field ab 2 (omega arith) (omega arith)

ab-IsString : IsString ab
ab-IsString = (omega arith, (omega arith, tt))

strstr-Occurs_example :
    (strstr (99 ∷ 97 ∷ 98 ∷ 97 ∷ []) ab ≢ none) ↔ Occurs ab (99 ∷ 97 ∷ 98 ∷ 97 ∷ [])
strstr-Occurs_example =
    strstr-Occurs (99 ∷ 97 ∷ 98 ∷ 97 ∷ []) ab
      (omega arith, (omega arith, (omega arith, (omega arith, tt)))) ab-IsString
