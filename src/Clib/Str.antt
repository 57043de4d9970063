-- ===== src/Clib/Str.antt =====
-- src/lib/string.c: C strings.
-- A string that is read is the list of its bytes, none of them zero: the terminator is not listed.
-- Memory that is written is the list of its bytes from the pointer on; a write behind the list's end
-- is left out.
pub mod Copy
pub mod Compare
pub mod Search
mod Tests
use aev_os.Common.{
  ℕ, zero, suc, ◌+◌, ◌/◌, ◌%◌, Option, none, some, List, [], ◌∷◌, ◌==◌, if◌then◌else◌,
}
use aev_os.Common.Int.{ℤ, pos, sub_ℕ}

unfoldable pub strlen : List ℕ → ℕ
strlen [] = 0
strlen (c ∷ s) = strlen s + 1

unfoldable pub strnlen : List ℕ → ℕ → ℕ
strnlen s zero = 0
strnlen [] (suc n) = 0
strnlen (c ∷ s) (suc n) = strnlen s n + 1

-- `while (n--) *d++ = 0;`
unfoldable pub pad : List ℕ → ℕ → List ℕ
pad d zero = d
pad [] (suc n) = []
pad (c ∷ d) (suc n) = 0 ∷ pad d n

-- The first loop copies the terminator and stops before it counts it, so `n` bytes are still padded.
unfoldable pub strncpy : List ℕ → List ℕ → ℕ → List ℕ
unfolding pad
strncpy d s zero = d
strncpy [] s (suc n) = []
strncpy (c ∷ d) [] (suc n) = 0 ∷ pad d (suc n)
strncpy (c ∷ d) (x ∷ s) (suc n) = x ∷ strncpy d s n

-- the string in a buffer: its bytes up to the first zero
unfoldable pub cstr : List ℕ → List ℕ
cstr [] = []
cstr (c ∷ d) = if c == 0 then [] else c ∷ cstr d

unfoldable pub strcmp : List ℕ → List ℕ → ℤ
strcmp [] [] = pos 0
strcmp [] (y ∷ b) = sub_ℕ 0 y
strcmp (x ∷ a) [] = sub_ℕ x 0
strcmp (x ∷ a) (y ∷ b) = if x == y then strcmp a b else sub_ℕ x y

unfoldable pub strncmp : List ℕ → List ℕ → ℕ → ℤ
strncmp a b zero = pos 0
strncmp [] [] (suc n) = pos 0
strncmp [] (y ∷ b) (suc n) = sub_ℕ 0 y
strncmp (x ∷ a) [] (suc n) = sub_ℕ x 0
strncmp (x ∷ a) (y ∷ b) (suc n) = if x == y then strncmp a b n else sub_ℕ x y

-- The rest of the string from the match on.
unfoldable pub strchr : List ℕ → ℕ → Option (List ℕ)
strchr [] c = if c == 0 then some [] else none
strchr (x ∷ s) c = if x == c then some (x ∷ s) else strchr s c

-- the loop of `strrchr`, with the last match so far
unfoldable pub last_match : List ℕ → ℕ → Option (List ℕ) → Option (List ℕ)
last_match [] c last = last
last_match (x ∷ s) c last = last_match s c (if x == c then some (x ∷ s) else last)

unfoldable pub strrchr : List ℕ → ℕ → Option (List ℕ)
unfolding last_match
strrchr s c = if c == 0 then some [] else last_match s c none

-- the digits that `_emit_uint` writes, most significant first: `rounds` more rounds of its loop
unfoldable pub decimal_from : ℕ → ℕ → List ℕ → List ℕ
decimal_from zero val out = out
decimal_from (suc rounds) val out =
    let rest = decimal_from rounds (val / 10) ((48 + val % 10) ∷ out) in
    if val == 0 then out else rest

-- `_emit_uint` of a number of 64 bits, in base 10 and without a width: 20 digits are enough.
unfoldable pub emit_decimal : ℕ → List ℕ
unfolding decimal_from
emit_decimal val = if val == 0 then 48 ∷ [] else decimal_from 20 val []
