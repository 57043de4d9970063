-- ===== src/Clib/Lz4/Matches.antt =====
-- Matches: what the copy loops write, and what the search compares.
use mathlib.Core.List.{append-nil, append_assoc}
use native.Mathlib.Nat.{add-zero}
use aev_os.Common.{
  dec_lt, ℕ, zero, suc, ◌+◌, ◌-◌, ◌*◌, ◌^◌, ◌≤◌, ◌<◌, ◌≡◌, refl, ap, sym, ◌∙◌, true, List, [], ◌∷◌,
  ◌++◌, leb, arith, length, take, drop, get_or, Bool-cases, inl, inr, length-append, length-drop,
}
use aev_os.Clib.Lz4.{read32, lz4_count, match_length, is_match, min_match, copy_bytes, copy_match}

-- each element of a list of bytes
abbrev pub AreBytes : List ℕ → Type 0
AreBytes bs = (i : ℕ) → get_or bs i 0 < 256

get_or-append : (xs ys : List ℕ) (i : ℕ) → i < length xs → get_or (xs ++ ys) i 0 ≡ get_or xs i 0
get_or-append [] ys i h = absurd (omega arith)
get_or-append (x ∷ xs) ys zero h = refl
get_or-append (x ∷ xs) ys (suc i) h = get_or-append xs ys i (omega arith)

pub get_or-take : (n : ℕ) (xs : List ℕ) (i : ℕ) → i < n → get_or (take n xs) i 0 ≡ get_or xs i 0
get_or-take zero xs i h = absurd (omega arith)
get_or-take (suc n) [] i h = refl
get_or-take (suc n) (x ∷ xs) zero h = refl
get_or-take (suc n) (x ∷ xs) (suc i) h = get_or-take n xs i (omega arith)

pub take-snoc :
    (n : ℕ) (xs : List ℕ) → n < length xs → take n xs ++ (get_or xs n 0 ∷ []) ≡ take (suc n) xs
take-snoc n [] h = absurd (omega arith)
take-snoc zero (x ∷ xs) h = refl
take-snoc (suc n) (x ∷ xs) h = ap (λ r. x ∷ r) (take-snoc n xs (omega arith))

take-nil : (n : ℕ) → take {A = ℕ} n [] ≡ []
take-nil zero = refl
take-nil (suc n) = refl

pub take-append-take-drop :
    (a k : ℕ) (xs : List ℕ) → take a xs ++ take k (drop a xs) ≡ take (a + k) xs
take-append-take-drop zero k xs = ap (λ (n : ℕ). take n xs) (omega arith)
take-append-take-drop (suc a) k [] = take-nil k ∙ sym (take-nil (suc a + k))
take-append-take-drop (suc a) k (x ∷ xs) =
    let e : suc (a + k) ≡ suc a + k = omega arith in
    ap (λ r. x ∷ r) (take-append-take-drop a k xs) ∙ ap (λ (n : ℕ). take n (x ∷ xs)) e

-- The byte loop reads at `from`, below what it writes, a text that repeats itself: it goes on with
-- the text.
pub copy_bytes-take :
    (src : List ℕ) (ip from n : ℕ)
    → from < ip
    → ip + n ≤ length src
    → ((i : ℕ) → i < n → get_or src (from + i) 0 ≡ get_or src (ip + i) 0)
    → copy_bytes (take ip src) from n ≡ take (ip + n) src
unfolding copy_bytes
copy_bytes-take src ip from zero lo hi same = ap (λ (k : ℕ). take k src) (omega arith)
copy_bytes-take src ip from (suc n) lo hi same =
    let here : get_or (take ip src) from 0 ≡ get_or src ip 0 =
      get_or-take ip src from lo
      ∙ ap (λ (k : ℕ). get_or src k 0) (let z : from ≡ from + 0 = omega arith in z)
      ∙ same 0 (omega arith)
      ∙ ap (λ (k : ℕ). get_or src k 0) (let z : ip + 0 ≡ ip = omega arith in z) in
    let e : suc ip + n ≡ ip + suc n = omega arith in
    ap (λ t. copy_bytes t (from + 1) n)
      (ap (λ c. take ip src ++ (c ∷ [])) here ∙ take-snoc ip src (omega arith))
    ∙ copy_bytes-take src (suc ip) (from + 1) n (omega arith) (omega arith) (λ i hi'.
      ap (λ (k : ℕ). get_or src k 0) (let z : from + 1 + i ≡ from + suc i = omega arith in z)
      ∙ same (suc i) (omega arith)
      ∙ ap (λ (k : ℕ). get_or src k 0) (let z : ip + suc i ≡ suc ip + i = omega arith in z))
    ∙ ap (λ (k : ℕ). take k src) e

drop-snoc : (n : ℕ) (xs : List ℕ) → n < length xs → drop n xs ≡ get_or xs n 0 ∷ drop (suc n) xs
drop-snoc n [] h = absurd (omega arith)
drop-snoc zero (x ∷ xs) h = refl
drop-snoc (suc n) (x ∷ xs) h = drop-snoc n xs (omega arith)

take_append_le : (n : ℕ) (xs ys : List ℕ) → n ≤ length xs → take n (xs ++ ys) ≡ take n xs
take_append_le zero xs ys h = refl
take_append_le (suc n) [] ys h = absurd (omega arith)
take_append_le (suc n) (x ∷ xs) ys h = ap (λ r. x ∷ r) (take_append_le n xs ys (omega arith))

drop_append_le : (n : ℕ) (xs ys : List ℕ) → n ≤ length xs → drop n (xs ++ ys) ≡ drop n xs ++ ys
drop_append_le zero xs ys h = refl
drop_append_le (suc n) [] ys h = absurd (omega arith)
drop_append_le (suc n) (x ∷ xs) ys h = drop_append_le n xs ys (omega arith)

-- Where source and destination do not overlap, the byte loop writes what `memcpy` writes.
pub copy_bytes-eq-take :
    (out : List ℕ) (from n : ℕ)
    → from + n ≤ length out
    → copy_bytes out from n ≡ out ++ take n (drop from out)
unfolding copy_bytes
copy_bytes-eq-take out from zero h = sym (append-nil out)
copy_bytes-eq-take out from (suc n) h =
    let c = get_or out from 0 in
    let e : from + 1 ≡ suc from = omega arith in
    copy_bytes-eq-take (out ++ (c ∷ [])) (from + 1) n (omega (arith, length-append out (c ∷ [])))
    ∙ ap (λ (k : ℕ). (out ++ (c ∷ [])) ++ take n (drop k (out ++ (c ∷ [])))) e
    ∙ ap (λ t. (out ++ (c ∷ [])) ++ take n t) (drop_append_le (suc from) out (c ∷ []) (omega arith))
    ∙ ap (λ t. (out ++ (c ∷ [])) ++ t)
        (take_append_le n (drop (suc from) out) (c ∷ [])
          (omega (arith, length-drop (suc from) out)))
    ∙ append_assoc out (c ∷ []) (take n (drop (suc from) out))
    ∙ ap (λ t. out ++ take (suc n) t) (sym (drop-snoc from out (omega arith)))

-- The branch for a match that does not overlap agrees with the byte loop, so the copy is the byte
-- loop throughout.
pub copy_match-eq-copy_bytes :
    (out : List ℕ) (offset n : ℕ)
    → offset ≤ length out
    → copy_match out offset n ≡ copy_bytes out (length out - offset) n
unfolding copy_match
copy_match-eq-copy_bytes out offset n h = elim (Bool-cases (leb n offset)) [
  | inl e ↦ rw e (sym (copy_bytes-eq-take out (length out - offset) n (ground arith)))
  | inr e ↦ rw e
]

lz4_count-le : (src : List ℕ) (a b n : ℕ) → lz4_count src a b n ≤ n
unfolding lz4_count
lz4_count-le src a b zero = omega arith
lz4_count-le src a b (suc n) = ground (arith, lz4_count-le src (a + 1) (b + 1) n)

lz4_count-same :
    (src : List ℕ) (a b n i : ℕ)
    → i < lz4_count src a b n
    → get_or src (a + i) 0 ≡ get_or src (b + i) 0
unfolding lz4_count
lz4_count-same src a b zero i h = absurd (omega arith)
lz4_count-same src a b (suc n) zero h =
    let e : get_or src a 0 ≡ get_or src b 0 = ground arith in
    ap (λ (k : ℕ). get_or src k 0) (let z : a + 0 ≡ a = omega arith in z)
    ∙ e
    ∙ ap (λ (k : ℕ). get_or src k 0) (let z : b ≡ b + 0 = omega arith in z)
lz4_count-same src a b (suc n) (suc i) h =
    ap (λ (k : ℕ). get_or src k 0) (let z : a + suc i ≡ a + 1 + i = omega arith in z)
    ∙ lz4_count-same src (a + 1) (b + 1) n i (ground arith)
    ∙ ap (λ (k : ℕ). get_or src k 0) (let z : b + 1 + i ≡ b + suc i = omega arith in z)

-- A match ends inside the source.
pub match_length-le :
    (src : List ℕ) (ip ref : ℕ)
    → ip + min_match < length src
    → ip + match_length src ip ref ≤ length src
unfolding match_length
match_length-le src ip ref h =
    omega
      (arith, lz4_count-le src (ip + min_match) (ref + min_match) (length src - (ip + min_match)))

pub match_length-ge : (src : List ℕ) (ip ref : ℕ) → min_match ≤ match_length src ip ref
unfolding match_length
match_length-ge src ip ref = omega arith

-- Four bytes make a number in one way.
bytes_of_word :
    (a b c d a' b' c' d' : ℕ)
    → a < 256
    → b < 256
    → c < 256
    → a' < 256
    → b' < 256
    → c' < 256
    → a + b * 2 ^ 8 + c * 2 ^ 16 + d * 2 ^ 24 ≡ a' + b' * 2 ^ 8 + c' * 2 ^ 16 + d' * 2 ^ 24
    → (a ≡ a') × (b ≡ b') × (c ≡ c') × (d ≡ d')
bytes_of_word a b c d a' b' c' d' h1 h2 h3 h4 h5 h6 e = omega arith

read32-same :
    (src : List ℕ) (p q i : ℕ)
    → AreBytes src
    → read32 src p ≡ read32 src q
    → i < 4
    → get_or src (p + i) 0 ≡ get_or src (q + i) 0
unfolding read32
read32-same src p q i b e h =
    let (e0, e1, e2, e3) =
      bytes_of_word (get_or src p 0) (get_or src (p + 1) 0) (get_or src (p + 2) 0)
        (get_or src (p + 3) 0) (get_or src q 0) (get_or src (q + 1) 0) (get_or src (q + 2) 0)
        (get_or src (q + 3) 0) (b p) (b (p + 1)) (b (p + 2)) (b q) (b (q + 1)) (b (q + 2)) e in
    go i h e0 e1 e2 e3
  where
    go :
        (i : ℕ)
        → i < 4
        → get_or src p 0 ≡ get_or src q 0
        → get_or src (p + 1) 0 ≡ get_or src (q + 1) 0
        → get_or src (p + 2) 0 ≡ get_or src (q + 2) 0
        → get_or src (p + 3) 0 ≡ get_or src (q + 3) 0
        → get_or src (p + i) 0 ≡ get_or src (q + i) 0
    go zero h e0 e1 e2 e3 = rw (add-zero, add-zero) e0
    go (suc zero) h e0 e1 e2 e3 = e1
    go (suc (suc zero)) h e0 e1 e2 e3 = e2
    go (suc (suc (suc zero))) h e0 e1 e2 e3 = e3
    go (suc (suc (suc (suc i)))) h e0 e1 e2 e3 = absurd (omega arith)

-- The bytes of a match are those at its reference.
pub match_same :
    (src : List ℕ) (ip ref i : ℕ)
    → AreBytes src
    → is_match src ip ref ≡ true
    → i < match_length src ip ref
    → get_or src (ref + i) 0 ≡ get_or src (ip + i) 0
unfolding is_match match_length
match_same src ip ref i b m h = elim (dec_lt i 4) [
  | yes lt ↦ read32-same src ref ip i b (ground arith) lt
  | no ge ↦
      ap (λ (k : ℕ). get_or src k 0)
        (let z : ref + i ≡ ref + min_match + (i - 4) = omega arith in z)
      ∙ sym (
          lz4_count-same src (ip + min_match) (ref + min_match) (length src - (ip + min_match))
            (i - 4) (omega arith))
      ∙ ap (λ (k : ℕ). get_or src k 0)
          (let z : ip + min_match + (i - 4) ≡ ip + i = omega arith in z)
]
