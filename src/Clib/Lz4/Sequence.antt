-- ===== src/Clib/Lz4/Sequence.antt =====
-- What the decoder makes of a sequence that the encoder writes.
use mathlib.Core.List.{append_assoc, append-nil}
use aev_os.Common.{
  ℕ, ◌+◌, ◌-◌, ◌*◌, ◌/◌, ◌%◌, ◌^◌, ◌≤◌, ◌<◌, ◌≡◌, refl, ap, ap₂, sym, ◌∙◌, false, List, [], ◌∷◌,
  ◌++◌, ltb, ◌==◌, arith, length, take, drop, if◌then◌else◌, length-append,
}
use aev_os.Clib.Lz4.{
  Step, finish, reject, continue, min_match, nibble, extension, emit_sequence, read_length,
  copy_match, match_part, literal_part, step,
}
use aev_os.Clib.Lz4.Extension.{read_length-extension}

take_length-append : (xs ys : List ℕ) → take (length xs) (xs ++ ys) ≡ xs
take_length-append [] ys = refl
take_length-append (x ∷ xs) ys = ap (λ r. x ∷ r) (take_length-append xs ys)

drop_length-append : (xs ys : List ℕ) → drop (length xs) (xs ++ ys) ≡ ys
drop_length-append [] ys = refl
drop_length-append (x ∷ xs) ys = drop_length-append xs ys

nibble-lt : (n : ℕ) → nibble n < 16
nibble-lt n = ground arith

-- Both halves of a token are read back.
token_parts :
    (a b : ℕ)
    → (nibble a * 16 + nibble b) / 16 ≡ nibble a × ((nibble a * 16 + nibble b) % 16 ≡ nibble b)
token_parts a b = omega (arith, nibble-lt a, nibble-lt b)

-- what a round does with an offset and a match length behind its literals
abbrev pub after_literals : ℕ → ℕ → ℕ → List ℕ → List ℕ → Step
after_literals cap offset match_len rest out =
    if offset == 0
    then reject out
    else if ltb (length out) offset
    then reject out
    else if ltb cap (length out + match_len)
    then reject out
    else continue rest (copy_match out offset match_len)

match_part-emitted :
    (cap lit_len offset match_len : ℕ) (rest out : List ℕ)
    → offset < 2 ^ 16
    → min_match ≤ match_len
    → match_part cap
        (nibble lit_len * 16 + nibble (match_len - min_match))
        ((offset % 2 ^ 16 % 2 ^ 8)
          ∷ (offset % 2 ^ 16 / 2 ^ 8)
          ∷ (extension (match_len - min_match) ++ rest))
        out
      ≡ after_literals cap offset match_len rest out
unfolding match_part
match_part-emitted cap lit_len offset match_len rest out small long =
    let m = match_len - min_match in
    let tok : (nibble lit_len * 16 + nibble m) % 16 ≡ nibble m = (token_parts lit_len m).1 in
    let low : offset % 2 ^ 16 % 2 ^ 8 + offset % 2 ^ 16 / 2 ^ 8 * 2 ^ 8 ≡ offset = omega arith in
    let len : m + min_match ≡ match_len = omega arith in
    rw (tok, low, read_length-extension m min_match (nibble m + min_match) rest refl, len)

literal_part-append :
    (cap tok : ℕ) (lits tail out : List ℕ)
    → length out + length lits ≤ cap
    → literal_part cap tok (length lits, lits ++ tail) out ≡ match_part cap tok tail (out ++ lits)
unfolding literal_part
literal_part-append cap tok lits tail out room =
    let e : ltb (length (lits ++ tail)) (length lits) ≡ false =
      ground (arith, length-append lits tail) in
    let f : ltb cap (length out + length lits) ≡ false = ground arith in
    rw (e, f)
      (ap₂ (λ t r. match_part cap tok t (out ++ r)) (drop_length-append lits tail)
        (take_length-append lits tail))

step-literals :
    (cap m : ℕ) (lits tail out : List ℕ)
    → length out + length lits ≤ cap
    → step cap
        ((nibble (length lits) * 16 + nibble m) ∷ (extension (length lits) ++ (lits ++ tail)))
        out
      ≡ match_part cap (nibble (length lits) * 16 + nibble m) tail (out ++ lits)
unfolding step
step-literals cap m lits tail out room =
    let n = length lits in
    let tok = nibble n * 16 + nibble m in
    let high : tok / 16 ≡ nibble n = (token_parts n m).0 in
    let whole : n + 0 ≡ n = omega arith in
    let start : nibble n ≡ nibble n + 0 = omega arith in
    ap (λ (h : ℕ). literal_part cap tok (read_length h h (extension n ++ (lits ++ tail))) out) high
    ∙ ap (λ r. literal_part cap tok r out)
        (read_length-extension n 0 (nibble n) (lits ++ tail) start
          ∙ ap (λ (k : ℕ). (k, lits ++ tail)) whole)
    ∙ literal_part-append cap tok lits tail out room

-- The decoder reads back the literals, the offset and the length of a sequence, if its buffer has
-- room for the literals.
pub step-emit_sequence :
    (cap : ℕ) (lits : List ℕ) (offset match_len : ℕ) (rest out : List ℕ)
    → offset < 2 ^ 16
    → min_match ≤ match_len
    → length out + length lits ≤ cap
    → step cap (emit_sequence lits offset match_len ++ rest) out
      ≡ after_literals cap offset match_len rest (out ++ lits)
unfolding emit_sequence
step-emit_sequence cap lits offset match_len rest out small long room =
    let n = length lits in
    let m = match_len - min_match in
    let low = offset % 2 ^ 16 % 2 ^ 8 in
    let high = offset % 2 ^ 16 / 2 ^ 8 in
    ap (λ t. step cap ((nibble n * 16 + nibble m) ∷ t) out)
      (append_assoc (extension n) (lits ++ (low ∷ high ∷ extension m)) rest
        ∙ ap (λ t. extension n ++ t) (append_assoc lits (low ∷ high ∷ extension m) rest))
    ∙ step-literals cap m lits (low ∷ high ∷ (extension m ++ rest)) out room
    ∙ match_part-emitted cap n offset match_len rest (out ++ lits) small long

-- The decoder ends at the literals that the encoder writes last, and appends them.
pub step-emit_last :
    (cap : ℕ) (lits out : List ℕ)
    → length out + length lits ≤ cap
    → step cap (nibble (length lits) * 16 ∷ (extension (length lits) ++ lits)) out
      ≡ finish (out ++ lits)
unfolding match_part
step-emit_last cap lits out room =
    let n = length lits in
    let tok : nibble n * 16 ≡ nibble n * 16 + nibble 0 = ground arith in
    ap (λ (t : ℕ). step cap (t ∷ (extension n ++ lits)) out) tok
    ∙ ap (λ t. step cap ((nibble n * 16 + nibble 0) ∷ (extension n ++ t)) out)
        (sym (append-nil lits))
    ∙ step-literals cap 0 lits [] out room
