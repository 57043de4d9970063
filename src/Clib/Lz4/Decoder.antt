-- ===== src/Clib/Lz4/Decoder.antt =====
-- The decoder ends, and stays inside its output buffer.
use aev_os.Common.{
  ◌||◌, ◌^◌, ℕ, zero, suc, ◌+◌, ◌-◌, ◌*◌, ◌/◌, ◌%◌, ◌≤◌, ◌<◌, ◌≡◌, refl, List, [], ◌∷◌, ◌++◌, ltb,
  ◌==◌, arith, length, take, drop, get_or, Bool-cases, inl, inr, length-append, length-take,
  length-drop,
}
use aev_os.Clib.Lz4.{
  Result, done, failed, out_of_fuel, Step, finish, reject, continue, read_length, copy_bytes,
  copy_match, match_part, literal_part, step, decompress_from, written_from, lz4_decompress,
  lz4_written, min_match,
}
use aev_os.Clib.Lz4.Extension.{length-read_length}

length-copy_bytes : (out : List ℕ) (from n : ℕ) → length (copy_bytes out from n) ≡ length out + n
unfolding copy_bytes
length-copy_bytes out from zero = omega arith
length-copy_bytes out from (suc n) = omega (
  arith,
  length-copy_bytes (out ++ (get_or out from 0 ∷ [])) (from + 1) n,
  length-append out (get_or out from 0 ∷ []),
)

length-copy_match :
    (out : List ℕ) (offset n : ℕ)
    → offset ≤ length out
    → length (copy_match out offset n) ≡ length out + n
unfolding copy_match
length-copy_match out offset n h =
    let src = drop (length out - offset) out in
    ground (
      arith,
      length-copy_bytes out (length out - offset) n,
      length-append out (take n src),
      length-take n src,
      length-drop (length out - offset) out,
    )

-- what holds of a round that starts with `out` inside the buffer
abbrev Good : ℕ → ℕ → Step → Type 0
Good cap left (finish out) = length out ≤ cap
Good cap left (reject out) = length out ≤ cap
Good cap left (continue inp out) = (length out ≤ cap) × (length inp < left)

match_part-Good :
    (cap tok : ℕ) (inp out : List ℕ) (left : ℕ)
    → length out ≤ cap
    → length inp < left
    → Good cap left (match_part cap tok inp out)
unfolding match_part
match_part-Good cap tok [] out left h l = h
match_part-Good cap tok (b ∷ []) out left h l = h
match_part-Good cap tok (b ∷ c ∷ inp) out left h l =
    let offset = b + c * 2 ^ 8 in
    let (match_len, inp') = read_length (tok % 16) (tok % 16 + min_match) inp in
    elim (Bool-cases (offset == 0)) [
      | inl e ↦ rw e h
      | inr e ↦ elim (Bool-cases (ltb (length out) offset)) [
        | inl f ↦ rw (e, f) h
        | inr f ↦ elim (Bool-cases (ltb cap (length out + match_len))) [
          | inl g ↦ rw (e, f, g) h
          | inr g ↦
              rw (e, f, g)
                (
                  ground (arith, length-copy_match out offset match_len),
                  omega (arith, length-read_length (tok % 16) (tok % 16 + min_match) inp),
                )
        ]
      ]
    ]

literal_part-Good :
    (cap tok len : ℕ) (inp out : List ℕ) (left : ℕ)
    → length out ≤ cap
    → length inp < left
    → Good cap left (literal_part cap tok (len, inp) out)
unfolding literal_part
literal_part-Good cap tok len inp out left h l =
    elim (Bool-cases (ltb (length inp) len || ltb cap (length out + len))) [
      | inl e ↦ rw e h
      | inr e ↦ rw e (
          match_part-Good cap tok (drop len inp) (out ++ take len inp) left
            (ground (arith, length-append out (take len inp), length-take len inp))
            (omega (arith, length-drop len inp)))
    ]

step-Good :
    (cap : ℕ) (inp out : List ℕ) (left : ℕ)
    → length out ≤ cap
    → length inp ≤ left
    → Good cap left (step cap inp out)
unfolding step
step-Good cap [] out left h l = h
step-Good cap (tok ∷ inp) out left h l =
    literal_part-Good cap tok (read_length (tok / 16) (tok / 16) inp).0
      (read_length (tok / 16) (tok / 16) inp).1 out left h
      (omega (arith, length-read_length (tok / 16) (tok / 16) inp))

-- How a call ends that leaves `out` in its output: it returns what it wrote, or fails, and in either
-- case wrote `cap` bytes at most.
abbrev pub Fits : ℕ → List ℕ → Result → Type 0
Fits cap out (done r) = (r ≡ out) × (length out ≤ cap)
Fits cap out failed = length out ≤ cap
Fits cap out out_of_fuel = ⊥

decompress_from-Fits :
    (cap fuel : ℕ) (inp out : List ℕ)
    → length out ≤ cap
    → length inp < fuel
    → Fits cap (written_from cap fuel inp out) (decompress_from cap fuel inp out)
unfolding decompress_from written_from
decompress_from-Fits cap zero inp out h l = absurd (omega arith)
decompress_from-Fits cap (suc fuel) inp out h l =
    go (step cap inp out) (λ inp' out' h' l'. decompress_from-Fits cap fuel inp' out' h' l')
      (step-Good cap inp out fuel h (omega arith))
  where
    go :
        (s : Step)
        → ((inp' out' : List ℕ)
            → length out' ≤ cap
            → length inp' < fuel
            → Fits cap (written_from cap fuel inp' out') (decompress_from cap fuel inp' out'))
        → Good cap fuel s
        → Fits cap
            (elim s [
              | finish out' ↦ out'
              | reject out' ↦ out'
              | continue inp' out' ↦ written_from cap fuel inp' out'
            ])
            (elim s [
              | finish out' ↦ done out'
              | reject out' ↦ failed
              | continue inp' out' ↦ decompress_from cap fuel inp' out'
            ])
    go (finish out') ih g = (refl, g)
    go (reject out') ih g = g
    go (continue inp' out') ih g = ih inp' out' g.0 g.1

-- lz4_decompress ends on every input, valid or not. Where it succeeds, its result is what it wrote;
-- where it fails, bytes may be written too; and in either case it wrote at most dst_capacity bytes.
pub lz4_decompress-Fits :
    (src : List ℕ) (cap : ℕ) → Fits cap (lz4_written src cap) (lz4_decompress src cap)
unfolding lz4_decompress lz4_written
lz4_decompress-Fits src cap =
    decompress_from-Fits cap (suc (length src)) src [] (omega arith) (omega arith)
