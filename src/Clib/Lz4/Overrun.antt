-- ===== src/Clib/Lz4/Overrun.antt =====
-- How many bytes the encoder writes, against the room it asks for.
use aev_os.Common.{
  ℕ, zero, suc, ◌+◌, ◌-◌, ◌/◌, ◌%◌, ◌^◌, ◌≤◌, ◌<◌, ◌≡◌, subst, false, List, ◌∷◌, ◌++◌, ltb, leb,
  ◌==◌, arith, length, drop, Bool-cases, inl, inr, length-append, length-take,
}
use aev_os.Clib.Lz4.{
  Result, done, failed, out_of_fuel, prepend, min_match, ext_bytes, extension, emit_sequence,
  emit_last, Table, ref_of, seen, after_match, match_length, is_match, between, worst_sequence,
  compress_from, lz4_compress, max_input_size,
}

length-ext_bytes : (fuel rem : ℕ) → rem ≤ fuel → length (ext_bytes fuel rem) ≡ suc (rem / 255)
unfolding ext_bytes
length-ext_bytes zero rem h = omega arith
length-ext_bytes (suc fuel) rem h = elim (Bool-cases (leb 255 rem)) [
  | inl e ↦ rw e (ground (arith, length-ext_bytes fuel (rem - 255) (omega arith)))
  | inr e ↦ rw e (ground arith)
]

length-extension : (n : ℕ) → length (extension n) ≤ suc (n / 255)
unfolding extension
length-extension n = ground (arith, length-ext_bytes (n - 15) (n - 15) (omega arith))

-- At most `k` bytes are written, if the result is a success.
abbrev pub IsWithin : ℕ → Result → Type 0
IsWithin k (done bs) = length bs ≤ k
IsWithin k failed = Unit
IsWithin k out_of_fuel = Unit

prepend-IsWithin :
    (xs : List ℕ) (r : Result) (cap used : ℕ)
    → IsWithin (suc cap - (used + length xs)) r
    → used + length xs ≤ suc cap
    → IsWithin (suc cap - used) (prepend xs r)
unfolding prepend
prepend-IsWithin xs (done ys) cap used h le = omega (arith, length-append xs ys)
prepend-IsWithin xs failed cap used h le = tt
prepend-IsWithin xs out_of_fuel cap used h le = tt

emit_last-IsWithin :
    (lits : List ℕ) (cap used : ℕ) → IsWithin (suc cap - used) (emit_last lits cap used)
unfolding emit_last
emit_last-IsWithin lits cap used =
    elim (Bool-cases (ltb cap (used + (1 + length lits / 255 + length lits)))) [
      | inl e ↦ rw e tt
      | inr e ↦ rw e (
          ground
            (arith, length-append (extension (length lits)) lits, length-extension (length lits)))
    ]

length-emit_sequence_le :
    (lits : List ℕ) (offset lit_len n : ℕ)
    → length lits ≤ lit_len
    → length (emit_sequence lits offset n) ≤ suc (worst_sequence lit_len n)
unfolding emit_sequence worst_sequence
length-emit_sequence_le lits offset lit_len n h =
    let low = offset % 2 ^ 16 % 2 ^ 8 in
    let high = offset % 2 ^ 16 / 2 ^ 8 in
    let tail = low ∷ high ∷ extension (n - min_match) in
    omega (
      arith,
      length-append (extension (length lits)) (lits ++ tail),
      length-append lits tail,
      length-extension (length lits),
      length-extension (n - min_match),
    )

compress_from-IsWithin :
    (src : List ℕ) (cap fuel ip anchor : ℕ) (tab : Table) (used : ℕ)
    → IsWithin (suc cap - used) (compress_from src cap fuel ip anchor tab used)
unfolding compress_from
compress_from-IsWithin src cap zero ip anchor tab used = tt
compress_from-IsWithin src cap (suc fuel) ip anchor tab used =
    let ref = ref_of src tab ip in
    let len = match_length src ip ref in
    elim (Bool-cases (ltb (ip + min_match) (length src))) [
      | inr l ↦ rw l (emit_last-IsWithin (drop anchor src) cap used)
      | inl l ↦ elim (Bool-cases (is_match src ip ref)) [
        | inr m ↦
            rw (l, m) (compress_from-IsWithin src cap fuel (ip + 1) anchor (seen src tab ip) used)
        | inl m ↦ elim (Bool-cases (ltb cap (used + worst_sequence (ip - anchor) len))) [
          | inl w ↦ rw (l, m, w) tt
          | inr w ↦
              let lits = between src anchor ip in
              let seq = emit_sequence lits (ip - ref) len in
              let size : length lits ≤ ip - anchor =
                omega (arith, length-take (ip - anchor) (drop anchor src)) in
              rw (l, m, w)
                (prepend-IsWithin seq _ cap used
                  (compress_from-IsWithin src cap fuel (ip + len) (ip + len)
                    (after_match src (seen src tab ip) (ip + len)) (used + length seq))
                  (ground (arith, length-emit_sequence_le lits (ip - ref) (ip - anchor) len size)))
        ]
      ]
    ]

-- `lz4_compress` writes at most one byte more than the capacity of its output.
pub length-lz4_compress :
    (src bs : List ℕ) (cap : ℕ) → lz4_compress src cap ≡ done bs → length bs ≤ cap + 1
unfolding lz4_compress
length-lz4_compress src bs cap e =
    let within : IsWithin (suc cap - 0) (lz4_compress src cap) =
      elim (Bool-cases (length src == 0)) [
        | inl z ↦ rw z tt
        | inr z ↦ elim (Bool-cases (ltb max_input_size (length src))) [
          | inl f ↦ rw (z, f) tt
          | inr f ↦ rw (z, f) (compress_from-IsWithin src cap (length src) 1 0 (λ h. 0) 0)
        ]
      ] in
    let le : length bs ≤ suc cap - 0 = subst (IsWithin (suc cap - 0)) e within in omega arith

length-extension_short : (n : ℕ) → 15 ≤ n → n < 255 → length (extension n) ≡ 1
unfolding extension
length-extension_short n lo hi = ground (arith, length-ext_bytes (n - 15) (n - 15) (omega arith))

-- `r` is a success that writes `k` bytes.
abbrev pub IsWrite : ℕ → Result → Type 0
IsWrite k (done bs) = length bs ≡ k
IsWrite k failed = ⊥
IsWrite k out_of_fuel = ⊥

-- With 15 to 254 literals at the end and one byte too few left in the output, the last check of the
-- capacity in lz4_compress passes and the output is overrun by one byte.
pub emit_last-overruns :
    (lits : List ℕ) (used : ℕ)
    → 15 ≤ length lits
    → length lits < 255
    → IsWrite (length lits + 2) (emit_last lits (used + (length lits + 1)) used)
unfolding emit_last
emit_last-overruns lits used lo hi =
    let cap = used + (length lits + 1) in
    let e : ltb cap (used + (1 + length lits / 255 + length lits)) ≡ false = ground arith in
    rw e (
      omega (
        arith,
        length-append (extension (length lits)) lits,
        length-extension_short (length lits) lo hi,
      ))
