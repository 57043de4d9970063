-- ===== src/Clib/Lz4/Repeat.antt =====
-- The table entry written behind a match: the position it stores is the next one searched.
use aev_os.Common.{
  ℕ, suc, ◌+◌, ◌-◌, ◌^◌, ◌≤◌, ◌<◌, ◌≡◌, ap, subst, true, List, [], ◌++◌, ltb, arith, length, drop,
  Bool-cases, inl, inr, take,
}
use aev_os.Clib.Lz4.{
  Result, done, failed, out_of_fuel, prepend, min_match, emit_sequence, Table, ref_of, after_match,
  match_length, is_match, between, worst_sequence, compress_from, decompress_from,
}
use aev_os.Clib.Lz4.Matches.{match_length-ge}
use aev_os.Clib.Lz4.Sequence.{step-emit_sequence}
use aev_os.Clib.Lz4.Encoder.{decompress_from-reject}

ref_of-after_match :
    (src : List ℕ) (tab : Table) (ip : ℕ)
    → ip + min_match < length src
    → ip < 2 ^ 16
    → ref_of src (after_match src tab ip) ip ≡ ip
ref_of-after_match src tab ip inside small = ground arith

is_match_self : (src : List ℕ) (ip : ℕ) → is_match src ip ip ≡ true
unfolding is_match
is_match_self src ip = ground arith

between_self : (src : List ℕ) (ip : ℕ) → between src ip ip ≡ []
between_self src ip = let e : ip - ip ≡ 0 = omega arith in ap (λ (n : ℕ). take n (drop ip src)) e

-- A sequence without literals and with offset 0 ends the decoder with a failure.
zero_offset-failed :
    (dcap fuel n : ℕ) (rest out : List ℕ)
    → 0 < fuel
    → min_match ≤ n
    → length out ≤ dcap
    → decompress_from dcap fuel (emit_sequence [] 0 n ++ rest) out ≡ failed
zero_offset-failed dcap fuel n rest out pos le room =
    decompress_from-reject dcap fuel _ out _ pos
      (step-emit_sequence dcap [] 0 n rest out (omega arith) le (omega arith))

-- The decoder fails on these bytes behind `out`.
abbrev IsRejected : ℕ → ℕ → List ℕ → Result → Type 0
IsRejected dcap fuel out (done bs) = decompress_from dcap fuel bs out ≡ failed
IsRejected dcap fuel out failed = Unit
IsRejected dcap fuel out out_of_fuel = Unit

prepend-IsRejected :
    (dcap fuel n : ℕ) (out : List ℕ) (r : Result)
    → 0 < fuel
    → min_match ≤ n
    → length out ≤ dcap
    → IsRejected dcap fuel out (prepend (emit_sequence [] 0 n) r)
unfolding prepend
prepend-IsRejected dcap fuel n out (done ys) pos le room =
    zero_offset-failed dcap fuel n ys out pos le room
prepend-IsRejected dcap fuel n out failed pos le room = tt
prepend-IsRejected dcap fuel n out out_of_fuel pos le room = tt

compress_from-IsRejected :
    (src out : List ℕ) (cap fuel ip used dcap dfuel : ℕ) (tab : Table)
    → ip + min_match < length src
    → ref_of src tab ip ≡ ip
    → length out ≤ dcap
    → 0 < dfuel
    → IsRejected dcap dfuel out (compress_from src cap (suc fuel) ip ip tab used)
unfolding compress_from
compress_from-IsRejected src out cap fuel ip used dcap dfuel tab inside self room pos =
    let len = match_length src ip ip in
    let l : ltb (ip + min_match) (length src) ≡ true = ground arith in
    let zero_offset : ip - ip ≡ 0 = omega arith in
    rw (l, self, is_match_self src ip)
      (elim (Bool-cases (ltb cap (used + worst_sequence (ip - ip) len))) [
        | inl w ↦ rw w tt
        | inr w ↦
            rw (w, between_self src ip, zero_offset)
              (prepend-IsRejected dcap dfuel len out _ pos (match_length-ge src ip ip) room)
      ])

-- Behind a match, with a position below 2 ^ 16 and more than four bytes left, the loop of
-- lz4_compress finds the position itself in the table: if it succeeds, the decoder fails on what it
-- writes from there on, whatever is decoded before.
pub compress_from-rejected :
    (src out bs : List ℕ) (cap fuel ip used dcap dfuel : ℕ) (tab : Table)
    → ip + min_match < length src
    → ip < 2 ^ 16
    → length out ≤ dcap
    → 0 < dfuel
    → compress_from src cap (suc fuel) ip ip (after_match src tab ip) used ≡ done bs
    → decompress_from dcap dfuel bs out ≡ failed
compress_from-rejected src out bs cap fuel ip used dcap dfuel tab inside small room pos e =
    subst (IsRejected dcap dfuel out) e (
      compress_from-IsRejected src out cap fuel ip used dcap dfuel (after_match src tab ip) inside
        (ref_of-after_match src tab ip inside small) room pos)
