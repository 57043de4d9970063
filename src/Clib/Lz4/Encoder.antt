-- ===== src/Clib/Lz4/Encoder.antt =====
-- The encoder ends, and what the decoder makes of its output.
use aev_os.Common.{
  ltb→lt, ℕ, zero, suc, ◌+◌, ◌-◌, ◌/◌, ◌^◌, ◌≤◌, ◌<◌, ◌≡◌, ◌⊎◌, refl, ap, sym, subst, ◌∙◌, true,
  false, List, [], ◌∷◌, ◌++◌, ltb, ◌==◌, arith, length, take, drop, Bool-cases, inl, inr,
  length-append, length-take, length-drop,
}
use aev_os.Clib.Lz4.{
  Result, done, failed, out_of_fuel, finish, reject, continue, prepend, min_match, emit_sequence,
  emit_last, copy_match, copy_bytes, step, lz4_hash, read32, Table, ref_of, seen, after_match,
  match_length, is_match, between, worst_sequence, compress_from, lz4_compress, decompress_from,
  lz4_decompress, max_input_size,
}
use aev_os.Clib.Lz4.Matches.{
  AreBytes, take-append-take-drop, copy_bytes-take, copy_match-eq-copy_bytes, match_length-le,
  match_length-ge, match_same,
}
use aev_os.Clib.Lz4.Sequence.{after_literals, step-emit_sequence, step-emit_last}

-- a result of the encoder that is not for want of fuel
abbrev pub Ends : Result → Type 0
Ends (done bs) = Unit
Ends failed = Unit
Ends out_of_fuel = ⊥

prepend-Ends : (xs : List ℕ) (r : Result) → Ends r → Ends (prepend xs r)
unfolding prepend
prepend-Ends xs (done ys) h = tt
prepend-Ends xs failed h = tt
prepend-Ends xs out_of_fuel h = h

emit_last-Ends : (lits : List ℕ) (cap used : ℕ) → Ends (emit_last lits cap used)
unfolding emit_last
emit_last-Ends lits cap used =
    elim (Bool-cases (ltb cap (used + (1 + length lits / 255 + length lits)))) [
      | inl e ↦ rw e tt
      | inr e ↦ rw e tt
    ]

compress_from-Ends :
    (src : List ℕ) (cap fuel ip anchor : ℕ) (tab : Table) (used : ℕ)
    → length src < ip + fuel
    → 0 < fuel
    → Ends (compress_from src cap fuel ip anchor tab used)
unfolding compress_from
compress_from-Ends src cap zero ip anchor tab used h pos = absurd (omega arith)
compress_from-Ends src cap (suc fuel) ip anchor tab used h pos =
    let ref = ref_of src tab ip in
    let len = match_length src ip ref in
    elim (Bool-cases (ltb (ip + min_match) (length src))) [
      | inr l ↦ rw l (emit_last-Ends (drop anchor src) cap used)
      | inl l ↦
          let inside : ip + min_match < length src = ltb→lt _ _ l in
          elim (Bool-cases (is_match src ip ref)) [
            | inr m ↦
                rw (l, m)
                  (compress_from-Ends src cap fuel (ip + 1) anchor (seen src tab ip) used
                    (omega arith) (omega arith))
            | inl m ↦ elim (Bool-cases (ltb cap (used + worst_sequence (ip - anchor) len))) [
              | inl w ↦ rw (l, m, w) tt
              | inr w ↦
                  let seq = emit_sequence (between src anchor ip) (ip - ref) len in
                  rw (l, m, w)
                    (prepend-Ends seq _ (
                      compress_from-Ends src cap fuel (ip + len) (ip + len)
                        (after_match src (seen src tab ip) (ip + len)) (used + length seq)
                        (omega (arith, match_length-ge src ip ref)) (omega arith)))
            ]
          ]
    ]

-- `lz4_compress` ends on every input.
pub lz4_compress-Ends : (src : List ℕ) (cap : ℕ) → Ends (lz4_compress src cap)
unfolding lz4_compress
lz4_compress-Ends src cap = elim (Bool-cases (length src == 0)) [
  | inl e ↦ rw e tt
  | inr e ↦ elim (Bool-cases (ltb max_input_size (length src))) [
    | inl f ↦ rw (e, f) tt
    | inr f ↦
        rw (e, f)
          (compress_from-Ends src cap (length src) 1 0 (λ h. 0) 0 (omega arith) (ground arith))
  ]
]

length-emit_sequence :
    (lits : List ℕ) (offset match_len : ℕ) → 0 < length (emit_sequence lits offset match_len)
unfolding emit_sequence
length-emit_sequence lits offset match_len = omega arith

-- Decoding these bytes behind `out` gives the whole source, or fails.
abbrev pub IsSound : ℕ → List ℕ → List ℕ → Result → Type 0
IsSound cap src out (done bs) =
    (fuel : ℕ)
    → length bs < fuel
    → (decompress_from cap fuel bs out ≡ done src) ⊎ (decompress_from cap fuel bs out ≡ failed)
IsSound cap src out failed = Unit
IsSound cap src out out_of_fuel = Unit

-- every entry of the table is at `ip` or before
abbrev pub IsBehind : ℕ → Table → Type 0
IsBehind ip tab = (h : ℕ) → tab h ≤ ip

seen-IsBehind :
    (src : List ℕ) (tab : Table) (ip ip' : ℕ)
    → ip ≤ ip'
    → IsBehind ip tab
    → IsBehind ip' (seen src tab ip')
seen-IsBehind src tab ip ip' le b h = ground (arith, b h)

after_match-IsBehind :
    (src : List ℕ) (tab : Table) (ip ip' : ℕ)
    → ip ≤ ip'
    → IsBehind ip tab
    → IsBehind ip' (after_match src tab ip')
after_match-IsBehind src tab ip ip' le b h = ground (arith, b h)

take-append-drop : (n : ℕ) (xs : List ℕ) → take n xs ++ drop n xs ≡ xs
take-append-drop zero xs = refl
take-append-drop (suc n) [] = refl
take-append-drop (suc n) (x ∷ xs) = ap (λ r. x ∷ r) (take-append-drop n xs)

decompress_from-finish :
    (cap fuel : ℕ) (inp out out' : List ℕ)
    → 0 < fuel
    → step cap inp out ≡ finish out'
    → decompress_from cap fuel inp out ≡ done out'
unfolding decompress_from
decompress_from-finish cap zero inp out out' h e = absurd (omega arith)
decompress_from-finish cap (suc fuel) inp out out' h e = rw (decompress_from, e)

pub decompress_from-reject :
    (cap fuel : ℕ) (inp out out' : List ℕ)
    → 0 < fuel
    → step cap inp out ≡ reject out'
    → decompress_from cap fuel inp out ≡ failed
unfolding decompress_from
decompress_from-reject cap zero inp out out' h e = absurd (omega arith)
decompress_from-reject cap (suc fuel) inp out out' h e = rw (decompress_from, e)

decompress_from-continue :
    (cap fuel : ℕ) (inp out inp' out' : List ℕ)
    → step cap inp out ≡ continue inp' out'
    → decompress_from cap (suc fuel) inp out ≡ decompress_from cap fuel inp' out'
unfolding decompress_from
decompress_from-continue cap fuel inp out inp' out' e = rw (decompress_from, e)

pub is_match-small : (src : List ℕ) (ip ref : ℕ) → is_match src ip ref ≡ true → ip - ref < 2 ^ 16
unfolding is_match
is_match-small src ip ref m = ground arith

emit_last-IsSound :
    (dcap cap used : ℕ) (src : List ℕ) (anchor : ℕ)
    → length src ≤ dcap
    → anchor ≤ length src
    → IsSound dcap src (take anchor src) (emit_last (drop anchor src) cap used)
unfolding emit_last
emit_last-IsSound dcap cap used src anchor room le =
    let lits = drop anchor src in
    elim (Bool-cases (ltb cap (used + (1 + length lits / 255 + length lits)))) [
      | inl e ↦ rw e tt
      | inr e ↦ rw e (λ fuel h. inl (
          decompress_from-finish dcap fuel _ (take anchor src) _ (omega arith) (
            step-emit_last dcap lits (take anchor src)
              (omega (arith, length-take anchor src, length-drop anchor src)))
          ∙ ap done (take-append-drop anchor src)))
    ]

-- The copy of a match that the search found goes on with the source.
copy_match-take :
    (src : List ℕ) (ip ref : ℕ)
    → AreBytes src
    → ref < ip
    → ip + min_match < length src
    → is_match src ip ref ≡ true
    → copy_match (take ip src) (ip - ref) (match_length src ip ref)
      ≡ take (ip + match_length src ip ref) src
copy_match-take src ip ref b lt inside m =
    let size : length (take ip src) ≡ ip = omega (arith, length-take ip src) in
    let from : length (take ip src) - (ip - ref) ≡ ref = omega arith in
    copy_match-eq-copy_bytes (take ip src) (ip - ref) (match_length src ip ref) (omega arith)
    ∙ ap (λ (k : ℕ). copy_bytes (take ip src) k (match_length src ip ref)) from
    ∙ copy_bytes-take src ip ref (match_length src ip ref) lt (match_length-le src ip ref inside)
        (λ i h. match_same src ip ref i b m h)

-- A round of the decoder with a match that the search found.
after_literals-take :
    (dcap : ℕ) (src : List ℕ) (ip ref : ℕ) (rest : List ℕ)
    → AreBytes src
    → length src ≤ dcap
    → ref ≤ ip
    → ip + min_match < length src
    → is_match src ip ref ≡ true
    → (after_literals dcap (ip - ref) (match_length src ip ref) rest (take ip src)
        ≡ continue rest (take (ip + match_length src ip ref) src))
      ⊎ (after_literals dcap (ip - ref) (match_length src ip ref) rest (take ip src)
          ≡ reject (take ip src))
after_literals-take dcap src ip ref rest b room le inside m =
    let size : length (take ip src) ≡ ip = omega (arith, length-take ip src) in
    elim (Bool-cases (ip - ref == 0)) [
      | inl e ↦ inr (rw e refl)
      | inr e ↦
          let lt : ref < ip = ground arith in
          let e1 : ltb (length (take ip src)) (ip - ref) ≡ false = ground arith in
          let e2 : ltb dcap (length (take ip src) + match_length src ip ref) ≡ false =
            ground (arith, match_length-le src ip ref inside) in
          inl (rw (e, e1, e2) (ap (continue rest) (copy_match-take src ip ref b lt inside m)))
    ]

sequence_done :
    (dcap : ℕ) (src : List ℕ) (anchor ip ref : ℕ) (ys : List ℕ) (fuel : ℕ)
    → AreBytes src
    → length src ≤ dcap
    → anchor ≤ ip
    → ref ≤ ip
    → ip + min_match < length src
    → is_match src ip ref ≡ true
    → IsSound dcap src (take (ip + match_length src ip ref) src) (done ys)
    → length (emit_sequence (between src anchor ip) (ip - ref) (match_length src ip ref) ++ ys)
      < fuel
    → (decompress_from dcap fuel
          (emit_sequence (between src anchor ip) (ip - ref) (match_length src ip ref) ++ ys)
          (take anchor src)
        ≡ done src)
      ⊎ (decompress_from dcap fuel
            (emit_sequence (between src anchor ip) (ip - ref) (match_length src ip ref) ++ ys)
            (take anchor src)
          ≡ failed)
sequence_done dcap src anchor ip ref ys zero b room la lr inside m s h = absurd (omega arith)
sequence_done dcap src anchor ip ref ys (suc fuel) b room la lr inside m s h =
    let seq = emit_sequence (between src anchor ip) (ip - ref) (match_length src ip ref) in
    let whole : anchor + (ip - anchor) ≡ ip = omega arith in
    let text : take anchor src ++ between src anchor ip ≡ take ip src =
      take-append-take-drop anchor (ip - anchor) src ∙ ap (λ (k : ℕ). take k src) whole in
    let round =
      step-emit_sequence dcap (between src anchor ip) (ip - ref) (match_length src ip ref) ys
        (take anchor src) (is_match-small src ip ref m) (match_length-ge src ip ref)
        (omega (
          arith,
          ap length text,
          length-append (take anchor src) (between src anchor ip),
          length-take ip src,
        ))
      ∙ ap (after_literals dcap (ip - ref) (match_length src ip ref) ys) text in
    elim (after_literals-take dcap src ip ref ys b room lr inside m) [
      | inr e ↦
          inr
            (decompress_from-reject dcap (suc fuel) _ (take anchor src) _ (omega arith) (round ∙ e))
      | inl e ↦
          subst (λ t. (t ≡ done src) ⊎ (t ≡ failed))
            (sym (decompress_from-continue dcap fuel _ (take anchor src) _ _ (round ∙ e)))
            (s fuel (
              omega (
                arith,
                length-append seq ys,
                length-emit_sequence (between src anchor ip) (ip - ref) (match_length src ip ref),
              )))
    ]

sequence-IsSound :
    (dcap : ℕ) (src : List ℕ) (anchor ip ref : ℕ) (r : Result)
    → AreBytes src
    → length src ≤ dcap
    → anchor ≤ ip
    → ref ≤ ip
    → ip + min_match < length src
    → is_match src ip ref ≡ true
    → IsSound dcap src (take (ip + match_length src ip ref) src) r
    → IsSound dcap src
        (take anchor src)
        (prepend (emit_sequence (between src anchor ip) (ip - ref) (match_length src ip ref)) r)
unfolding prepend
sequence-IsSound dcap src anchor ip ref failed b room la lr inside m s = tt
sequence-IsSound dcap src anchor ip ref out_of_fuel b room la lr inside m s = tt
sequence-IsSound dcap src anchor ip ref (done ys) b room la lr inside m s =
    λ fuel h. sequence_done dcap src anchor ip ref ys fuel b room la lr inside m s h

compress_from-IsSound :
    (dcap : ℕ) (src : List ℕ) (cap fuel ip anchor : ℕ) (tab : Table) (used : ℕ)
    → AreBytes src
    → length src ≤ dcap
    → anchor ≤ ip
    → anchor ≤ length src
    → IsBehind ip tab
    → IsSound dcap src (take anchor src) (compress_from src cap fuel ip anchor tab used)
unfolding compress_from
compress_from-IsSound dcap src cap zero ip anchor tab used b room la ls behind = tt
compress_from-IsSound dcap src cap (suc fuel) ip anchor tab used b room la ls behind =
    let ref = ref_of src tab ip in
    let len = match_length src ip ref in
    elim (Bool-cases (ltb (ip + min_match) (length src))) [
      | inr l ↦ rw l (emit_last-IsSound dcap cap used src anchor room ls)
      | inl l ↦
          let inside : ip + min_match < length src = ltb→lt _ _ l in
          elim (Bool-cases (is_match src ip ref)) [
            | inr m ↦
                rw (l, m)
                  (compress_from-IsSound dcap src cap fuel (ip + 1) anchor (seen src tab ip) used b
                    room (omega arith) ls
                    (λ h. ground (arith, seen-IsBehind src tab ip ip (omega arith) behind h)))
            | inl m ↦ elim (Bool-cases (ltb cap (used + worst_sequence (ip - anchor) len))) [
              | inl w ↦ rw (l, m, w) tt
              | inr w ↦
                  let seq = emit_sequence (between src anchor ip) (ip - ref) len in
                  rw (l, m, w)
                    (sequence-IsSound dcap src anchor ip ref _ b room la
                      (behind (lz4_hash (read32 src ip))) inside m
                      (compress_from-IsSound dcap src cap fuel (ip + len) (ip + len)
                        (after_match src (seen src tab ip) (ip + len)) (used + length seq) b room
                        (omega arith) (match_length-le src ip ref inside)
                        (after_match-IsBehind src (seen src tab ip) ip (ip + len) (omega arith)
                          (seen-IsBehind src tab ip ip (omega arith) behind))))
            ]
          ]
    ]

-- Where lz4_compress succeeds on a list of bytes, lz4_decompress with room for them either gives
-- them back or fails; it never gives anything else.
pub lz4_decompress-lz4_compress :
    (src bs : List ℕ) (cap dcap : ℕ)
    → AreBytes src
    → length src ≤ dcap
    → lz4_compress src cap ≡ done bs
    → (lz4_decompress bs dcap ≡ done src) ⊎ (lz4_decompress bs dcap ≡ failed)
unfolding lz4_compress lz4_decompress
lz4_decompress-lz4_compress src bs cap dcap b room e =
    subst (IsSound dcap src []) e
      (elim (Bool-cases (length src == 0)) [
        | inl z ↦ rw z tt
        | inr z ↦ elim (Bool-cases (ltb max_input_size (length src))) [
          | inl f ↦ rw (z, f) tt
          | inr f ↦
              rw (z, f)
                (compress_from-IsSound dcap src cap (length src) 1 0 (λ h. 0) 0 b room (omega arith)
                  (omega arith) (λ h. omega arith))
        ]
      ])
      (suc (length bs)) (omega arith)
