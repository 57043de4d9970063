-- ===== src/Clib/Lz4.antt =====
-- src/lib/lz4.c: block compression.
-- Buffers are lists of bytes, positions are offsets from the buffer's start. `dst_capacity` and the
-- lengths are far below 2 ^ 64, so sums of them do not wrap. The loops take fuel; `out_of_fuel` is
-- told apart from the code's own failure, and a theorem rules it out for both functions.
-- Null pointers have no counterpart.
pub mod Extension
pub mod Decoder
pub mod Matches
pub mod Sequence
pub mod Encoder
pub mod Overrun
pub mod Repeat
pub mod Tests
use aev_os.Common.{
  ℕ, zero, suc, ◌+◌, ◌-◌, ◌*◌, ◌/◌, ◌%◌, ◌^◌, Bool, true, false, not, ◌||◌, List, [], ◌∷◌, ◌++◌,
  ltb, leb, ◌==◌, if◌then◌else◌, length, get_or, take, drop,
}

-- The result of either function: the bytes written, or -1.
pub data Result : Type 0 where
  done : List ℕ → Result
  failed : Result
  out_of_fuel : Result

-- `*op++ = ...` in front of what the rest of the loop writes
pub prepend : List ℕ → Result → Result
prepend xs (done ys) = done (xs ++ ys)
prepend xs failed = failed
prepend xs out_of_fuel = out_of_fuel

abbrev pub min_match : ℕ
min_match = 4

abbrev pub max_input_size : ℕ
max_input_size = 0x7E00_0000

pub lz4_hash : ℕ → ℕ
lz4_hash val = val * 2654435761 % 2 ^ 32 / 2 ^ 20

-- the bytes at positions `p` to `p + 3`, little-endian
pub read32 : List ℕ → ℕ → ℕ
read32 src p =
    get_or src p 0
    + get_or src (p + 1) 0 * 2 ^ 8
    + get_or src (p + 2) 0 * 2 ^ 16
    + get_or src (p + 3) 0 * 2 ^ 24

-- `lz4_count`: how many bytes from `a` and `b` on are equal, with `rounds` left before the limit
pub lz4_count : List ℕ → ℕ → ℕ → ℕ → ℕ
lz4_count src a b zero = 0
lz4_count src a b (suc rounds) =
    let more = lz4_count src (a + 1) (b + 1) rounds in
    if get_or src a 0 == get_or src b 0 then suc more else 0

-- `while (rem >= 255) { *op++ = 255; rem -= 255; } *op++ = rem;`, where `rem` rounds are enough
pub ext_bytes : ℕ → ℕ → List ℕ
ext_bytes zero rem = rem ∷ []
ext_bytes (suc fuel) rem =
    let rest = ext_bytes fuel (rem - 255) in if leb 255 rem then 255 ∷ rest else rem ∷ []

-- the extension of a length whose header is `n` or 15
pub extension : ℕ → List ℕ
unfolding ext_bytes
extension n = if leb 15 n then ext_bytes (n - 15) (n - 15) else []

abbrev pub nibble : ℕ → ℕ
nibble n = if leb 15 n then 15 else n

-- a token, its literals, the offset and the match length
pub emit_sequence : List ℕ → ℕ → ℕ → List ℕ
emit_sequence lits offset match_len =
    (nibble (length lits) * 16 + nibble (match_len - min_match))
    ∷ (extension (length lits)
        ++ (lits
            ++ ((offset % 2 ^ 16 % 2 ^ 8)
                ∷ (offset % 2 ^ 16 / 2 ^ 8)
                ∷ extension (match_len - min_match))))

pub worst_sequence : ℕ → ℕ → ℕ
worst_sequence lit_len match_len = 1 + lit_len / 255 + lit_len + 2 + match_len / 255 + 1

-- the literals at the end, with `used` bytes of the output written
pub emit_last : List ℕ → ℕ → ℕ → Result
emit_last lits cap used =
    if ltb cap (used + (1 + length lits / 255 + length lits))
    then failed
    else done (nibble (length lits) * 16 ∷ (extension (length lits) ++ lits))

abbrev pub Table : Type 0
Table = ℕ → ℕ

-- `htable[h] = (uint16_t)pos`
abbrev pub store : Table → ℕ → ℕ → Table
store tab h pos g = if h == g then pos % 2 ^ 16 else tab g

-- the length of the match of `ip` with `ref`
pub match_length : List ℕ → ℕ → ℕ → ℕ
match_length src ip ref =
    min_match + lz4_count src (ip + min_match) (ref + min_match) (length src - (ip + min_match))

-- `ref` may serve as a match for `ip`.
pub is_match : List ℕ → ℕ → ℕ → Bool
is_match src ip ref = not (ltb 65535 (ip - ref) || not (read32 src ref == read32 src ip))

-- the position that the table has for the four bytes at `ip`
abbrev pub ref_of : List ℕ → Table → ℕ → ℕ
ref_of src tab ip = tab (lz4_hash (read32 src ip))

-- the table once `ip` is stored
abbrev pub seen : List ℕ → Table → ℕ → Table
seen src tab ip = store tab (lz4_hash (read32 src ip)) ip

-- the table behind a match: `if (ip < ilimit) htable[lz4_hash(read32(ip))] = ...`
abbrev pub after_match : List ℕ → Table → ℕ → Table
after_match src tab ip = if ltb (ip + min_match) (length src) then seen src tab ip else tab

-- the bytes from `anchor` up to `ip`
abbrev pub between : List ℕ → ℕ → ℕ → List ℕ
between src anchor ip = take (ip - anchor) (drop anchor src)

-- The loop of `lz4_compress` and the end behind it: what is written from here on.
pub compress_from : List ℕ → ℕ → ℕ → ℕ → ℕ → Table → ℕ → Result
compress_from src cap zero ip anchor tab used = out_of_fuel
compress_from src cap (suc fuel) ip anchor tab used =
    let ref = ref_of src tab ip in
    let tab' = seen src tab ip in
    let match_len = match_length src ip ref in
    let seq = emit_sequence (between src anchor ip) (ip - ref) match_len in
    let ip' = ip + match_len in
    let skip = compress_from src cap fuel (ip + 1) anchor tab' used in
    let next = compress_from src cap fuel ip' ip' (after_match src tab' ip') (used + length seq) in
    if not (ltb (ip + min_match) (length src))
    then emit_last (drop anchor src) cap used
    else if not (is_match src ip ref)
    then skip
    else if ltb cap (used + worst_sequence (ip - anchor) match_len)
    then failed
    else prepend seq next

pub lz4_compress : List ℕ → ℕ → Result
unfolding compress_from
lz4_compress src cap =
    if length src == 0
    then failed
    else if ltb max_input_size (length src)
    then failed
    else compress_from src cap (length src) 1 0 (λ h. 0) 0

-- `while (ip < iend) { b = *ip++; len += b; if (b < 255) break; }`
pub read_ext : ℕ → List ℕ → ℕ × List ℕ
read_ext len [] = (len, [])
read_ext len (b ∷ inp) = if ltb b 255 then (len + b, inp) else read_ext (len + b) inp

-- a length whose header is 15 goes on
pub read_length : ℕ → ℕ → List ℕ → ℕ × List ℕ
read_length header len inp = if header == 15 then read_ext len inp else (len, inp)

-- `for (i = 0; i < match_len; i++) op[i] = match_src[i];`
pub copy_bytes : List ℕ → ℕ → ℕ → List ℕ
copy_bytes out from zero = out
copy_bytes out from (suc n) = copy_bytes (out ++ (get_or out from 0 ∷ [])) (from + 1) n

pub copy_match : List ℕ → ℕ → ℕ → List ℕ
copy_match out offset match_len =
    if leb match_len offset
    then out ++ take match_len (drop (length out - offset) out)
    else copy_bytes out (length out - offset) match_len

-- One round of the loop ends the call, or leaves input and output for the next. Where the call
-- fails, `reject` has what lies in the output by then.
pub data Step : Type 0 where
  finish : List ℕ → Step
  reject : List ℕ → Step
  continue : List ℕ → List ℕ → Step

-- a round from the offset on
pub match_part : ℕ → ℕ → List ℕ → List ℕ → Step
match_part cap tok [] out = finish out
match_part cap tok (b ∷ []) out = reject out
match_part cap tok (b ∷ c ∷ inp) out =
    let offset = b + c * 2 ^ 8 in
    let (match_len, inp') = read_length (tok % 16) (tok % 16 + min_match) inp in
    if offset == 0
    then reject out
    else if ltb (length out) offset
    then reject out
    else if ltb cap (length out + match_len)
    then reject out
    else continue inp' (copy_match out offset match_len)

-- a round from the literals on
pub literal_part : ℕ → ℕ → ℕ × List ℕ → List ℕ → Step
literal_part cap tok (lit_len, inp) out =
    if ltb (length inp) lit_len || ltb cap (length out + lit_len)
    then reject out
    else match_part cap tok (drop lit_len inp) (out ++ take lit_len inp)

pub step : ℕ → List ℕ → List ℕ → Step
step cap [] out = finish out
step cap (tok ∷ inp) out = literal_part cap tok (read_length (tok / 16) (tok / 16) inp) out

pub decompress_from : ℕ → ℕ → List ℕ → List ℕ → Result
decompress_from cap zero inp out = out_of_fuel
decompress_from cap (suc fuel) inp out = elim (step cap inp out) [
  | finish out' ↦ done out'
  | reject out' ↦ failed
  | continue inp' out' ↦ decompress_from cap fuel inp' out'
]

pub lz4_decompress : List ℕ → ℕ → Result
unfolding decompress_from
lz4_decompress src cap = decompress_from cap (suc (length src)) src []

-- what the loop leaves in the output, whether it fails or not
pub written_from : ℕ → ℕ → List ℕ → List ℕ → List ℕ
written_from cap zero inp out = out
written_from cap (suc fuel) inp out = elim (step cap inp out) [
  | finish out' ↦ out'
  | reject out' ↦ out'
  | continue inp' out' ↦ written_from cap fuel inp' out'
]

-- the bytes that a call of `lz4_decompress` writes, whether it fails or not
pub lz4_written : List ℕ → ℕ → List ℕ
unfolding written_from
lz4_written src cap = written_from cap (suc (length src)) src []
