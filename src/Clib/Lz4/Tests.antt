-- ===== src/Clib/Lz4/Tests.antt =====
-- The theorems on the compression at concrete texts.
use aev_os.Common.{
  ℕ, zero, suc, ◌+◌, ◌≡◌, ◌⊎◌, refl, Bool, true, false, List, [], ◌∷◌, ◌++◌, arith, if◌then◌else◌,
  ltb, length, replicate,
}
use aev_os.Clib.Lz4.{
  done, failed, lz4_compress, lz4_decompress, compress_from, decompress_from, read32, lz4_hash,
  is_match, match_length, lz4_count, emit_sequence, emit_last, ext_bytes, extension, step,
  literal_part, match_part, read_length, read_ext, copy_match, copy_bytes, prepend, worst_sequence,
  Table, after_match, lz4_written,
}
use aev_os.Clib.Lz4.Decoder.{Fits, lz4_decompress-Fits}
use aev_os.Clib.Lz4.Matches.{AreBytes}
use aev_os.Clib.Lz4.Encoder.{lz4_decompress-lz4_compress}
use aev_os.Clib.Lz4.Overrun.{IsWrite, emit_last-overruns}
use aev_os.Clib.Lz4.Repeat.{compress_from-rejected}

-- one match, which ends four bytes before the text does
abbrev pub text : List ℕ
text = 97 ∷ 98 ∷ 99 ∷ 100 ∷ 97 ∷ 98 ∷ 99 ∷ 100 ∷ 97 ∷ 98 ∷ 1 ∷ 2 ∷ 3 ∷ []

-- a match with more than four bytes behind it
abbrev long_text : List ℕ
long_text = text ++ (4 ∷ 5 ∷ 6 ∷ [])

abbrev pub packed : List ℕ
packed = 66 ∷ 97 ∷ 98 ∷ 99 ∷ 100 ∷ 4 ∷ 0 ∷ 48 ∷ 1 ∷ 2 ∷ 3 ∷ []

lz4_compress-text : lz4_compress text 64 ≡ done packed
unfolding lz4_compress compress_from read32 lz4_hash is_match match_length lz4_count emit_sequence
    emit_last extension ext_bytes prepend worst_sequence
lz4_compress-text = refl

-- the capacity that history_push gives
pub lz4_compress-text_tight : lz4_compress text 29 ≡ done packed
unfolding lz4_compress compress_from read32 lz4_hash is_match match_length lz4_count emit_sequence
    emit_last extension ext_bytes prepend worst_sequence
lz4_compress-text_tight = refl

lz4_decompress-packed : lz4_decompress packed 64 ≡ done text
unfolding lz4_decompress decompress_from step literal_part match_part read_length read_ext
    copy_match copy_bytes
lz4_decompress-packed = refl

abbrev broken : List ℕ
broken = 66 ∷ 97 ∷ 98 ∷ 99 ∷ 100 ∷ 4 ∷ 0 ∷ 2 ∷ 0 ∷ 0 ∷ 0 ∷ []

lz4_compress-long_text : lz4_compress long_text 64 ≡ done broken
unfolding lz4_compress compress_from read32 lz4_hash is_match match_length lz4_count emit_sequence
    emit_last extension ext_bytes prepend worst_sequence
lz4_compress-long_text = refl

lz4_decompress-broken : lz4_decompress broken 64 ≡ failed
unfolding lz4_decompress decompress_from step literal_part match_part read_length read_ext
    copy_match copy_bytes
lz4_decompress-broken = refl

-- every element is below 256
all_bytes : List ℕ → Bool
all_bytes [] = true
all_bytes (x ∷ xs) = if ltb x 256 then all_bytes xs else false

all_bytes-AreBytes : (xs : List ℕ) → all_bytes xs ≡ true → AreBytes xs
unfolding all_bytes
all_bytes-AreBytes [] h i = omega arith
all_bytes-AreBytes (x ∷ xs) h zero = ground arith
all_bytes-AreBytes (x ∷ xs) h (suc i) = all_bytes-AreBytes xs (ground arith) i

pub text-AreBytes : AreBytes text
unfolding all_bytes
text-AreBytes = all_bytes-AreBytes text refl

abbrev sevens : List ℕ
sevens = replicate 20 7

lz4_decompress-Fits_example : Fits 8 (lz4_written packed 8) (lz4_decompress packed 8)
lz4_decompress-Fits_example = lz4_decompress-Fits packed 8

lz4_decompress-lz4_compress_example :
    (lz4_decompress packed 64 ≡ done text) ⊎ (lz4_decompress packed 64 ≡ failed)
lz4_decompress-lz4_compress_example =
    lz4_decompress-lz4_compress text packed 64 64 text-AreBytes (omega arith) lz4_compress-text

emit_last-overruns_example :
    IsWrite (length sevens + 2) (emit_last sevens (0 + (length sevens + 1)) 0)
emit_last-overruns_example =
    emit_last-overruns sevens 0 (unfold replicate in omega arith) (unfold replicate in omega arith)

-- the table with position 3 stored as the code does behind a match
abbrev table : Table
table = after_match sevens (λ h. 0) 3

abbrev rest : List ℕ
rest = 13 ∷ 0 ∷ 0 ∷ 0 ∷ []

compress_from-rest : compress_from sevens 64 20 3 3 table 10 ≡ done rest
unfolding compress_from read32 lz4_hash is_match match_length lz4_count emit_sequence emit_last
    extension ext_bytes prepend worst_sequence replicate
compress_from-rest = refl

compress_from-rejected_example : decompress_from 64 9 rest (7 ∷ 7 ∷ 7 ∷ []) ≡ failed
compress_from-rejected_example =
    compress_from-rejected sevens (7 ∷ 7 ∷ 7 ∷ []) rest 64 19 3 10 64 9 (λ h. 0)
      (unfold replicate in omega arith) (omega arith) (omega arith) (omega arith) compress_from-rest

pub lz4_decompress-packed_tight : lz4_decompress packed 13 ≡ done text
unfolding lz4_decompress decompress_from step literal_part match_part read_length read_ext
    copy_match copy_bytes
lz4_decompress-packed_tight = refl
