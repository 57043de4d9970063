-- ===== src/Agent/History/Texts.antt =====
-- The texts that the entries of src/agent/history.c were made of, for history_search.
use aev_os.Common.{
  ℕ, ◌<◌, ◌≡◌, ◌⊎◌, ap, ap₂, ◌∙◌, some, List, [], ◌∷◌, ◌==◌, if◌then◌else◌, arith, length, take,
  inl, inr, refl, false,
}
use aev_os.Clib.Str.{cstr}
use aev_os.Clib.Str.Compare.{IsString}
use aev_os.Clib.Lz4.{done, failed, lz4_decompress}
use aev_os.Agent.History.{HistEntry, stored, raw_or}

-- The text can be read from what `history_push` stores for it: either the stored bytes decompress
-- to it, or it is stored as it is and the decoder refuses it.
abbrev pub IsReadable : List ℕ → Type 0
IsReadable t =
    ((lz4_decompress (stored t) (length t) ≡ done t) × (0 < length t))
    ⊎ ((lz4_decompress (stored t) (length t) ≡ failed) × (stored t ≡ t))

-- The entry holds what `history_push` stores for the text, which is a string that can be read back.
pub record StandsFor (e : HistEntry) (t : List ℕ) : Type 0 where
  pub bytes : e.data_bytes ≡ some (stored t)
  pub data_len : e.data_len ≡ length (stored t)
  pub raw_len : e.raw_len ≡ length t
  pub string : IsString t
  pub readable : IsReadable t

-- The entries stand for the texts, in their order.
abbrev pub AreTexts : List HistEntry → List (List ℕ) → Type 0
AreTexts [] [] = Unit
AreTexts [] (t ∷ ts) = ⊥
AreTexts (e ∷ es) [] = ⊥
AreTexts (e ∷ es) (t ∷ ts) = StandsFor e t × AreTexts es ts

take_length : (xs : List ℕ) → take (length xs) xs ≡ xs
take_length [] = refl
take_length (x ∷ xs) = ap (λ r. x ∷ r) (take_length xs)

cstr_of_string : (t : List ℕ) → IsString t → cstr t ≡ t
unfolding cstr
cstr_of_string [] s = refl
cstr_of_string (c ∷ t) s =
    let ne : (c == 0) ≡ false = ground (arith, s.0) in
    rw ne (ap (λ r. c ∷ r) (cstr_of_string t s.1))

-- What is read of an entry is its text.
pub cstr-raw_or :
    (e : HistEntry) (t : List ℕ)
    → StandsFor e t
    → cstr (raw_or (stored t) e.data_len (lz4_decompress (stored t) e.raw_len)) ≡ t
cstr-raw_or e t s =
    ap₂ (λ (m n : ℕ). cstr (raw_or (stored t) m (lz4_decompress (stored t) n))) s.data_len s.raw_len
    ∙ ap cstr (elim s.readable [
      | inl d ↦
          let ne : (length t == 0) ≡ false = ground (arith, d.1) in
          ap (raw_or (stored t) (length (stored t))) d.0
          ∙ ap (λ b. if b then take (length (stored t)) (stored t) else t) ne
      | inr f ↦ ap (raw_or (stored t) (length (stored t))) f.0 ∙ take_length (stored t) ∙ f.1
    ])
    ∙ cstr_of_string t s.string
