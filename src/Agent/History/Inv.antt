-- ===== src/Agent/History/Inv.antt =====
-- The invariant of the history, and the list of the entries that it holds.
use aev_os.Common.{
  ℕ, zero, suc, ◌+◌, ◌-◌, ◌%◌, ◌^◌, ◌≤◌, ◌<◌, ◌≡◌, refl, ap, ap₂, ◌∙◌, List, [], ◌∷◌, ◌++◌, arith,
  false, length, get_or, take, length-replicate,
}
use native.Mathlib.Numerals.{add-one}
use aev_os.Agent.History.{
  HistEntry, History, hist_ring_size, zero_entry, history_init, entry_at, history_count,
}

-- `n` entries from number `k` on
unfoldable pub entries_from : History → ℕ → ℕ → List HistEntry
entries_from h k zero = []
entries_from h k (suc n) = entry_at h k ∷ entries_from h (k + 1) n

-- the live entries, oldest first
unfoldable pub entries : History → List HistEntry
unfolding entries_from
entries h = entries_from h h.tail (h.head - h.tail)

abbrev pub tokens : List HistEntry → ℕ
tokens [] = 0
tokens (e ∷ es) = e.token_count + tokens es

-- The token count is a word, and the buffer was not given back.
abbrev pub IsSound : HistEntry → Type 0
IsSound e = (e.token_count < 2 ^ 32) × (e.dangling ≡ false)

abbrev pub AreSound : List HistEntry → Type 0
AreSound [] = Unit
AreSound (e ∷ es) = IsSound e × AreSound es

-- `head` and `tail` have not wrapped, no live entry has a buffer given back, and the window counts
-- the tokens of the live entries.
pub record IsValid (h : History) : Type 0 where
  pub cells : length h.ring ≡ hist_ring_size
  pub order : h.tail ≤ h.head
  pub numbers : h.head < 2 ^ 32
  pub fits : h.head - h.tail ≤ hist_ring_size
  pub sound : AreSound (entries h)
  pub window : h.window_tokens ≡ tokens (entries h) % 2 ^ 32

length-entries_from : (h : History) (k n : ℕ) → length (entries_from h k n) ≡ n
unfolding entries_from
length-entries_from h k zero = refl
length-entries_from h k (suc n) = ap suc (length-entries_from h (k + 1) n)

pub length-entries : (h : History) → length (entries h) ≡ h.head - h.tail
unfolding entries
length-entries h = length-entries_from h h.tail (h.head - h.tail)

pub history_count-eq : (h : History) → IsValid h → history_count h ≡ length (entries h)
history_count-eq h v = omega (arith, length-entries h, v.order, v.numbers)

-- Rings with the same entries hold the same lists.
pub entries_from_ext :
    (h h' : History) (k n : ℕ)
    → ((i : ℕ) → k ≤ i → i < k + n → entry_at h' i ≡ entry_at h i)
    → entries_from h' k n ≡ entries_from h k n
unfolding entries_from
entries_from_ext h h' k zero same = refl
entries_from_ext h h' k (suc n) same =
    ap₂ ◌∷◌ (same k (omega arith) (omega arith))
      (entries_from_ext h h' (k + 1) n (λ i lo hi. same i (omega arith) (omega arith)))

pub entries_from-snoc :
    (h : History) (k n : ℕ)
    → entries_from h k (n + 1) ≡ entries_from h k n ++ (entry_at h (k + n) ∷ [])
unfolding entries_from
entries_from-snoc h k n = rw (add-one n) (go k n)
  where
    go : (k n : ℕ) → entries_from h k (suc n) ≡ entries_from h k n ++ (entry_at h (k + n) ∷ [])
    go k zero = ap (λ i. entry_at h i ∷ []) (omega arith)
    go k (suc n) =
        ap (λ r. entry_at h k ∷ r)
          (go (k + 1) n ∙ ap (λ i. entries_from h (k + 1) n ++ (entry_at h i ∷ [])) (omega arith))

pub entries_from-take :
    (h : History) (k n m : ℕ) → m ≤ n → take m (entries_from h k n) ≡ entries_from h k m
unfolding entries_from
entries_from-take h k n zero le = refl
entries_from-take h k zero (suc m) le = absurd (omega arith)
entries_from-take h k (suc n) (suc m) le =
    ap (λ r. entry_at h k ∷ r) (entries_from-take h (k + 1) n m (omega arith))

pub get_or-entries_from :
    (h : History) (k n i : ℕ)
    → i < n
    → get_or (entries_from h k n) i zero_entry ≡ entry_at h (k + i)
unfolding entries_from
get_or-entries_from h k zero i lt = absurd (omega arith)
get_or-entries_from h k (suc n) zero lt = ap (entry_at h) (omega arith)
get_or-entries_from h k (suc n) (suc i) lt =
    get_or-entries_from h (k + 1) n i (omega arith) ∙ ap (entry_at h) (omega arith)

pub history_init-IsValid : (max_tokens : ℕ) → IsValid (history_init max_tokens)
unfolding history_init entries entries_from
history_init-IsValid max_tokens = record {
  cells = length-replicate hist_ring_size zero_entry;
  order = omega arith;
  numbers = omega arith;
  fits = omega arith;
  sound = tt;
  window = refl;
}
