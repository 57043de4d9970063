-- ===== src/Common/Ring.antt =====
-- A circular buffer: `count` cells of an array of `cap` cells, from cell `head` on, going round at
-- `cap`. agent/mailbox.c and agent/eventlog.c keep their records so.
use Prim.Native.Nat.{ℕ, zero, suc, ◌+◌, ◌-◌, ◌%◌, ◌≤◌, ◌<◌}
use mathlib.Core.Path.{◌≡◌, refl, ap, ap₂, sym, subst, ◌∙◌}
use mathlib.Core.Logic.{◌≢◌, ◌⊎◌, inl, inr}
use mathlib.Core.List.{List, [], ◌∷◌, ◌++◌}
use native.Mathlib.Omega.{arith}
use native.Mathlib.Decide.{dec_lt}
use native.Mathlib.Nat.{mod-add-mod, mod-eq_of_lt, mod-eq-sub-mod}
use aev_os.Common.Lists.{length, get_or, set, drop, erase_idx, get_or-set_self, get_or-set_ne}

-- the array index of the cell at offset `i`
abbrev pub slot : ℕ → ℕ → ℕ → ℕ
slot cap h i = (h + i) % cap

-- Offsets up to `cap` go round at most once.
pub slot_cases :
    (cap h i : ℕ)
    → h < cap
    → i ≤ cap
    → ((h + i < cap) × (slot cap h i ≡ h + i)) ⊎ ((cap ≤ h + i) × (slot cap h i ≡ h + i - cap))
slot_cases cap h i hh hi = elim (dec_lt (h + i) cap) [
  | yes p ↦ inl (p, mod-eq_of_lt p)
  | no p ↦ inr (
    omega arith,
    mod-eq-sub-mod {n = h + i} {m = cap} (omega arith)
        ∙ mod-eq_of_lt {n = h + i - cap} {m = cap} (omega arith),
  )
]

pub slot-lt : (cap h i : ℕ) → h < cap → slot cap h i < cap
slot-lt cap h i hh = omega arith

-- Different offsets are different cells.
pub slot-ne : (cap h i j : ℕ) → h < cap → i < cap → j < cap → i ≢ j → slot cap h i ≢ slot cap h j
slot-ne cap h i j hh hi hj n =
    omega (arith, slot_cases cap h i hh (omega arith), slot_cases cap h j hh (omega arith))

-- Moving the head on is moving the offset on.
pub slot-slot : (cap h j i : ℕ) → slot cap (slot cap h j) i ≡ slot cap h (j + i)
slot-slot cap h j i = rw mod-add-mod (ap (λ k. k % cap) (omega arith))

-- Once round is nowhere.
pub slot_round : (cap h : ℕ) → h < cap → slot cap h cap ≡ h
slot_round cap h hh = omega (arith, slot_cases cap h cap hh (omega arith))

module _ {ℓ} {A : Type ℓ} (d : A) (cap : ℕ) where
  -- the cell at offset `i`
  abbrev pub cell : List A → ℕ → ℕ → A
  cell buf h i = get_or buf (slot cap h i) d

  -- the `n` cells from offset `k` on
  abbrev pub span : List A → ℕ → ℕ → ℕ → List A
  span buf h k zero = []
  span buf h k (suc n) = cell buf h k ∷ span buf h (k + 1) n

module _ {ℓ} {A : Type ℓ} (d : A) (cap : ℕ) where
  pub length-span : (buf : List A) (h k n : ℕ) → length (span d cap buf h k n) ≡ n
  length-span buf h k zero = refl
  length-span buf h k (suc n) = ap suc (length-span buf h (k + 1) n)

  pub get_or-span :
      (buf : List A) (h k n i : ℕ)
      → i < n
      → get_or (span d cap buf h k n) i d ≡ cell d cap buf h (k + i)
  get_or-span buf h k zero i hi = absurd (omega arith)
  get_or-span buf h k (suc n) zero hi = ap (cell d cap buf h) (omega arith)
  get_or-span buf h k (suc n) (suc i) hi =
      get_or-span buf h (k + 1) n i (omega arith) ∙ ap (cell d cap buf h) (omega arith)

  -- Two spans with the same cells are the same list.
  pub span_ext :
      (buf buf' : List A) (h h' k k' n : ℕ)
      → ((i : ℕ) → i < n → cell d cap buf h (k + i) ≡ cell d cap buf' h' (k' + i))
      → span d cap buf h k n ≡ span d cap buf' h' k' n
  span_ext buf buf' h h' k k' zero same = refl
  span_ext buf buf' h h' k k' (suc n) same =
      ap₂ ◌∷◌
        (ap (cell d cap buf h) (omega arith)
          ∙ same 0 (omega arith)
          ∙ ap (cell d cap buf' h') (omega arith))
        (span_ext buf buf' h h' (k + 1) (k' + 1) n (λ i hi.
          ap (cell d cap buf h) (omega arith)
          ∙ same (suc i) (omega arith)
          ∙ ap (cell d cap buf' h') (omega arith)))

  pub span_pos :
      (buf : List A) (h k n : ℕ)
      → 0 < n
      → span d cap buf h k n ≡ cell d cap buf h k ∷ span d cap buf h (k + 1) (n - 1)
  span_pos buf h k zero p = absurd (omega arith)
  span_pos buf h k (suc n) p =
      ap (λ (m : ℕ). cell d cap buf h k ∷ span d cap buf h (k + 1) m) (omega arith)

  -- Advancing the head drops the first cells.
  pub span-slot :
      (buf : List A) (h j k n : ℕ) → span d cap buf (slot cap h j) k n ≡ span d cap buf h (j + k) n
  span-slot buf h j k n =
      span_ext buf buf (slot cap h j) h k (j + k) n (λ i hi.
        ap (λ s. get_or buf s d) (slot-slot cap h j (k + i) ∙ ap (slot cap h) (omega arith)))

  pub span-drop :
      (buf : List A) (h k m n t : ℕ)
      → t ≡ m + n
      → drop m (span d cap buf h k t) ≡ span d cap buf h (k + m) n
  span-drop buf h k zero n t e =
      ap (λ (p : ℕ). span d cap buf h k p) (omega arith)
      ∙ ap (λ (p : ℕ). span d cap buf h p n) (omega arith)
  span-drop buf h k (suc m) n zero e = absurd (omega arith)
  span-drop buf h k (suc m) n (suc t) e =
      span-drop buf h (k + 1) m n t (omega arith)
      ∙ ap (λ (p : ℕ). span d cap buf h p n) (omega arith)

  pub span-snoc :
      (buf : List A) (h k n : ℕ)
      → span d cap buf h k (suc n) ≡ span d cap buf h k n ++ (cell d cap buf h (k + n) ∷ [])
  span-snoc buf h k zero = ap (λ (p : ℕ). cell d cap buf h p ∷ []) (omega arith)
  span-snoc buf h k (suc n) =
      ap (λ r. cell d cap buf h k ∷ r)
        (span-snoc buf h (k + 1) n
          ∙ ap (λ (p : ℕ). span d cap buf h (k + 1) n ++ (cell d cap buf h p ∷ [])) (omega arith))

module _ {ℓ} {A : Type ℓ} (d : A) (cap : ℕ) where
  module _ (buf : List A) (h : ℕ) (hh : h < cap) (room : cap ≤ length buf) where
    pub cell-set_self : (i : ℕ) (x : A) → cell d cap (set buf (slot cap h i) x) h i ≡ x
    cell-set_self i x = get_or-set_self buf (slot cap h i) x d (omega (arith, slot-lt cap h i hh))

    pub cell-set_ne :
        (i j : ℕ) (x : A)
        → i < cap
        → j < cap
        → i ≢ j
        → cell d cap (set buf (slot cap h i) x) h j ≡ cell d cap buf h j
    cell-set_ne i j x hi hj n =
        get_or-set_ne buf (slot cap h i) (slot cap h j) x d (slot-ne cap h i j hh hi hj n)

    -- Writing one past a span that leaves room extends it.
    pub span-set_past :
        (n : ℕ) (x : A)
        → n < cap
        → span d cap (set buf (slot cap h n) x) h 0 (suc n) ≡ span d cap buf h 0 n ++ (x ∷ [])
    span-set_past n x hn =
        span-snoc d cap (set buf (slot cap h n) x) h 0 n
        ∙ ap₂ (λ r y. r ++ (y ∷ []))
            (span_ext d cap (set buf (slot cap h n) x) buf h h 0 0 n
              (λ i hi. cell-set_ne n (0 + i) x hn (omega arith) (omega arith)))
            (ap (cell d cap (set buf (slot cap h n) x) h) (omega arith) ∙ cell-set_self n x)

  -- Writing one past a full span, and advancing the head, drops the oldest cell.
  pub span-set_full :
      (buf : List A) (h : ℕ) (x : A)
      → h < cap
      → cap ≤ length buf
      → span d cap (set buf (slot cap h cap) x) (slot cap h 1) 0 cap
        ≡ drop 1 (span d cap buf h 0 cap) ++ (x ∷ [])
  span-set_full buf h x hh room =
      let c = cap - 1 in
      let e : cap ≡ suc c = omega arith in
      let h' = slot cap h 1 in
      let hh' : h' < cap = slot-lt cap h 1 hh in
      let at : slot cap h' c ≡ slot cap h cap =
        slot-slot cap h 1 c ∙ ap (slot cap h) (omega arith) in
      subst (λ s. span d cap (set buf s x) h' 0 cap ≡ drop 1 (span d cap buf h 0 cap) ++ (x ∷ []))
        at
        (ap (span d cap (set buf (slot cap h' c) x) h' 0) e
          ∙ span-set_past buf h' hh' room c x (omega arith)
          ∙ ap (λ r. r ++ (x ∷ []))
              (span-slot d cap buf h 1 0 c ∙ sym (span-drop d cap buf h 0 1 c cap (omega arith))))

  -- A span in which the cells behind offset `f` moved up by one lost its cell there.
  pub span-erase_idx :
      (buf buf' : List A) (h k f n : ℕ)
      → f ≤ n
      → ((i : ℕ) → i < f → cell d cap buf' h (k + i) ≡ cell d cap buf h (k + i))
      → ((i : ℕ) → f ≤ i → i < n → cell d cap buf' h (k + i) ≡ cell d cap buf h (k + (i + 1)))
      → span d cap buf' h k n ≡ erase_idx (span d cap buf h k (suc n)) f
  span-erase_idx buf buf' h k zero n hf below above =
      span_ext d cap buf' buf h h k (k + 1) n
        (λ i hi. above i (omega arith) hi ∙ ap (cell d cap buf h) (omega arith))
  span-erase_idx buf buf' h k (suc f) zero hf below above = absurd (omega arith)
  span-erase_idx buf buf' h k (suc f) (suc n) hf below above =
      ap₂ ◌∷◌
        (ap (cell d cap buf' h) (omega arith)
          ∙ below 0 (omega arith)
          ∙ ap (cell d cap buf h) (omega arith))
        (span-erase_idx buf buf' h (k + 1) f n (omega arith)
          (λ i hi.
            ap (cell d cap buf' h) (omega arith)
            ∙ below (suc i) (omega arith)
            ∙ ap (cell d cap buf h) (omega arith))
          (λ i lo hi.
            ap (cell d cap buf' h) (omega arith)
            ∙ above (suc i) (omega arith) (omega arith)
            ∙ ap (cell d cap buf h) (omega arith)))
