-- ===== src/Agent/HmsCache/Find.antt =====
-- What the search of a table finds, and what a write changes of it.
use aev_os.Common.{
  ℕ, zero, suc, ◌<◌, ◌≤◌, ◌≡◌, ◌≢◌, refl, sym, ap, ap₂, if◌then◌else◌, subst, ◌⊎◌, inl, inr, Bool,
  true, false, none, some, List, [], ◌∷◌, ltb, arith, Bool-cases, length, get_or, set,
}
use aev_os.Agent.HmsCache.{KvEntry, HmsKv, cap, blank, entry, index_where, has_key, kv_find}

module _ (p : KvEntry → Bool) where
  pub index_where_le : (es : List KvEntry) → index_where p es ≤ length es
  unfolding index_where
  index_where_le [] = omega arith
  index_where_le (e ∷ es) = ground (arith, index_where_le es)

  pub index_where-get_or :
      (es : List KvEntry)
      → index_where p es < length es
      → p (get_or es (index_where p es) blank) ≡ true
  unfolding index_where
  index_where-get_or [] h = absurd (omega arith)
  index_where-get_or (e ∷ es) h = elim (Bool-cases (p e)) [
    | inl t ↦ rw t t
    | inr t ↦ rw t (index_where-get_or es (ground arith))
  ]

  -- Before its end, the loop passes entries without `p`.
  pub index_where_before :
      (es : List KvEntry) (j : ℕ) → j < index_where p es → p (get_or es j blank) ≡ false
  unfolding index_where
  index_where_before [] j h = absurd (omega arith)
  index_where_before (e ∷ es) zero h = ground arith
  index_where_before (e ∷ es) (suc j) h = elim (Bool-cases (p e)) [
    | inl t ↦ absurd (ground arith)
    | inr t ↦ index_where_before es j (ground arith)
  ]

  -- a write of an entry with `p` no later than where the loop ends
  pub index_where-set :
      (es : List KvEntry) (i : ℕ) (e : KvEntry)
      → p e ≡ true
      → i ≤ index_where p es
      → i < length es
      → index_where p (set es i e) ≡ i
  unfolding index_where
  index_where-set [] i e t h k = absurd (omega arith)
  index_where-set (x ∷ es) zero e t h k = ground arith
  index_where-set (x ∷ es) (suc i) e t h k = elim (Bool-cases (p x)) [
    | inl s ↦ absurd (ground arith)
    | inr s ↦ rw s (ap suc (index_where-set es i e t (ground arith) (omega arith)))
  ]

  -- a write of an entry without `p` elsewhere than where the loop ends
  pub index_where-set_ne :
      (es : List KvEntry) (i : ℕ) (e : KvEntry)
      → p e ≡ false
      → i ≢ index_where p es
      → index_where p (set es i e) ≡ index_where p es
  unfolding index_where
  index_where-set_ne [] i e t h = refl
  index_where-set_ne (x ∷ es) zero e t h = ground (arith, h)
  index_where-set_ne (x ∷ es) (suc i) e t h = elim (Bool-cases (p x)) [
    | inl s ↦ rw s refl
    | inr s ↦ rw s (ap suc (index_where-set_ne es i e t (λ q. h (rw s (ap suc q)))))
  ]

pub kv_find-some :
    (k : HmsKv) (key : List ℕ) (i : ℕ)
    → kv_find k key ≡ some i
    → (i ≡ index_where (has_key key) k.tab) × (i < cap k) × (has_key key (entry k i) ≡ true)
unfolding kv_find
kv_find-some k key i h = elim (Bool-cases (ltb (index_where (has_key key) k.tab) (cap k))) [
  | inl t ↦
      let e : index_where (has_key key) k.tab ≡ i = ground arith in
      (
        sym e,
        subst (λ m. m < cap k) e (ground arith),
        rw (sym e) (index_where-get_or (has_key key) k.tab (ground arith)),
      )
  | inr t ↦ absurd (ground arith)
]

pub kv_find-none :
    (k : HmsKv) (key : List ℕ) → kv_find k key ≡ none → cap k ≤ index_where (has_key key) k.tab
unfolding kv_find
kv_find-none k key h = ground arith

-- a search that ends at `i`
pub kv_find-at :
    (k : HmsKv) (key : List ℕ) (i : ℕ)
    → index_where (has_key key) k.tab ≡ i
    → i < cap k
    → kv_find k key ≡ some i
unfolding kv_find
kv_find-at k key i e h = ground arith

pub kv_find_same :
    (k k' : HmsKv) (key : List ℕ)
    → cap k' ≡ cap k
    → index_where (has_key key) k'.tab ≡ index_where (has_key key) k.tab
    → kv_find k' key ≡ kv_find k key
unfolding kv_find
kv_find_same k k' key e q = ap₂ (λ m i. if ltb i m then some i else none) e q

-- An entry behind a write is the one that was written, or what was there.
pub get_or-set_cases :
    (es : List KvEntry) (i j : ℕ) (e : KvEntry)
    → (get_or (set es i e) j blank ≡ e) ⊎ (get_or (set es i e) j blank ≡ get_or es j blank)
get_or-set_cases [] i j e = inr refl
get_or-set_cases (x ∷ es) zero zero e = inl refl
get_or-set_cases (x ∷ es) zero (suc j) e = inr refl
get_or-set_cases (x ∷ es) (suc i) zero e = inr refl
get_or-set_cases (x ∷ es) (suc i) (suc j) e = get_or-set_cases es i j e
