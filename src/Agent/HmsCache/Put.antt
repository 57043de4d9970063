-- ===== src/Agent/HmsCache/Put.antt =====
-- The entry that a put of L2 or L3 writes.
use aev_os.Common.{
  ℕ, zero, suc, ◌+◌, ◌%◌, ◌^◌, ◌<◌, ◌≤◌, ◌≡◌, refl, ap, ap₂, ◌∙◌, ◌⊎◌, inl, inr, true, false, none,
  some, List, [], ◌∷◌, leb, arith, Bool-cases, Option-cases, length, set, take, length-set,
  get_or-set_self,
}
use aev_os.Common.Int.{is_zero}
use aev_os.Clib.Str.{strcmp}
use aev_os.Clib.Str.Compare.{IsString}
use aev_os.Agent.HmsCache.{
  KvEntry, HmsKv, cap, blank, entry, write, index_where, has_key, kv_find, used, is_free, lru_evict,
  claim, tier_free, tier_slot, touch, tier_store,
}
use aev_os.Agent.HmsCache.Find.{index_where-get_or, kv_find-some, kv_find-none}
use aev_os.Agent.HmsCache.Tier.{IsSized, lru_evict-Evicts, used_le}

strcmp_self : (s : List ℕ) → is_zero (strcmp s s) ≡ true
unfolding strcmp
strcmp_self [] = refl
strcmp_self (x ∷ s) = ground (arith, strcmp_self s)

pub take_all : (n : ℕ) (s : List ℕ) → length s ≤ n → take n s ≡ s
take_all zero [] h = refl
take_all zero (x ∷ s) h = absurd (omega arith)
take_all (suc n) [] h = refl
take_all (suc n) (x ∷ s) h = ap (λ r. x ∷ r) (take_all n s (omega arith))

-- a free entry where not all are in use
is_free-index : (es : List KvEntry) → used es < length es → index_where is_free es < length es
unfolding used index_where
is_free-index [] h = h
is_free-index (e ∷ es) h = ground (arith, is_free-index es)

set-set : (es : List KvEntry) (i : ℕ) (a b : KvEntry) → set (set es i a) i b ≡ set es i b
set-set [] i a b = refl
set-set (x ∷ es) zero a b = refl
set-set (x ∷ es) (suc i) a b = ap (λ r. x ∷ r) (set-set es i a b)

-- Two keys that an entry's key equals are the same.
pub same_keys :
    (a s t : List ℕ)
    → IsString s
    → IsString t
    → is_zero (strcmp a s) ≡ true
    → is_zero (strcmp a t) ≡ true
    → s ≡ t
unfolding strcmp
same_keys [] [] [] hs ht p q = refl
same_keys [] [] (y ∷ t) hs ht p q = absurd (ground arith)
same_keys [] (y ∷ s) t hs ht p q = absurd (ground arith)
same_keys (x ∷ a) [] [] hs ht p q = refl
same_keys (x ∷ a) [] (y ∷ t) hs ht p q = absurd (ground arith)
same_keys (x ∷ a) (y ∷ s) [] hs ht p q = absurd (ground arith)
same_keys (x ∷ a) (y ∷ s) (z ∷ t) hs ht p q =
    let e : y ≡ z = ground arith in
    let r = same_keys a s t hs.1 ht.1 (ground arith) (ground arith) in ap₂ (λ c l. c ∷ l) e r

-- The table is full, and no entry has a smaller tag than the one at `i`.
abbrev pub IsOldest : HmsKv → ℕ → Type 0
IsOldest k i =
    (used k.tab ≡ cap k) × ((j : ℕ) → j < cap k → (entry k i).lru_tag ≤ (entry k j).lru_tag)

module _ (k : HmsKv) (key : List ℕ) where
  abbrev pub place : ℕ
  place = index_where (has_key key) k.tab

  abbrev pub Spare : ℕ → Type 0
  Spare i = ((entry k i).in_use ≡ false) ⊎ IsOldest k i

  -- The entry at `i` is the key's; or no entry is, and that at `i` is free or an oldest one.
  abbrev pub GivenUp : ℕ → Type 0
  GivenUp i = (kv_find k key ≡ some i) ⊎ ((kv_find k key ≡ none) × Spare i)

  -- Only the entry at the index differs from the table before.
  record Frees (r : ℕ × HmsKv) : Type 0 where
    inside : r.0 < cap k
    length_same : cap r.1 ≡ cap k
    only : (e : KvEntry) → set r.1.tab r.0 e ≡ set k.tab r.0 e
    spare : Spare r.0

  tier_free-Frees : IsSized k → Frees (tier_free k)
  unfolding tier_free
  tier_free-Frees s = elim (Bool-cases (leb (cap k) (used k.tab))) [
    | inl f ↦
        let full : used k.tab ≡ cap k = ground (arith, used_le k.tab) in
        let v = lru_evict-Evicts k s full in
        let i = (lru_evict k).0 in
        rw f (record {
          inside = v.inside;
          length_same = ap cap v.cleared ∙ length-set k.tab i blank;
          only = λ e. ap (λ (t : HmsKv). set t.tab i e) v.cleared ∙ set-set k.tab i blank e;
          spare = inr (full, v.oldest_tag);
        })
    | inr f ↦
        let i = is_free-index k.tab (ground arith) in
        rw f (record {
          inside = i;
          length_same = refl;
          only = λ e. refl;
          spare = inl (ground (arith, index_where-get_or is_free k.tab i));
        })
  ]

  pub record Slot (r : ℕ × HmsKv) : Type 0 where
    inside : r.0 < cap k
    length_same : cap r.1 ≡ cap k
    only : (e : KvEntry) → set r.1.tab r.0 e ≡ set k.tab r.0 e
    given_up : GivenUp r.0
    first : r.0 ≤ place
    named : has_key key (entry r.1 r.0) ≡ true

  claim-Slot :
      (r : ℕ × HmsKv) → Frees r → kv_find k key ≡ none → length key ≤ 63 → Slot (claim r key)
  unfolding claim
  claim-Slot (i, t) f h le =
      let e : KvEntry = record (entry t i) { key = take 63 key; in_use = true } in
      record {
        inside = f.inside;
        length_same = length-set t.tab i e ∙ f.length_same;
        only = λ x. set-set t.tab i e x ∙ f.only x;
        given_up = inr (h, f.spare);
        first = omega (arith, f.inside, kv_find-none k key h);
        named =
            ap (has_key key)
              (get_or-set_self t.tab i e blank (omega (arith, f.inside, f.length_same)))
            ∙ ap (λ s. is_zero (strcmp s key)) (take_all 63 key le)
            ∙ strcmp_self key;
      }

  pub tier_slot-Slot : IsSized k → length key ≤ 63 → Slot (tier_slot k key)
  unfolding tier_slot
  tier_slot-Slot s le = elim (Option-cases (kv_find k key)) [
    | inl h ↦ rw (h, tier_slot) (claim-Slot (tier_free k) (tier_free-Frees s) h le)
    | inr (i, h) ↦
        let f = kv_find-some k key i h in
        rw (h, tier_slot)
          (record {
            inside = f.1;
            length_same = refl;
            only = λ e. refl;
            given_up = inl h;
            first = omega (arith, f.0);
            named = f.2;
          })
  ]

  -- The table behind a put of `bytes` that succeeds: one entry is new.
  pub record Wrote (bytes : List ℕ) (k' : HmsKv) : Type 0 where
    pub at : ℕ
    pub new : KvEntry
    pub inside : at < cap k
    pub first : at ≤ index_where (has_key key) k.tab
    pub given_up : GivenUp at
    pub tab : k'.tab ≡ set k.tab at new
    pub named : has_key key new ≡ true
    pub blob : new.blob ≡ some bytes
    pub len : new.len ≡ length bytes

  pub tier_store-Wrote :
      (r : ℕ × HmsKv) (bytes : List ℕ) → Slot r → Wrote bytes (tier_store r bytes true).1
  unfolding tier_store touch
  tier_store-Wrote (i, t) bytes s =
      let full : KvEntry = record (entry t i) { blob = some bytes; len = length bytes } in
      let now : ℕ = (t.clock + 1) % 2 ^ 64 in
      let e : KvEntry = record (entry (write t i full) i) { lru_tag = now } in
      let same : entry (write t i full) i ≡ full =
        get_or-set_self t.tab i full blank (omega (arith, s.inside, s.length_same)) in
      record {
        at = i;
        new = e;
        inside = s.inside;
        first = s.first;
        given_up = s.given_up;
        tab = set-set t.tab i full e ∙ s.only e;
        named = ap (has_key key) same ∙ s.named;
        blob = ap (λ x. x.blob) same;
        len = ap (λ x. x.len) same;
      }
