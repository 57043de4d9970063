-- ===== src/Agent/HmsCache/Tier.antt =====
-- What the tables L2 and L3 return behind a put, and which entry a put gives up.
use aev_os.Common.{
  ℕ, zero, suc, ◌+◌, ◌-◌, ◌^◌, ◌<◌, ◌≤◌, ◌≡◌, refl, sym, subst, ◌⊎◌, inl, inr, true, List, [], ◌∷◌,
  ltb, arith, Bool-cases, length, get_or,
}
use aev_os.Agent.HmsCache.{
  KvEntry, HmsKv, cap, blank, entry, write, oldest, lru_scan, take_victim, lru_evict, used,
}

pub used_le : (es : List KvEntry) → used es ≤ length es
unfolding used
used_le [] = omega arith
used_le (e ∷ es) = ground (arith, used_le es)

abbrev tag : List KvEntry → ℕ → ℕ
tag es j = (get_or es j blank).lru_tag

-- No tag of the list is smaller than `t`.
abbrev LeastTag : List KvEntry → ℕ → Type 0
LeastTag es t = (j : ℕ) → j < length es → t ≤ tag es j

-- what the scan of a list from `i` on ends with: the index before it, or one of the list
record Scanned (es : List KvEntry) (i best_i best_t : ℕ) : Type 0 where
  at : ℕ
  result : lru_scan es i best_i best_t ≡ oldest at
  least :
      ((at ≡ best_i) × LeastTag es best_t)
      ⊎ ((m : ℕ) × (at ≡ i + m) × (m < length es) × (tag es m < best_t) × LeastTag es (tag es m))

least_cons :
    (e : KvEntry) (es : List KvEntry) (t : ℕ) → t ≤ e.lru_tag → LeastTag es t → LeastTag (e ∷ es) t
least_cons e es t h l zero k = h
least_cons e es t h l (suc j) k = l j (omega arith)

lru_scan-Scanned :
    (es : List KvEntry) (i best_i best_t : ℕ) → used es ≡ length es → Scanned es i best_i best_t
unfolding lru_scan used
lru_scan-Scanned [] i best_i best_t f = record {
  at = best_i;
  result = refl;
  least = inl (refl, λ j h. absurd (omega arith));
}
lru_scan-Scanned (e ∷ es) i best_i best_t f =
    let u : e.in_use ≡ true = ground (arith, used_le es) in
    let fs : used es ≡ length es = ground (arith, used_le es) in
    elim (Bool-cases (ltb e.lru_tag best_t)) [
      | inl t ↦
          let r = lru_scan-Scanned es (i + 1) i e.lru_tag fs in
          record {
            at = r.at;
            result = rw (u, t) r.result;
            least = elim r.least [
              | inl (a, l) ↦ inr (
                0,
                omega (arith, a),
                omega arith,
                ground arith,
                least_cons e es _ (omega arith) l,
              )
              | inr (m, a, b, c, l) ↦ inr (
                suc m,
                omega (arith, a),
                omega arith,
                ground arith,
                least_cons e es _ (omega arith) l,
              )
            ];
          }
      | inr t ↦
          let r = lru_scan-Scanned es (i + 1) best_i best_t fs in
          record {
            at = r.at;
            result = rw (u, t) r.result;
            least = elim r.least [
              | inl (a, l) ↦ inl (a, least_cons e es _ (ground arith) l)
              | inr (m, a, b, c, l) ↦
                  inr (suc m, omega (arith, a), omega arith, c, least_cons e es _ (ground arith) l)
            ];
          }
    ]

-- The table has an entry, and no tag is the largest number of 64 bits.
pub record IsSized (k : HmsKv) : Type 0 where
  pub nonempty : 0 < cap k
  pub tags : (j : ℕ) → j < cap k → tag k.tab j < 2 ^ 64 - 1

-- The entry with the smallest tag is cleared, and the others stay.
pub record Evicts (k : HmsKv) (r : ℕ × HmsKv) : Type 0 where
  pub inside : r.0 < cap k
  pub oldest_tag : (j : ℕ) → j < cap k → (entry k r.0).lru_tag ≤ (entry k j).lru_tag
  pub cleared : r.1 ≡ write k r.0 blank

-- lru_evict of a full table clears the entry with the smallest tag, and leaves the others.
pub lru_evict-Evicts : (k : HmsKv) → IsSized k → used k.tab ≡ cap k → Evicts k (lru_evict k)
unfolding lru_evict take_victim
lru_evict-Evicts k s f =
    let r = lru_scan-Scanned k.tab 0 (2 ^ 32 - 1) (2 ^ 64 - 1) f in
    elim r.least [
      | inl (a, l) ↦ absurd (omega (arith, l 0 s.nonempty, s.tags 0 s.nonempty))
      | inr (m, a, b, c, l) ↦
          subst (λ v. Evicts k (take_victim k v)) (sym r.result)
            (subst (λ n. Evicts k (n, write k n blank)) (sym (zero_more a))
              (record { inside = b; oldest_tag = l; cleared = refl }))
    ]
  where
    zero_more : {a m : ℕ} → a ≡ 0 + m → a ≡ m
    zero_more h = omega (arith, h)
