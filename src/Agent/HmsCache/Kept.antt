-- ===== src/Agent/HmsCache/Kept.antt =====
-- What a get of L2 or L3 returns behind a put.
use aev_os.Common.{
  ℕ, zero, suc, ◌≤◌, ◌≡◌, ◌≢◌, refl, sym, ap, ◌∙◌, subst, ◌⊎◌, inl, inr, min, true, false, Option,
  none, some, List, [], ◌∷◌, arith, Bool-cases, length, get_or, take, length-set, get_or-set_self,
  get_or-set_ne, ℕ_discrete,
}
use aev_os.Common.Errno.{ok}
use aev_os.Clib.Str.Compare.{IsString}
use aev_os.Agent.HmsCache.{
  KvEntry, HmsKv, cap, blank, entry, index_where, has_key, kv_find, tier_slot, tier_store,
}
use aev_os.Agent.HmsCache.Find.{
  index_where-get_or, index_where-set, index_where-set_ne, kv_find-some, kv_find-at, kv_find_same,
}
use aev_os.Agent.HmsCache.Step.{priv-with_priv, tier_get_lem, tier_put_lem}
use aev_os.Agent.HmsCache.Tier.{IsSized}
use aev_os.Agent.HmsCache.Put.{same_keys, Wrote, IsOldest, tier_slot-Slot, tier_store-Wrote}
use aev_os.Agent.HmsCache.Levels.{
  HmsCache, Tier, priv, with_priv, copy_out, tier_get_at, tier_get, tier_put,
}

module _ (k k' : HmsKv) (key bytes : List ℕ) (w : Wrote k key bytes k') where
  length_same : cap k' ≡ cap k
  length_same = ap length w.tab ∙ length-set k.tab w.at w.new

  kv_find-new : kv_find k' key ≡ some w.at
  kv_find-new =
      kv_find-at k' key w.at
        (ap (index_where (has_key key)) w.tab
          ∙ index_where-set (has_key key) k.tab w.at w.new w.named w.first w.inside)
        (omega (arith, w.inside, length_same))

  entry-new : entry k' w.at ≡ w.new
  entry-new = ap (λ t. get_or t w.at blank) w.tab ∙ get_or-set_self k.tab w.at w.new blank w.inside

  module _ (other : List ℕ) (hk : IsString key) (ho : IsString other) (ne : other ≢ key) where
    -- No entry has both keys.
    not_both : (e : KvEntry) → has_key key e ≡ true → has_key other e ≡ false
    not_both e h = elim (Bool-cases (has_key other e)) [
      | inl o ↦ absurd (ne (same_keys e.key other key ho hk (ground arith) (ground arith)))
      | inr o ↦ o
    ]

    abbrev spot : ℕ
    spot = index_where (has_key other) k.tab

    kept_at :
        w.at ≢ spot → (index_where (has_key other) k'.tab ≡ spot) × (entry k' spot ≡ entry k spot)
    kept_at h = (
      ap (index_where (has_key other)) w.tab
          ∙ index_where-set_ne (has_key other) k.tab w.at w.new (not_both w.new w.named) h,
      ap (λ t. get_or t spot blank) w.tab ∙ get_or-set_ne k.tab w.at spot w.new blank h,
    )

    -- Where it is the other key's entry that is given up, the table is full and lacks the key.
    lost_at : w.at ≡ spot → (kv_find k key ≡ none) × IsOldest k spot
    lost_at h =
        let has : has_key other (entry k w.at) ≡ true =
          subst (λ m. has_key other (entry k m) ≡ true) (sym h)
            (index_where-get_or (has_key other) k.tab (omega (arith, w.inside, h))) in
        elim w.given_up [
          | inl f ↦ absurd (cc (has, not_both (entry k w.at) (kv_find-some k key w.at f).2))
          | inr (f, inl u) ↦ absurd (ground arith)
          | inr (f, inr o) ↦ (f, subst (IsOldest k) h o)
        ]

-- What a put that succeeds leaves in a table.
wrote :
    (k : HmsKv) (key bytes : List ℕ)
    → IsSized k
    → length key ≤ 63
    → Wrote k key bytes (tier_store (tier_slot k key) bytes true).1
wrote k key bytes s le = tier_store-Wrote k key (tier_slot k key) bytes (tier_slot-Slot k key s le)

take-min : (n : ℕ) (s : List ℕ) → take (min n (length s)) s ≡ take n s
take-min zero s = let e : min 0 (length s) ≡ 0 = omega arith in rw e refl
take-min (suc n) [] = let e : min (suc n) 0 ≡ 0 = omega arith in rw e refl
take-min (suc n) (x ∷ s) =
    let e : min (suc n) (suc (length s)) ≡ suc (min n (length s)) = omega arith in
    rw e (ap (λ r. x ∷ r) (take-min n s))

copy_out-some :
    (e : KvEntry) (bytes : List ℕ) (n : ℕ)
    → e.blob ≡ some bytes
    → e.len ≡ length bytes
    → copy_out e n ≡ take n bytes
unfolding copy_out
copy_out-some e bytes n b l = rw (b, copy_out) (rw l (take-min n bytes))

-- Behind a put whose allocation succeeds, of a key of at most 63 bytes into L2 or L3 (a table with
-- an entry, no tag of which is 2^64 - 1), a get of the key succeeds and copies the bytes of the
-- put, as many as there is room for.
pub tier_get-tier_put :
    (c : HmsCache) (t : Tier) (k : HmsKv) (key bytes : List ℕ) (n : ℕ)
    → priv c t ≡ some k
    → IsSized k
    → length key ≤ 63
    → ((tier_get (tier_put c t key bytes true).1 t key n).status ≡ ok)
      × ((tier_get (tier_put c t key bytes true).1 t key n).out ≡ take n bytes)
unfolding tier_get_at copy_out
tier_get-tier_put c t k key bytes n here s le =
    let k' = (tier_store (tier_slot k key) bytes true).1 in
    let w = wrote k key bytes s le in
    let found = kv_find-new k k' key bytes w in
    let e : entry k' w.at ≡ w.new = entry-new k k' key bytes w in
    let c' = with_priv c t k' in
    let got : tier_get (tier_put c t key bytes true).1 t key n ≡ tier_get_at c' t k' (some w.at) n =
      ap (λ x. tier_get x t key n) (tier_put_lem c t k here key bytes true)
      ∙ tier_get_lem c' t k' (priv-with_priv c t k') key n
      ∙ ap (λ f. tier_get_at c' t k' f n) found in
    (
      ap (λ g. g.status) got,
      ap (λ g. g.out) got ∙ ap (λ x. copy_out x n) e ∙ copy_out-some w.new bytes n w.blob w.len,
    )

-- what a get returns, by the entry that it finds
tier_get_at-same :
    (c c' : HmsCache) (t : Tier) (k k' : HmsKv) (f : Option ℕ) (n : ℕ)
    → ((i : ℕ) → f ≡ some i → entry k' i ≡ entry k i)
    → ((tier_get_at c' t k' f n).status ≡ (tier_get_at c t k f n).status)
      × ((tier_get_at c' t k' f n).out ≡ (tier_get_at c t k f n).out)
unfolding tier_get_at
tier_get_at-same c c' t k k' none n h = (refl, refl)
tier_get_at-same c c' t k k' (some i) n h = (refl, ap (λ e. copy_out e n) (h i refl))

-- A put whose allocation succeeds, of a key of at most 63 bytes into L2 or L3 (a table with an
-- entry, no tag of which is 2^64 - 1), either changes nothing of what a get of another key returns,
-- or gives the other key up; that only where the table is full and lacks the key of the put, and no
-- entry has a smaller tag than the one given up. Keys are strings.
pub tier_get-tier_put_other :
    (c : HmsCache) (t : Tier) (k : HmsKv) (key bytes other : List ℕ) (n : ℕ)
    → priv c t ≡ some k
    → IsSized k
    → length key ≤ 63
    → IsString key
    → IsString other
    → other ≢ key
    → (((tier_get (tier_put c t key bytes true).1 t other n).status ≡ (tier_get c t other n).status)
        × ((tier_get (tier_put c t key bytes true).1 t other n).out ≡ (tier_get c t other n).out))
      ⊎ ((kv_find k key ≡ none) × (j : ℕ) × (kv_find k other ≡ some j) × IsOldest k j)
unfolding tier_get_at copy_out
tier_get-tier_put_other c t k key bytes other n here s le hk ho ne =
    let k' = (tier_store (tier_slot k key) bytes true).1 in
    let w = wrote k key bytes s le in
    let c' = with_priv c t k' in
    let m = index_where (has_key other) k.tab in
    let before = tier_get_lem c t k here other n in
    let put =
      ap (λ x. tier_get x t other n) (tier_put_lem c t k here key bytes true)
      ∙ tier_get_lem c' t k' (priv-with_priv c t k') other n in
    elim (ℕ_discrete w.at m) [
      | yes e ↦
          let l = lost_at k k' key bytes w other hk ho ne e in
          inr (l.0, m, kv_find-at k other m refl (omega (arith, w.inside, e)), l.1)
      | no d ↦
          let q = kept_at k k' key bytes w other hk ho ne d in
          let f = kv_find_same k k' other (length_same k k' key bytes w) q.0 in
          let after = put ∙ ap (λ f. tier_get_at c' t k' f n) f in
          let same =
            tier_get_at-same c c' t k k' (kv_find k other) n
              (λ i h. subst (λ j. entry k' j ≡ entry k j) (sym (kv_find-some k other i h).0) q.1) in
          inl (
            ap (λ g. g.status) after ∙ same.0 ∙ sym (ap (λ g. g.status) before),
            ap (λ g. g.out) after ∙ same.1 ∙ sym (ap (λ g. g.out) before),
          )
    ]
