-- ===== src/Agent/HmsCache/Step.antt =====
-- A call with the table that it goes to.
use aev_os.Common.{ℕ, ◌≡◌, refl, ap, Bool, none, some, List}
use aev_os.Agent.HmsCache.{HmsKv, kv_find, tier_slot, tier_store}
use aev_os.Agent.HmsCache.Levels.{
  HmsCache, refused, Tier, tier2, tier3, priv, with_priv, l1_get_at, hms_cache_l1_get, tier_get_at,
  tier_get, tier_put,
}

pub priv-with_priv : (c : HmsCache) (t : Tier) (k : HmsKv) → priv (with_priv c t k) t ≡ some k
priv-with_priv c tier2 k = refl
priv-with_priv c tier3 k = refl

pub l1_get_lem :
    (c : HmsCache) (l : HmsKv)
    → c.l1 ≡ some l
    → (key : List ℕ) (n : ℕ) → hms_cache_l1_get c key n ≡ l1_get_at c l (kv_find l key) n
unfolding hms_cache_l1_get
l1_get_lem c l here key n =
    ap (λ o. elim o [ none ↦ refused c | some l' ↦ l1_get_at c l' (kv_find l' key) n ]) here

module _ (c : HmsCache) (t : Tier) (k : HmsKv) (here : priv c t ≡ some k) where
  pub tier_get_lem :
      (key : List ℕ) (n : ℕ) → tier_get c t key n ≡ tier_get_at c t k (kv_find k key) n
  unfolding tier_get
  tier_get_lem key n = rw (here, tier_get) refl

  pub tier_put_lem :
      (key bytes : List ℕ) (mem : Bool)
      → (tier_put c t key bytes mem).1 ≡ with_priv c t (tier_store (tier_slot k key) bytes mem).1
  unfolding tier_put
  tier_put_lem key bytes mem = rw (here, tier_put) refl
