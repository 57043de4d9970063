-- ===== src/Agent/HmsCache/Long.antt =====
-- Keys that do not fit an entry.
use aev_os.Common.{
  ℕ, ◌<◌, ◌≡◌, ◌≢◌, ap, subst, sym, ◌∙◌, Bool, false, none, List, [], ◌∷◌, arith, Option-cases, inl,
  inr, length,
}
use aev_os.Common.Int.{is_zero}
use aev_os.Common.Errno.{ok}
use aev_os.Clib.Str.{strcmp}
use aev_os.Clib.Str.Compare.{IsString}
use aev_os.Agent.HmsCache.{HmsKv, entry, kv_find}
use aev_os.Agent.HmsCache.Step.{l1_get_lem, tier_get_lem}
use aev_os.Agent.HmsCache.Find.{kv_find-some}
use aev_os.Agent.HmsCache.Levels.{
  HmsCache, hms_cache_init, l1_get_at, hms_cache_l1_get, tier_get_at, tier_get, priv, Call, calls,
  Tier, tier2, tier3, hms_cache_l2_get, hms_cache_l3_get,
}
use aev_os.Agent.HmsCache.Short.{
  Short, ShortIn, ShortKeys, ShortIn-some, priv-ShortIn, kv_create-ShortIn, calls-ShortKeys,
}

-- A longer string is not the key of an entry.
strcmp_longer : (a s : List ℕ) → IsString s → length a < length s → is_zero (strcmp a s) ≡ false
unfolding strcmp
strcmp_longer [] [] h l = absurd (omega arith)
strcmp_longer (x ∷ a) [] h l = absurd (omega arith)
strcmp_longer [] (y ∷ s) h l = ground arith
strcmp_longer (x ∷ a) (y ∷ s) h l = ground (arith, strcmp_longer a s h.1 (omega arith))

kv_find_long :
    (k : HmsKv) (key : List ℕ) → Short k → IsString key → 63 < length key → kv_find k key ≡ none
kv_find_long k key v h l = elim (Option-cases (kv_find k key)) [
  | inl n ↦ n
  | inr (i, f) ↦
      let other = strcmp_longer (entry k i).key key h (omega (arith, v i)) in
      absurd (ground (arith, other, (kv_find-some k key i f).2))
]

tier_get_long :
    (c : HmsCache) (t : Tier) (key : List ℕ) (n : ℕ)
    → ShortKeys c
    → IsString key
    → 63 < length key
    → (tier_get c t key n).status ≢ ok
unfolding tier_get tier_get_at
tier_get_long c t key n v h l = elim (Option-cases (priv c t)) [
  | inl a ↦ rw (a, tier_get) (λ e. cc e)
  | inr (k, a) ↦
      let none_found =
        kv_find_long k key (ShortIn-some (subst ShortIn a (priv-ShortIn c t v))) h l in
      let g = tier_get_lem c t k a key n ∙ ap (λ f. tier_get_at c t k f n) none_found in
      subst (λ x. x.status ≢ ok) (sym g) (λ e. cc e)
]

l1_get_long :
    (c : HmsCache) (key : List ℕ) (n : ℕ)
    → ShortKeys c
    → IsString key
    → 63 < length key
    → (hms_cache_l1_get c key n).status ≢ ok
unfolding hms_cache_l1_get l1_get_at
l1_get_long c key n v h l = elim (Option-cases c.l1) [
  | inl a ↦ rw (a, hms_cache_l1_get) (λ e. cc e)
  | inr (k, a) ↦
      let none_found = kv_find_long k key (ShortIn-some (subst ShortIn a v.in1)) h l in
      let g = l1_get_lem c k a key n ∙ ap (λ f. l1_get_at c k f n) none_found in
      subst (λ x. x.status ≢ ok) (sym g) (λ e. cc e)
]

-- Behind any gets and puts from hms_cache_init, puts of the same key included, a get of a key of 64
-- bytes or more from L1, L2 or L3 does not succeed.
pub get_long-calls :
    (xs : List Call) (slots : ℕ) (mem1 mem2 mem3 : Bool × Bool) (key : List ℕ) (n : ℕ)
    → IsString key
    → 63 < length key
    → let c = calls (hms_cache_init slots mem1 mem2 mem3) xs in
      ((hms_cache_l1_get c key n).status ≢ ok)
      × ((hms_cache_l2_get c key n).status ≢ ok)
      × ((hms_cache_l3_get c key n).status ≢ ok)
unfolding hms_cache_init hms_cache_l2_get hms_cache_l3_get
get_long-calls xs slots mem1 mem2 mem3 key n h l =
    let start = hms_cache_init slots mem1 mem2 mem3 in
    let v = calls-ShortKeys xs start (record {
      in1 = kv_create-ShortIn _ mem1;
      in2 = kv_create-ShortIn 256 mem2;
      in3 = kv_create-ShortIn 512 mem3;
    }) in
    let c = calls start xs in
    (
      l1_get_long c key n v h l,
      tier_get_long c tier2 key n v h l,
      tier_get_long c tier3 key n v h l,
    )
