-- ===== src/Agent/HmsCache/Tests.antt =====
-- Runs of the cache, and the theorems at concrete calls.
use aev_os.Common.{
  ℕ, zero, suc, ◌≤◌, ◌<◌, ◌≡◌, ◌≢◌, refl, ◌⊎◌, Bool, true, none, some, List, [], ◌∷◌, arith, take,
  replicate, ◌^◌, ap, get_or, ◌-◌,
}
use aev_os.Common.Errno.{ok}
use aev_os.Clib.Str.{strcmp}
use aev_os.Clib.Str.Compare.{IsString}
use aev_os.Agent.HmsCache.{
  KvEntry, HmsKv, blank, index_where, kv_find, l1_rounds, l1_evict, claim, l1_slot, l1_store,
}
use aev_os.Agent.HmsCache.Tier.{IsSized}
use aev_os.Agent.HmsCache.Put.{IsOldest}
use aev_os.Agent.HmsCache.Levels.{
  HmsCache, hms_cache_init, hms_cache_l1_get, hms_cache_l2_get, hms_cache_l3_get, kv_create,
  copy_out, l1_get_at, l1_put_in, hms_cache_l1_put, tier2, tier_get, tier_put, Call, put1, put2,
  call, calls,
}
use aev_os.Agent.HmsCache.Hot.{l1_count, l1_count-calls}
use aev_os.Agent.HmsCache.Kept.{tier_get-tier_put, tier_get-tier_put_other}
use aev_os.Agent.HmsCache.Long.{get_long-calls}

-- "a", "b" and "c"
abbrev a : List ℕ
a = 97 ∷ []

abbrev b : List ℕ
b = 98 ∷ []

abbrev c : List ℕ
c = 99 ∷ []

abbrev given : Bool × Bool
given = (true, true)

abbrev two_puts : List Call
two_puts = put1 a (1 ∷ []) true ∷ put1 b (2 ∷ []) true ∷ []

l1_count-calls_example : l1_count (calls (hms_cache_init 4 given given given) two_puts) ≤ 1
l1_count-calls_example = l1_count-calls two_puts 4 given given given

-- the second key takes the place of the first, in a table of four
abbrev behind : HmsCache
behind = calls (hms_cache_init 4 given given given) two_puts

behind_lem : (hms_cache_l1_get behind b 9).out ≡ 2 ∷ []
unfolding hms_cache_l1_get hms_cache_init kv_create replicate calls call hms_cache_l1_put l1_put_in
    l1_slot kv_find index_where strcmp l1_evict l1_rounds claim l1_store l1_get_at copy_out
behind_lem = refl

-- Full tables of two entries: a get of "a" came last, so "b" is the older.
abbrev old_entry : KvEntry
old_entry = record { key = b; blob = some (7 ∷ []); len = 1; ref = 0; lru_tag = 1; in_use = true }

abbrev new_entry : KvEntry
new_entry = record { key = a; blob = some (8 ∷ []); len = 1; ref = 0; lru_tag = 2; in_use = true }

abbrev full : HmsKv
full = record { tab = new_entry ∷ old_entry ∷ []; hand = 0; clock = 2 }

abbrev cache : HmsCache
cache = record {
  l1_slots = 32;
  l2_slots = 2;
  l3_slots = 512;
  hits_l1 = 0;
  hits_l2 = 0;
  hits_l3 = 0;
  misses = 0;
  l1 = none;
  l2 = some full;
  l3 = none;
}

full-IsSized : IsSized full
full-IsSized = record { nonempty = omega arith; tags = tags }
  where
    tags : (j : ℕ) → j < 2 → (get_or full.tab j blank).lru_tag < 2 ^ 64 - 1
    tags zero h = omega arith
    tags (suc zero) h = omega arith
    tags (suc (suc j)) h = omega arith

c-IsString : IsString c
c-IsString = (omega arith, tt)

tier_get-tier_put_example :
    ((tier_get (tier_put cache tier2 c (1 ∷ 2 ∷ []) true).1 tier2 c 9).status ≡ ok)
    × ((tier_get (tier_put cache tier2 c (1 ∷ 2 ∷ []) true).1 tier2 c 9).out ≡ take 9 (1 ∷ 2 ∷ []))
tier_get-tier_put_example =
    tier_get-tier_put cache tier2 full c (1 ∷ 2 ∷ []) 9 refl full-IsSized (omega arith)

tier_get-tier_put_other_example :
    (((tier_get (tier_put cache tier2 c (1 ∷ []) true).1 tier2 a 9).status
        ≡ (tier_get cache tier2 a 9).status)
      × ((tier_get (tier_put cache tier2 c (1 ∷ []) true).1 tier2 a 9).out
          ≡ (tier_get cache tier2 a 9).out))
    ⊎ ((kv_find full c ≡ none) × (j : ℕ) × (kv_find full a ≡ some j) × IsOldest full j)
tier_get-tier_put_other_example =
    tier_get-tier_put_other cache tier2 full c (1 ∷ []) a 9 refl full-IsSized (omega arith)
      c-IsString (omega arith, tt) (λ e. omega (arith, ap (λ l. get_or l 0 0) e))

-- a key of 64 bytes
abbrev long_key : List ℕ
long_key = replicate 64 97

long_key-IsString : IsString long_key
unfolding replicate
long_key-IsString = omega arith

get_long-calls_example :
    let c = calls (hms_cache_init 4 given given given) (put2 long_key (1 ∷ []) true ∷ []) in
    ((hms_cache_l1_get c long_key 9).status ≢ ok)
    × ((hms_cache_l2_get c long_key 9).status ≢ ok)
    × ((hms_cache_l3_get c long_key 9).status ≢ ok)
unfolding replicate
get_long-calls_example =
    get_long-calls (put2 long_key (1 ∷ []) true ∷ []) 4 given given given long_key 9
      long_key-IsString (omega arith)
