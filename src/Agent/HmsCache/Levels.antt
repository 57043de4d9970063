-- ===== src/Agent/HmsCache/Levels.antt =====
-- src/agent/hms_cache.c: the cache of the three tables, and its calls.
use aev_os.Common.{
  ℕ, ◌+◌, ◌%◌, ◌^◌, min, Bool, ◌&&◌, Option, none, some, List, [], ◌∷◌, ◌==◌, if◌then◌else◌, take,
  replicate,
}
use aev_os.Common.Errno.{Status, ok, einval, enoent}
use aev_os.Agent.HmsCache.{
  KvEntry, HmsKv, blank, entry, write, kv_find, l1_slot, l1_store, tier_slot, tier_store, touch,
}

pub record HmsCache : Type 0 where
  pub l1_slots : ℕ
  pub l2_slots : ℕ
  pub l3_slots : ℕ
  pub hits_l1 : ℕ
  pub hits_l2 : ℕ
  pub hits_l3 : ℕ
  pub misses : ℕ
  pub l1 : Option HmsKv
  pub l2 : Option HmsKv
  pub l3 : Option HmsKv

-- the two allocations of a table: its header and its entries
unfoldable pub kv_create : ℕ → Bool × Bool → Option HmsKv
kv_create slots (head, entries) =
    if head && entries
    then some (record { tab = replicate slots blank; hand = 0; clock = 0 })
    else none

unfoldable pub hms_cache_init : ℕ → Bool × Bool → Bool × Bool → Bool × Bool → HmsCache
unfolding kv_create
hms_cache_init l1_slots mem1 mem2 mem3 =
    let slots : ℕ = if l1_slots == 0 then 32 else l1_slots in
    record {
      l1_slots = slots;
      l2_slots = 256;
      l3_slots = 512;
      hits_l1 = 0;
      hits_l2 = 0;
      hits_l3 = 0;
      misses = 0;
      l1 = kv_create slots mem1;
      l2 = kv_create 256 mem2;
      l3 = kv_create 512 mem3;
    }

unfoldable pub hms_cache_destroy : HmsCache → HmsCache
hms_cache_destroy c = record c { l1 = none; l2 = none; l3 = none }

-- The status, the bytes copied to `out`, as many as `*io_len` then says, and the cache.
pub record Got : Type 0 where
  pub status : Status
  pub out : List ℕ
  pub cache : HmsCache

abbrev pub missed : HmsCache → Got
missed c = record {
  status = enoent;
  out = [];
  cache = record c { misses = (c.misses + 1) % 2 ^ 64 };
}

abbrev pub refused : HmsCache → Got
refused c = record { status = einval; out = []; cache = c }

-- `memcpy(out, e->blob, n)` where `n` is the smaller of `*io_len` and `e->len`
unfoldable pub copy_out : KvEntry → ℕ → List ℕ
copy_out e io_len = elim e.blob [ none ↦ [] | some bytes ↦ take (min io_len e.len) bytes ]

-- `hms_cache_l1_get` with what kv_find returns
unfoldable pub l1_get_at : HmsCache → HmsKv → Option ℕ → ℕ → Got
unfolding copy_out
l1_get_at c l none io_len = missed c
l1_get_at c l (some i) io_len = record {
  status = ok;
  out = copy_out (entry l i) io_len;
  cache = record c {
    l1 = some (write l i (record (entry l i) { ref = 1 }));
    hits_l1 = (c.hits_l1 + 1) % 2 ^ 64;
  };
}

unfoldable pub hms_cache_l1_get : HmsCache → List ℕ → ℕ → Got
unfolding l1_get_at kv_find
hms_cache_l1_get c key io_len = elim c.l1 [
  | none ↦ refused c
  | some l ↦ l1_get_at c l (kv_find l key) io_len
]

abbrev pub with_l1 : HmsCache → Status × HmsKv → Status × HmsCache
with_l1 c r = (r.0, record c { l1 = some r.1 })

unfoldable pub l1_put_in : HmsCache → Option HmsKv → List ℕ → List ℕ → Bool → Status × HmsCache
unfolding l1_slot l1_store
l1_put_in c none key bytes mem = (einval, c)
l1_put_in c (some l) key [] mem = (einval, c)
l1_put_in c (some l) key (b ∷ bytes) mem = with_l1 c (l1_store (l1_slot l key) (b ∷ bytes) mem)

unfoldable pub hms_cache_l1_put : HmsCache → List ℕ → List ℕ → Bool → Status × HmsCache
unfolding l1_put_in
hms_cache_l1_put c key bytes mem = l1_put_in c c.l1 key bytes mem

-- `l2_private` and `hits_l2`, or `l3_private` and `hits_l3`
pub data Tier : Type 0 where
  tier2 tier3 : Tier

abbrev pub priv : HmsCache → Tier → Option HmsKv
priv c tier2 = c.l2
priv c tier3 = c.l3

abbrev pub with_priv : HmsCache → Tier → HmsKv → HmsCache
with_priv c tier2 k = record c { l2 = some k }
with_priv c tier3 k = record c { l3 = some k }

abbrev pub add_hit : HmsCache → Tier → HmsCache
add_hit c tier2 = record c { hits_l2 = (c.hits_l2 + 1) % 2 ^ 64 }
add_hit c tier3 = record c { hits_l3 = (c.hits_l3 + 1) % 2 ^ 64 }

unfoldable pub tier_get_at : HmsCache → Tier → HmsKv → Option ℕ → ℕ → Got
unfolding copy_out touch
tier_get_at c t k none io_len = missed c
tier_get_at c t k (some i) io_len = record {
  status = ok;
  out = copy_out (entry k i) io_len;
  cache = add_hit (with_priv c t (touch k i)) t;
}

unfoldable pub tier_get : HmsCache → Tier → List ℕ → ℕ → Got
unfolding tier_get_at kv_find
tier_get c t key io_len = elim (priv c t) [
  | none ↦ refused c
  | some k ↦ tier_get_at c t k (kv_find k key) io_len
]

abbrev pub with_tier : HmsCache → Tier → Status × HmsKv → Status × HmsCache
with_tier c t r = (r.0, with_priv c t r.1)

unfoldable pub tier_put : HmsCache → Tier → List ℕ → List ℕ → Bool → Status × HmsCache
unfolding tier_slot tier_store
tier_put c t key bytes mem = elim (priv c t) [
  | none ↦ (einval, c)
  | some k ↦ with_tier c t (tier_store (tier_slot k key) bytes mem)
]

unfoldable pub hms_cache_l2_get : HmsCache → List ℕ → ℕ → Got
unfolding tier_get
hms_cache_l2_get c key io_len = tier_get c tier2 key io_len

unfoldable pub hms_cache_l2_put : HmsCache → List ℕ → List ℕ → Bool → Status × HmsCache
unfolding tier_put
hms_cache_l2_put c key [] mem = (einval, c)
hms_cache_l2_put c key (b ∷ bytes) mem = tier_put c tier2 key (b ∷ bytes) mem

unfoldable pub hms_cache_l3_get : HmsCache → List ℕ → ℕ → Got
unfolding tier_get
hms_cache_l3_get c key io_len = tier_get c tier3 key io_len

unfoldable pub hms_cache_l3_put : HmsCache → List ℕ → List ℕ → Bool → Status × HmsCache
unfolding tier_put
hms_cache_l3_put c key [] mem = (einval, c)
hms_cache_l3_put c key (b ∷ bytes) mem = tier_put c tier3 key (b ∷ bytes) mem

-- a call, with its key and its length or bytes
pub data Call : Type 0 where
  get1 get2 get3 : List ℕ → ℕ → Call
  put1 put2 put3 : List ℕ → List ℕ → Bool → Call

unfoldable pub call : HmsCache → Call → HmsCache
unfolding hms_cache_l1_get hms_cache_l1_put hms_cache_l2_get hms_cache_l2_put hms_cache_l3_get
    hms_cache_l3_put
call c (get1 key io_len) = (hms_cache_l1_get c key io_len).cache
call c (get2 key io_len) = (hms_cache_l2_get c key io_len).cache
call c (get3 key io_len) = (hms_cache_l3_get c key io_len).cache
call c (put1 key bytes mem) = (hms_cache_l1_put c key bytes mem).1
call c (put2 key bytes mem) = (hms_cache_l2_put c key bytes mem).1
call c (put3 key bytes mem) = (hms_cache_l3_put c key bytes mem).1

-- the cache behind the calls
unfoldable pub calls : HmsCache → List Call → HmsCache
unfolding call
calls c [] = c
calls c (x ∷ xs) = calls (call c x) xs
