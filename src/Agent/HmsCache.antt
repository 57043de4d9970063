-- ===== src/Agent/HmsCache.antt =====
-- src/agent/hms_cache.c: the tables L1, L2 and L3 of cached results.
-- A table is the list of its entries, whose length is `cap`. A key is the string that its array
-- holds, a blob the list of its bytes. A call is one step under the lock. Whether an allocation
-- succeeds is an argument; null arguments and what kfree does are left out, and so are the fields
-- l1_used, l2_used and l3_used, which nothing writes behind the start.
pub mod Step
pub mod Find
pub mod Hot
pub mod Tier
pub mod Put
pub mod Kept
pub mod Short
pub mod Long
pub mod Levels
mod Tests
use aev_os.Common.{
  ℕ, zero, suc, ◌+◌, ◌-◌, ◌*◌, ◌%◌, ◌^◌, min, Bool, true, false, not, ◌&&◌, Option, none, some,
  List, [], ◌∷◌, ltb, leb, ◌==◌, if◌then◌else◌, one_if, length, get_or, set, take, replicate,
}
use aev_os.Common.Int.{is_zero}
use aev_os.Common.Errno.{Status, ok, einval, enoent, enomem}
use aev_os.Clib.Str.{strcmp}

pub record KvEntry : Type 0 where
  pub key : List ℕ
  pub blob : Option (List ℕ)
  pub len : ℕ
  pub ref : ℕ
  pub lru_tag : ℕ
  pub in_use : Bool

pub record HmsKv : Type 0 where
  pub tab : List KvEntry
  pub hand : ℕ
  pub clock : ℕ

abbrev pub cap : HmsKv → ℕ
cap k = length k.tab

-- an entry of zeros, as from kcalloc or memset
abbrev pub blank : KvEntry
blank = record { key = []; blob = none; len = 0; ref = 0; lru_tag = 0; in_use = false }

abbrev pub entry : HmsKv → ℕ → KvEntry
entry k i = get_or k.tab i blank

abbrev pub write : HmsKv → ℕ → KvEntry → HmsKv
write k i e = record k { tab = set k.tab i e }

-- the `i` at which `for (i = 0; i < cap; i++)` ends that stops at the first entry with `p`
unfoldable pub index_where : (KvEntry → Bool) → List KvEntry → ℕ
index_where p [] = 0
index_where p (e ∷ es) = let rest = suc (index_where p es) in if p e then 0 else rest

abbrev pub has_key : List ℕ → KvEntry → Bool
has_key key e = e.in_use && is_zero (strcmp e.key key)

unfoldable pub kv_find : HmsKv → List ℕ → Option ℕ
unfolding index_where
kv_find k key = let i = index_where (has_key key) k.tab in if ltb i (cap k) then some i else none

-- the loop of `l1_evict`, with the rounds left, and the fallback behind it
unfoldable pub l1_rounds : ℕ → HmsKv → ℕ × HmsKv
l1_rounds zero l = (0, write l 0 blank)
l1_rounds (suc n) l =
    let e : KvEntry = entry l l.hand in
    let next : HmsKv = record l { hand = (l.hand + 1) % cap l } in
    let skip = l1_rounds n next in
    let pass = l1_rounds n (write next l.hand (record e { ref = 0 })) in
    if not e.in_use then skip else if e.ref == 0 then (l.hand, write next l.hand blank) else pass

unfoldable pub l1_evict : HmsKv → ℕ × HmsKv
unfolding l1_rounds
l1_evict l = l1_rounds (cap l * 2 % 2 ^ 32) l

-- what the loop of `lru_evict` ends with: a free entry, or the index with the smallest tag
pub data Victim : Type 0 where
  vacant oldest : ℕ → Victim

-- `i` is the index of the list's head.
unfoldable pub lru_scan : List KvEntry → ℕ → ℕ → ℕ → Victim
lru_scan [] i best_i best_t = oldest best_i
lru_scan (e ∷ es) i best_i best_t =
    let rest =
      lru_scan es (i + 1) (if ltb e.lru_tag best_t then i else best_i)
        (if ltb e.lru_tag best_t then e.lru_tag else best_t) in
    if not e.in_use then vacant i else rest

unfoldable pub take_victim : HmsKv → Victim → ℕ × HmsKv
take_victim k (vacant i) = (i, k)
take_victim k (oldest i) = (i, write k i blank)

unfoldable pub lru_evict : HmsKv → ℕ × HmsKv
unfolding lru_scan take_victim
lru_evict k = take_victim k (lru_scan k.tab 0 (2 ^ 32 - 1) (2 ^ 64 - 1))

-- `strncpy` of 63 bytes, the terminator and `in_use`
unfoldable pub claim : ℕ × HmsKv → List ℕ → ℕ × HmsKv
claim (i, k) key = (i, write k i (record (entry k i) { key = take 63 key; in_use = true }))

-- the entry of a put: the one found, or another that is given the key
unfoldable pub l1_slot : HmsKv → List ℕ → ℕ × HmsKv
unfolding kv_find claim l1_evict
l1_slot l key = elim (kv_find l key) [ none ↦ claim (l1_evict l) key | some i ↦ (i, l) ]

-- kfree of the old blob, kmalloc and memcpy; `mem` is whether kmalloc succeeds.
unfoldable pub l1_store : ℕ × HmsKv → List ℕ → Bool → Status × HmsKv
l1_store (i, l) bytes mem =
    if mem
    then (ok, write l i (record (entry l i) { blob = some bytes; len = length bytes; ref = 1 }))
    else (enomem, write l i (record (entry l i) { blob = none; in_use = false }))

-- the number of entries in use, as the first loop of `tier_put` counts them
unfoldable pub used : List KvEntry → ℕ
used [] = 0
used (e ∷ es) = one_if e.in_use + used es

abbrev pub is_free : KvEntry → Bool
is_free e = not e.in_use

unfoldable pub tier_free : HmsKv → ℕ × HmsKv
unfolding index_where used lru_evict
tier_free k = if leb (cap k) (used k.tab) then lru_evict k else (index_where is_free k.tab, k)

unfoldable pub tier_slot : HmsKv → List ℕ → ℕ × HmsKv
unfolding kv_find claim tier_free
tier_slot k key = elim (kv_find k key) [ none ↦ claim (tier_free k) key | some i ↦ (i, k) ]

-- `L->clock++` and `e->lru_tag = L->clock`
unfoldable pub touch : HmsKv → ℕ → HmsKv
touch k i =
    let now : ℕ = (k.clock + 1) % 2 ^ 64 in
    record (write k i (record (entry k i) { lru_tag = now })) { clock = now }

unfoldable pub tier_store : ℕ × HmsKv → List ℕ → Bool → Status × HmsKv
unfolding touch
tier_store (i, k) bytes mem =
    if mem
    then (ok, touch (write k i (record (entry k i) { blob = some bytes; len = length bytes })) i)
    else (enomem, write k i (record (entry k i) { blob = none; in_use = false }))
