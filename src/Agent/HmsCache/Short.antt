-- ===== src/Agent/HmsCache/Short.antt =====
-- The length of the keys that the entries hold.
use aev_os.Common.{
  ℕ, zero, suc, ◌+◌, ◌%◌, ◌≤◌, subst, sym, Bool, true, false, not, if◌then◌else◌, Option, none,
  some, List, [], ◌∷◌, ◌==◌, leb, arith, Option-cases, inl, inr, length, get_or-replicate,
  length-take,
}
use aev_os.Agent.HmsCache.{
  KvEntry, HmsKv, cap, blank, entry, write, kv_find, l1_rounds, l1_evict, Victim, vacant, oldest,
  take_victim, lru_evict, claim, l1_slot, l1_store, used, tier_free, tier_slot, touch, tier_store,
  index_where, is_free,
}
use aev_os.Agent.HmsCache.Step.{l1_get_lem, tier_get_lem, tier_put_lem}
use aev_os.Agent.HmsCache.Find.{get_or-set_cases}
use aev_os.Agent.HmsCache.Levels.{
  HmsCache, kv_create, l1_get_at, hms_cache_l1_get, l1_put_in, hms_cache_l1_put, tier_get_at,
  tier_get, tier_put, priv, with_priv, Call, get1, get2, get3, put1, put2, put3, call, calls, Tier,
  tier2, tier3, hms_cache_l2_get, hms_cache_l2_put, hms_cache_l3_get, hms_cache_l3_put,
}

-- The keys of a table have at most 63 bytes.
abbrev pub Short : HmsKv → Type 0
Short k = (j : ℕ) → length (entry k j).key ≤ 63

write-Short : (k : HmsKv) (i : ℕ) (e : KvEntry) → Short k → length e.key ≤ 63 → Short (write k i e)
write-Short k i e v h j = elim (get_or-set_cases k.tab i j e) [
  | inl q ↦ subst (λ x. length x.key ≤ 63) (sym q) h
  | inr q ↦ subst (λ x. length x.key ≤ 63) (sym q) (v j)
]

abbrev ShortSlot : ℕ × HmsKv → Type 0
ShortSlot r = Short r.1

-- of the two outcomes of a test
either : (P : ℕ × HmsKv → Type 0) (b : Bool) (x y : ℕ × HmsKv) → P x → P y → P (if b then x else y)
either P true x y p q = p
either P false x y p q = q

l1_rounds-Short : (n : ℕ) (l : HmsKv) → Short l → Short (l1_rounds n l).1
unfolding l1_rounds
l1_rounds-Short zero l v = write-Short l 0 blank v (omega arith)
l1_rounds-Short (suc n) l v =
    let next : HmsKv = record l { hand = (l.hand + 1) % cap l } in
    let waited : KvEntry = record (entry l l.hand) { ref = 0 } in
    let e : KvEntry = entry l l.hand in
    let given : ℕ × HmsKv = (l.hand, write next l.hand blank) in
    let pass = l1_rounds n (write next l.hand waited) in
    either ShortSlot (not e.in_use) (l1_rounds n next) (if e.ref == 0 then given else pass)
      (l1_rounds-Short n next v)
      (either ShortSlot (e.ref == 0) given pass (write-Short next l.hand blank v (omega arith)) (
        l1_rounds-Short n (write next l.hand waited) (write-Short next l.hand waited v (v l.hand))))

take_victim-Short : (k : HmsKv) (x : Victim) → Short k → Short (take_victim k x).1
unfolding take_victim
take_victim-Short k (vacant i) v = v
take_victim-Short k (oldest i) v = write-Short k i blank v (omega arith)

lru_evict-Short : (k : HmsKv) → Short k → Short (lru_evict k).1
unfolding lru_evict
lru_evict-Short k v = take_victim-Short k _ v

tier_free-Short : (k : HmsKv) → Short k → Short (tier_free k).1
unfolding tier_free
tier_free-Short k v =
    either ShortSlot (leb (cap k) (used k.tab)) (lru_evict k) (index_where is_free k.tab, k)
      (lru_evict-Short k v) v

claim-Short : (r : ℕ × HmsKv) (key : List ℕ) → Short r.1 → Short (claim r key).1
unfolding claim
claim-Short (i, k) key v = write-Short k i _ v (omega (arith, length-take 63 key))

l1_slot-Short : (l : HmsKv) (key : List ℕ) → Short l → Short (l1_slot l key).1
unfolding l1_slot l1_evict
l1_slot-Short l key v = elim (Option-cases (kv_find l key)) [
  | inl n ↦ rw (n, l1_slot) (claim-Short (l1_evict l) key (l1_rounds-Short _ l v))
  | inr (i, h) ↦ rw (h, l1_slot) v
]

tier_slot-Short : (k : HmsKv) (key : List ℕ) → Short k → Short (tier_slot k key).1
unfolding tier_slot
tier_slot-Short k key v = elim (Option-cases (kv_find k key)) [
  | inl n ↦ rw (n, tier_slot) (claim-Short (tier_free k) key (tier_free-Short k v))
  | inr (i, h) ↦ rw (h, tier_slot) v
]

touch-Short : (k : HmsKv) (i : ℕ) → Short k → Short (touch k i)
unfolding touch
touch-Short k i v = write-Short k i _ v (v i)

l1_store-Short :
    (r : ℕ × HmsKv) (bytes : List ℕ) (mem : Bool) → Short r.1 → Short (l1_store r bytes mem).1
unfolding l1_store
l1_store-Short (i, l) bytes true v = write-Short l i _ v (v i)
l1_store-Short (i, l) bytes false v = write-Short l i _ v (v i)

tier_store-Short :
    (r : ℕ × HmsKv) (bytes : List ℕ) (mem : Bool) → Short r.1 → Short (tier_store r bytes mem).1
unfolding tier_store
tier_store-Short (i, k) bytes true v =
    let e : KvEntry = record (entry k i) { blob = some bytes; len = length bytes } in
    touch-Short (write k i e) i (write-Short k i e v (v i))
tier_store-Short (i, k) bytes false v = write-Short k i _ v (v i)

pub data ShortIn : Option HmsKv → Type 0 where
  absent : ShortIn none
  present : {k : HmsKv} → Short k → ShortIn (some k)

pub record ShortKeys (c : HmsCache) : Type 0 where
  pub in1 : ShortIn c.l1
  pub in2 : ShortIn c.l2
  pub in3 : ShortIn c.l3

pub ShortIn-some : {k : HmsKv} → ShortIn (some k) → Short k
ShortIn-some (present v) = v

pub priv-ShortIn : (c : HmsCache) (t : Tier) → ShortKeys c → ShortIn (priv c t)
priv-ShortIn c tier2 v = v.in2
priv-ShortIn c tier3 v = v.in3

with_priv-ShortKeys :
    (c : HmsCache) (t : Tier) (k : HmsKv) → ShortKeys c → Short k → ShortKeys (with_priv c t k)
with_priv-ShortKeys c tier2 k v s = record { in1 = v.in1; in2 = present s; in3 = v.in3 }
with_priv-ShortKeys c tier3 k v s = record { in1 = v.in1; in2 = v.in2; in3 = present s }

l1_get_at-ShortKeys :
    (c : HmsCache) (l : HmsKv) (f : Option ℕ) (n : ℕ)
    → ShortKeys c
    → Short l
    → ShortKeys (l1_get_at c l f n).cache
unfolding l1_get_at
l1_get_at-ShortKeys c l none n v s = record { in1 = v.in1; in2 = v.in2; in3 = v.in3 }
l1_get_at-ShortKeys c l (some i) n v s = record {
  in1 = present (write-Short l i _ s (s i));
  in2 = v.in2;
  in3 = v.in3;
}

l1_get-ShortKeys :
    (c : HmsCache) (key : List ℕ) (n : ℕ) → ShortKeys c → ShortKeys (hms_cache_l1_get c key n).cache
unfolding hms_cache_l1_get
l1_get-ShortKeys c key n v = elim (Option-cases c.l1) [
  | inl h ↦ rw (h, hms_cache_l1_get) v
  | inr (l, h) ↦
      subst (λ g. ShortKeys g.cache) (sym (l1_get_lem c l h key n))
        (l1_get_at-ShortKeys c l _ n v (ShortIn-some (subst ShortIn h v.in1)))
]

l1_put_in-ShortKeys :
    (c : HmsCache) (o : Option HmsKv) (key bytes : List ℕ) (mem : Bool)
    → ShortKeys c
    → ShortIn o
    → ShortKeys (l1_put_in c o key bytes mem).1
unfolding l1_put_in
l1_put_in-ShortKeys c none key bytes mem v a = v
l1_put_in-ShortKeys c (some l) key [] mem v a = v
l1_put_in-ShortKeys c (some l) key (b ∷ bytes) mem v (present s) = record {
  in1 = present (l1_store-Short (l1_slot l key) (b ∷ bytes) mem (l1_slot-Short l key s));
  in2 = v.in2;
  in3 = v.in3;
}

tier_get_at-ShortKeys :
    (c : HmsCache) (t : Tier) (k : HmsKv) (f : Option ℕ) (n : ℕ)
    → ShortKeys c
    → Short k
    → ShortKeys (tier_get_at c t k f n).cache
unfolding tier_get_at
tier_get_at-ShortKeys c t k none n v s = record { in1 = v.in1; in2 = v.in2; in3 = v.in3 }
tier_get_at-ShortKeys c tier2 k (some i) n v s = record {
  in1 = v.in1;
  in2 = present (touch-Short k i s);
  in3 = v.in3;
}
tier_get_at-ShortKeys c tier3 k (some i) n v s = record {
  in1 = v.in1;
  in2 = v.in2;
  in3 = present (touch-Short k i s);
}

tier_get-ShortKeys :
    (c : HmsCache) (t : Tier) (key : List ℕ) (n : ℕ)
    → ShortKeys c
    → ShortKeys (tier_get c t key n).cache
unfolding tier_get
tier_get-ShortKeys c t key n v = elim (Option-cases (priv c t)) [
  | inl h ↦ rw (h, tier_get) v
  | inr (k, h) ↦
      subst (λ g. ShortKeys g.cache) (sym (tier_get_lem c t k h key n))
        (tier_get_at-ShortKeys c t k _ n v (ShortIn-some (subst ShortIn h (priv-ShortIn c t v))))
]

tier_put-ShortKeys :
    (c : HmsCache) (t : Tier) (key bytes : List ℕ) (mem : Bool)
    → ShortKeys c
    → ShortKeys (tier_put c t key bytes mem).1
unfolding tier_put
tier_put-ShortKeys c t key bytes mem v = elim (Option-cases (priv c t)) [
  | inl h ↦ rw (h, tier_put) v
  | inr (k, h) ↦
      let s = ShortIn-some (subst ShortIn h (priv-ShortIn c t v)) in
      subst (λ c'. ShortKeys c') (sym (tier_put_lem c t k h key bytes mem))
        (with_priv-ShortKeys c t _ v
          (tier_store-Short (tier_slot k key) bytes mem (tier_slot-Short k key s)))
]

call-ShortKeys : (c : HmsCache) (x : Call) → ShortKeys c → ShortKeys (call c x)
unfolding call hms_cache_l1_put hms_cache_l2_get hms_cache_l2_put hms_cache_l3_get hms_cache_l3_put
call-ShortKeys c (get1 key n) v = l1_get-ShortKeys c key n v
call-ShortKeys c (get2 key n) v = tier_get-ShortKeys c tier2 key n v
call-ShortKeys c (get3 key n) v = tier_get-ShortKeys c tier3 key n v
call-ShortKeys c (put1 key bytes mem) v = l1_put_in-ShortKeys c c.l1 key bytes mem v v.in1
call-ShortKeys c (put2 key [] mem) v = v
call-ShortKeys c (put2 key (b ∷ bytes) mem) v = tier_put-ShortKeys c tier2 key (b ∷ bytes) mem v
call-ShortKeys c (put3 key [] mem) v = v
call-ShortKeys c (put3 key (b ∷ bytes) mem) v = tier_put-ShortKeys c tier3 key (b ∷ bytes) mem v

pub calls-ShortKeys : (xs : List Call) (c : HmsCache) → ShortKeys c → ShortKeys (calls c xs)
unfolding calls
calls-ShortKeys [] c v = v
calls-ShortKeys (x ∷ xs) c v = calls-ShortKeys xs (call c x) (call-ShortKeys c x v)

pub kv_create-ShortIn : (n : ℕ) (mem : Bool × Bool) → ShortIn (kv_create n mem)
unfolding kv_create
kv_create-ShortIn n (true, true) = present (λ j.
    subst (λ e. length e.key ≤ 63) (sym (get_or-replicate {A = KvEntry} n j blank)) (omega arith))
kv_create-ShortIn n (true, false) = absent
kv_create-ShortIn n (false, m) = absent
