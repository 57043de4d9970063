-- ===== src/Agent/HmsCache/Hot.antt =====
-- How many entries L1 can hold.
use aev_os.Common.{
  ℕ, zero, suc, ◌+◌, ◌*◌, ◌%◌, ◌^◌, ◌<◌, ◌≤◌, ◌≡◌, refl, sym, ◌∙◌, ap, ◌⊎◌, inl, inr, Bool, true,
  false, not, if◌then◌else◌, subst, Option, none, some, List, [], ◌∷◌, ◌==◌, arith, Option-cases,
  get_or, get_or-set_ne, get_or-replicate,
}
use aev_os.Agent.HmsCache.{
  KvEntry, HmsKv, cap, blank, entry, write, kv_find, l1_rounds, l1_evict, claim, l1_slot, l1_store,
  used,
}
use aev_os.Agent.HmsCache.Find.{kv_find-some, get_or-set_cases}
use aev_os.Agent.HmsCache.Levels.{
  HmsCache, kv_create, hms_cache_init, l1_get_at, hms_cache_l1_get, l1_put_in, hms_cache_l1_put,
  tier_get_at, tier_get, tier_put, Call, get1, get2, get3, put1, put2, put3, call, calls, Tier,
  tier2, tier3, hms_cache_l2_get, hms_cache_l2_put, hms_cache_l3_get, hms_cache_l3_put,
}

-- No entry but the first is in use.
abbrev FirstOnly : HmsKv → Type 0
FirstOnly l = (j : ℕ) → 0 < j → (entry l j).in_use ≡ false

write-FirstOnly :
    (l : HmsKv) (i : ℕ) (e : KvEntry)
    → FirstOnly l
    → (i ≡ 0) ⊎ (e.in_use ≡ false)
    → FirstOnly (write l i e)
write-FirstOnly l i e v (inl z) j h =
    ap (λ x. x.in_use) (get_or-set_ne l.tab i j e blank (λ q. omega (arith, q, z))) ∙ v j h
write-FirstOnly l i e v (inr f) j h = elim (get_or-set_cases l.tab i j e) [
  | inl q ↦ ap (λ x. x.in_use) q ∙ f
  | inr q ↦ ap (λ x. x.in_use) q ∙ v j h
]

used_first : (l : HmsKv) (i : ℕ) → FirstOnly l → (entry l i).in_use ≡ true → i ≡ 0
used_first l zero v u = refl
used_first l (suc i) v u = absurd (cc (u, v (suc i) (omega arith)))

-- a property of both outcomes of the tests of a round
pick :
    (P : ℕ × HmsKv → Type 0) (u r : Bool) (skip found pass : ℕ × HmsKv)
    → (u ≡ false → P skip)
    → (u ≡ true → P found)
    → (u ≡ true → P pass)
    → P (if not u then skip else if r then found else pass)
pick P false r skip found pass a b c = a refl
pick P true true skip found pass a b c = b refl
pick P true false skip found pass a b c = c refl

-- The first entry is the one given up.
abbrev GivesFirst : ℕ × HmsKv → Type 0
GivesFirst r = (r.0 ≡ 0) × FirstOnly r.1

l1_rounds-GivesFirst : (n : ℕ) (l : HmsKv) → FirstOnly l → GivesFirst (l1_rounds n l)
unfolding l1_rounds
l1_rounds-GivesFirst zero l v = (refl, write-FirstOnly l 0 blank v (inl refl))
l1_rounds-GivesFirst (suc n) l v =
    let next : HmsKv = record l { hand = (l.hand + 1) % cap l } in
    let waited : KvEntry = record (entry l l.hand) { ref = 0 } in
    pick GivesFirst (entry l l.hand).in_use ((entry l l.hand).ref == 0) _ _ _
      (λ u. l1_rounds-GivesFirst n next v)
      (λ u. (used_first l l.hand v u, write-FirstOnly next l.hand blank v (inr refl)))
      (λ u.
        l1_rounds-GivesFirst n (write next l.hand waited)
          (write-FirstOnly next l.hand waited v (inl (used_first l l.hand v u))))

l1_slot-GivesFirst : (l : HmsKv) (key : List ℕ) → FirstOnly l → GivesFirst (l1_slot l key)
unfolding l1_slot l1_evict claim
l1_slot-GivesFirst l key v = elim (Option-cases (kv_find l key)) [
  | inl n ↦
      let g = l1_rounds-GivesFirst (cap l * 2 % 2 ^ 32) l v in
      rw (n, l1_slot) (g.0, write-FirstOnly (l1_evict l).1 _ _ g.1 (inl g.0))
  | inr (i, h) ↦
      let f = kv_find-some l key i h in rw (h, l1_slot) (used_first l i v (ground (arith, f.2)), v)
]

l1_store-FirstOnly :
    (r : ℕ × HmsKv) (bytes : List ℕ) (mem : Bool)
    → GivesFirst r
    → FirstOnly (l1_store r bytes mem).1
unfolding l1_store
l1_store-FirstOnly (i, l) bytes true (z, v) = write-FirstOnly l i _ v (inl z)
l1_store-FirstOnly (i, l) bytes false (z, v) = write-FirstOnly l i _ v (inl z)

-- L1 is not there, or holds no entry but its first.
data FirstIn : Option HmsKv → Type 0 where
  absent : FirstIn none
  present : {l : HmsKv} → FirstOnly l → FirstIn (some l)

get1-FirstIn :
    (c : HmsCache) (key : List ℕ) (n : ℕ) → FirstIn c.l1 → FirstIn (call c (get1 key n)).l1
unfolding call hms_cache_l1_get l1_get_at
get1-FirstIn c key n v = in_table c.l1 v
  where
    in_table : (o : Option HmsKv) → FirstIn o → FirstIn (call (record c { l1 = o }) (get1 key n)).l1
    in_table none absent = absent
    in_table (some l) (present f) = elim (Option-cases (kv_find l key)) [
      | inl q ↦ rw (q, call, hms_cache_l1_get) (present f)
      | inr (i, q) ↦
          let z = used_first l i f (ground (arith, (kv_find-some l key i q).2)) in
          rw (q, call, hms_cache_l1_get) (present (write-FirstOnly l i _ f (inl z)))
    ]

put1-FirstIn :
    (o : Option HmsKv) (c : HmsCache) (key bytes : List ℕ) (mem : Bool)
    → FirstIn o
    → FirstIn c.l1
    → FirstIn (l1_put_in c o key bytes mem).1.l1
unfolding l1_put_in
put1-FirstIn none c key bytes mem a v = v
put1-FirstIn (some l) c key [] mem a v = v
put1-FirstIn (some l) c key (b ∷ bytes) mem (present f) v =
    present (l1_store-FirstOnly (l1_slot l key) (b ∷ bytes) mem (l1_slot-GivesFirst l key f))

-- A call of L2 or L3 leaves L1.
l1-tier_get :
    (c : HmsCache) (t : Tier) (key : List ℕ) (n : ℕ) → (tier_get c t key n).cache.l1 ≡ c.l1
unfolding tier_get tier_get_at
l1-tier_get c tier2 key n = ground arith
l1-tier_get c tier3 key n = ground arith

l1-tier_put :
    (c : HmsCache) (t : Tier) (key bytes : List ℕ) (mem : Bool)
    → (tier_put c t key bytes mem).1.l1 ≡ c.l1
unfolding tier_put
l1-tier_put c tier2 key bytes mem = ground arith
l1-tier_put c tier3 key bytes mem = ground arith

call-FirstIn : (c : HmsCache) (x : Call) → FirstIn c.l1 → FirstIn (call c x).l1
unfolding call hms_cache_l1_put hms_cache_l2_get hms_cache_l2_put hms_cache_l3_get hms_cache_l3_put
call-FirstIn c (get1 key n) v = get1-FirstIn c key n v
call-FirstIn c (get2 key n) v = subst FirstIn (sym (l1-tier_get c tier2 key n)) v
call-FirstIn c (get3 key n) v = subst FirstIn (sym (l1-tier_get c tier3 key n)) v
call-FirstIn c (put1 key bytes mem) v = put1-FirstIn c.l1 c key bytes mem v v
call-FirstIn c (put2 key [] mem) v = v
call-FirstIn c (put2 key (b ∷ bytes) mem) v =
    subst FirstIn (sym (l1-tier_put c tier2 key (b ∷ bytes) mem)) v
call-FirstIn c (put3 key [] mem) v = v
call-FirstIn c (put3 key (b ∷ bytes) mem) v =
    subst FirstIn (sym (l1-tier_put c tier3 key (b ∷ bytes) mem)) v

calls-FirstIn : (xs : List Call) (c : HmsCache) → FirstIn c.l1 → FirstIn (calls c xs).l1
unfolding calls
calls-FirstIn [] c v = v
calls-FirstIn (x ∷ xs) c v = calls-FirstIn xs (call c x) (call-FirstIn c x v)

none_used : (es : List KvEntry) → ((j : ℕ) → (get_or es j blank).in_use ≡ false) → used es ≡ 0
unfolding used
none_used [] h = refl
none_used (e ∷ es) h = ground (arith, h 0, none_used es (λ j. h (suc j)))

-- the entries in use of L1, none where it is not there
unfoldable pub l1_count : HmsCache → ℕ
unfolding used
l1_count c = elim c.l1 [ none ↦ 0 | some l ↦ used l.tab ]

l1_count-FirstIn : (c : HmsCache) → FirstIn c.l1 → l1_count c ≤ 1
unfolding l1_count used
l1_count-FirstIn c v = counted c.l1 v
  where
    first :
        (es : List KvEntry) → ((j : ℕ) → 0 < j → (get_or es j blank).in_use ≡ false) → used es ≤ 1
    first [] h = omega arith
    first (e ∷ es) h = ground (arith, none_used es (λ j. h (suc j) (omega arith)))

    counted : (o : Option HmsKv) → FirstIn o → l1_count (record c { l1 = o }) ≤ 1
    counted none absent = omega arith
    counted (some l) (present f) = first l.tab f

kv_create-FirstIn : (n : ℕ) (mem : Bool × Bool) → FirstIn (kv_create n mem)
unfolding kv_create
kv_create-FirstIn n (true, true) =
    present (λ j h. ap (λ e. e.in_use) (get_or-replicate {A = KvEntry} n j blank))
kv_create-FirstIn n (true, false) = absent
kv_create-FirstIn n (false, m) = absent

-- L1 never holds more than one entry: whatever number of slots hms_cache_init is given, at most one
-- entry of L1 is in use behind any gets and puts of the three tables.
pub l1_count-calls :
    (xs : List Call) (slots : ℕ) (mem1 mem2 mem3 : Bool × Bool)
    → l1_count (calls (hms_cache_init slots mem1 mem2 mem3) xs) ≤ 1
unfolding hms_cache_init
l1_count-calls xs slots mem1 mem2 mem3 =
    let start = hms_cache_init slots mem1 mem2 mem3 in
    l1_count-FirstIn (calls start xs) (calls-FirstIn xs start (kv_create-FirstIn _ mem1))
