-- ===== src/Clib/Hashmap/Put.antt =====
-- `hashmap_put`.
use aev_os.Common.{
  ℕ, ◌+◌, ◌*◌, ◌%◌, ◌^◌, ◌≤◌, ◌<◌, ◌≡◌, ◌≢◌, ◌⊎◌, refl, ap, sym, ◌∙◌, Bool, true, false, Option,
  none, some, List, ◌∷◌, leb, arith, Bool-cases, Option-cases, inl, inr, length-set,
}
use aev_os.Common.Errno.{Status, ok, enomem}
use aev_os.Clib.Str.Compare.{IsString}
use aev_os.Clib.Hashmap.{
  Entry, Hashmap, Memory, same_key, bucket_of, chain_of, fnv1a_hash, push_front, given, lookup,
  update, add_entry, add_resized, add_new, put_in, hashmap_put, hashmap_resize,
}
use aev_os.Clib.Hashmap.Count.{one_if, number, total, total-push_front}
use aev_os.Clib.Hashmap.Chain.{Updates, update-none, update-Updates}
use aev_os.Clib.Hashmap.Inv.{
  IsValid, away, any, bad_key, bucket_of-lt, same_key-eq, same_key_self, IsString-no_zero,
  total-same_key, number_le_total, push_front-AreHome,
}
use aev_os.Clib.Hashmap.Find.{keyed, valued, lookup_there, lookup_same}
use aev_os.Clib.Hashmap.Grow.{Same, Same-lookup, hashmap_resize-Same, hashmap_resize-status}
use aev_os.Clib.Hashmap.Swap.{swapped, total_swapped, swapped-IsValid}

-- What `hashmap_put` does to a valid table: the key gets the value where it returns ok, and no other
-- key changes; else it returns -ENOMEM, and no key changes.
pub record Puts (m : Hashmap) (k : List ℕ) (value : ℕ) (r : Status × Hashmap) : Type 0 where
  pub valid : IsValid r.1
  pub stored : r.0 ≡ ok → lookup r.1 k ≡ some value
  pub others : (k' : List ℕ) → IsString k' → (k' ≢ k) ⊎ (r.0 ≢ ok) → lookup r.1 k' ≡ lookup m k'
  pub status : (r.0 ≡ ok) ⊎ (r.0 ≡ enomem)

module _ (m : Hashmap) (k : List ℕ) (value : ℕ) (v : IsValid m) (str : IsString k) where
  abbrev fresh : Entry
  fresh = record { key = k; value = value; hash = fnv1a_hash k }

  abbrev added : Hashmap
  added = record m {
    buckets = push_front m.buckets (bucket_of (fnv1a_hash k) m.capacity) fresh;
    count = (m.count + 1) % 2 ^ 64;
  }

  total_added : (p : Entry → Bool) → total p added.buckets ≡ total p m.buckets + one_if (p fresh)
  total_added p =
      total-push_front p m.buckets (bucket_of (fnv1a_hash k) m.capacity) fresh
        (omega (arith, v.size, bucket_of-lt (fnv1a_hash k) m.capacity v.room))

  other_key : (k' : List ℕ) → IsString k' → k' ≢ k → keyed k' fresh ≡ false
  other_key k' s ne = elim (Bool-cases (keyed k' fresh)) [
    | inr e ↦ e
    | inl e ↦ absurd (
        ne (
          same_key-eq (fnv1a_hash k') (fnv1a_hash k) k' k fresh (IsString-no_zero k str) s str e
            (same_key_self k value (fnv1a_hash k) str)))
  ]

  added-IsValid : total (keyed k) m.buckets ≡ 0 → IsValid added
  added-IsValid none_yet = record {
    size =
        length-set m.buckets (bucket_of (fnv1a_hash k) m.capacity)
          (fresh ∷ chain_of m (fnv1a_hash k))
        ∙ v.size;
    room = v.room;
    small = v.small;
    home = push_front-AreHome m.capacity m.buckets fresh v.size v.home;
    keys = omega (arith, total_added bad_key, v.keys, ap one_if (IsString-no_zero k str));
    single = λ k' s. elim (Bool-cases (keyed k' fresh)) [
      | inl e ↦
          let at =
            same_key-eq (fnv1a_hash k') (fnv1a_hash k) k' k fresh (IsString-no_zero k str) s str e
              (same_key_self k value (fnv1a_hash k) str) in
          let empty : total (keyed k') m.buckets ≡ 0 =
            ap (λ x. total (keyed x) m.buckets) at ∙ none_yet in
          omega (arith, total_added (keyed k'), empty, ap one_if e)
      | inr e ↦ omega (arith, total_added (keyed k'), v.single k' s, ap one_if e)
    ];
    counted = omega (arith, v.counted, total_added any);
  }

  valued_fresh : valued k value fresh ≡ true
  valued_fresh = ground (arith, same_key_self k value (fnv1a_hash k) str)

  other_value : (k' : List ℕ) (w : ℕ) → IsString k' → k' ≢ k → valued k' w fresh ≡ false
  other_value k' w s ne = ground (arith, other_key k' s ne)

  failed_Puts : Puts m k value (enomem, m)
  failed_Puts = record {
    valid = v;
    stored = λ e. absurd (ground arith);
    others = λ k' s h. refl;
    status = inr refl;
  }

  add_entry-Puts :
      (mem : Memory)
      → total (keyed k) m.buckets ≡ 0
      → Puts m k value (add_entry m (fnv1a_hash k) k value mem.entry_given mem.key_given)
  unfolding add_entry
  add_entry-Puts mem none_yet = elim (Bool-cases mem.entry_given) [
    | inr a ↦ rw a (failed_Puts)
    | inl a ↦ elim (Bool-cases mem.key_given) [
      | inr b ↦ rw (a, b) (failed_Puts)
      | inl b ↦
          let av = added-IsValid none_yet in
          rw (a, b)
            (record {
              valid = av;
              stored = λ e.
                  lookup_there added k value av str
                    (omega (arith, total_added (valued k value), ap one_if valued_fresh));
              others = λ k' s h. elim h [
                | inr failed ↦ absurd (failed refl)
                | inl ne ↦
                    lookup_same m added k' v av s
                      (omega (arith, total_added (keyed k'), ap one_if (other_key k' s ne)))
                      (λ w.
                        omega (arith, total_added (valued k' w), ap one_if (other_value k' w s ne)))
              ];
              status = inl refl;
            })
    ]
  ]

add_resized-Puts :
    (m : Hashmap) (k : List ℕ) (value : ℕ) (mem : Memory) (r : Status × Hashmap)
    → IsValid m
    → IsString k
    → total (keyed k) m.buckets ≡ 0
    → (r.0 ≡ ok) ⊎ (r.0 ≡ enomem)
    → Same m r.1
    → Puts m k value (add_resized (fnv1a_hash k) k value mem.entry_given mem.key_given r)
unfolding add_resized
add_resized-Puts m k value mem (ok, m') v str none_yet st s =
    let p = add_entry-Puts m' k value s.valid str mem (s.total (keyed k) ∙ none_yet) in
    record {
      valid = p.valid;
      stored = p.stored;
      others = λ k' str' h. p.others k' str' h ∙ Same-lookup m m' k' v s str';
      status = p.status;
    }
add_resized-Puts m k value mem (enomem, m') v str none_yet st s = record {
  valid = s.valid;
  stored = λ e. absurd (ground arith);
  others = λ k' str' h. Same-lookup m m' k' v s str';
  status = inr refl;
}
add_resized-Puts m k value mem (rc, m') v str none_yet st s = absurd (ground (arith, st))

add_new-Puts :
    (m : Hashmap) (k : List ℕ) (value : ℕ) (mem : Memory)
    → IsValid m
    → IsString k
    → total (keyed k) m.buckets ≡ 0
    → Puts m k value (add_new m (fnv1a_hash k) k value mem)
unfolding add_new
add_new-Puts m k value mem v str none_yet = elim (Bool-cases (leb m.load_threshold m.count)) [
  | inl full ↦
      let new_cap = m.capacity * 2 % 2 ^ 64 in
      rw full (
        add_resized-Puts m k value mem (hashmap_resize m new_cap mem.buckets_given) v str none_yet
          (hashmap_resize-status m new_cap mem.buckets_given)
          (hashmap_resize-Same m new_cap mem.buckets_given v))
  | inr some_room ↦ rw some_room (add_entry-Puts m k value v str mem none_yet)
]

-- An entry of a valid table has a proper key.
pub among-good :
    (m : Hashmap) (h : ℕ) (e : Entry)
    → IsValid m
    → ((p : Entry → Bool) → one_if (p e) ≤ number p (chain_of m h))
    → bad_key e ≡ false
among-good m h e v among =
    ground
      (arith, among bad_key, number_le_total bad_key m.buckets (bucket_of h m.capacity), v.keys)

module _ (m : Hashmap) (k : List ℕ) (value : ℕ) (v : IsValid m) (str : IsString k) where
  update-Puts :
      (chain : List Entry)
      → Updates (fnv1a_hash k) k value (chain_of m (fnv1a_hash k)) chain
      → Puts m k value (ok, swapped m (fnv1a_hash k) v chain m.count)
  unfolding same_key
  update-Puts chain u =
      let h = fnv1a_hash k in
      let m' = swapped m h v chain m.count in
      let good : bad_key u.entry ≡ false = among-good m h u.entry v u.among in
      let swap = total_swapped m h v chain m.count in
      let kept : (p : Entry → Bool)
          → p (record u.entry { value = value }) ≡ p u.entry
          → total p m'.buckets ≡ total p m.buckets =
        λ p e. omega (arith, swap p, u.changed p, ap one_if e) in
      let valid : IsValid m' =
        swapped-IsValid m h v chain m.count
          (omega (arith, u.changed (away m.capacity (bucket_of h m.capacity))))
          (omega (arith, u.changed bad_key)) (λ k' s. omega (arith, u.changed (keyed k')))
          (v.counted ∙ ap (λ n. n % 2 ^ 64) (sym (kept any refl))) in
      let other : (k' : List ℕ) → IsString k' → k' ≢ k → keyed k' u.entry ≡ false = λ k' s ne.
        elim (Bool-cases (keyed k' u.entry)) [
          | inl e ↦ absurd (ne (same_key-eq (fnv1a_hash k') h k' k u.entry good s str e u.has))
          | inr e ↦ e
        ] in
      record {
        valid = valid;
        stored = λ e. lookup_there m' k value valid str (
            ground (
              arith,
              swap (valued k value),
              u.changed (valued k value),
              u.among (valued k value),
              number_le_total (valued k value) m.buckets (bucket_of h m.capacity),
              u.has,
            ));
        others = λ k' s d. elim d [
          | inr failed ↦ absurd (failed refl)
          | inl ne ↦
              lookup_same m m' k' v valid s (kept (keyed k') refl)
                (λ w. kept (valued k' w) (ground (arith, other k' s ne)))
        ];
        status = inl refl;
      }

  put_in-Puts :
      (mem : Memory) (r : Option (List Entry))
      → update (fnv1a_hash k) k value (chain_of m (fnv1a_hash k)) ≡ r
      → Puts m k value (put_in m (fnv1a_hash k) k value mem r)
  unfolding put_in
  put_in-Puts mem none e = add_new-Puts m k value mem v str (
      total-same_key m v (fnv1a_hash k) k
      ∙ update-none (fnv1a_hash k) k value (chain_of m (fnv1a_hash k)) e)
  put_in-Puts mem (some chain) e =
      update-Puts chain (update-Updates (fnv1a_hash k) k value (chain_of m (fnv1a_hash k)) chain e)

-- hashmap_put of a string into a valid table leaves a valid table. If it returns 0, the key has the
-- value and every other key what it had. Else it returns -ENOMEM, and every key has what it had.
pub hashmap_put-Puts :
    (m : Hashmap) (k : List ℕ) (value : ℕ) (mem : Memory)
    → IsValid m
    → IsString k
    → Puts m k value (hashmap_put m k value mem)
unfolding hashmap_put
hashmap_put-Puts m k value mem v str =
    put_in-Puts m k value v str mem (update (fnv1a_hash k) k value (chain_of m (fnv1a_hash k))) refl

-- With memory for everything, and fewer than 2^60 buckets, hashmap_put returns 0.
pub hashmap_put_ok :
    (m : Hashmap) (k : List ℕ) (value : ℕ)
    → 0 < m.capacity
    → m.capacity < 2 ^ 60
    → (hashmap_put m k value
        (record { buckets_given = true; entry_given = true; key_given = true })).0
      ≡ ok
unfolding hashmap_put put_in add_new add_resized add_entry hashmap_resize
hashmap_put_ok m k value room small =
    elim (Option-cases (update (fnv1a_hash k) k value (chain_of m (fnv1a_hash k)))) [
      | inr (chain, e) ↦ rw e refl
      | inl e ↦ elim (Bool-cases (leb m.load_threshold m.count)) [
        | inr l ↦ rw (e, l) refl
        | inl l ↦
            let fits : given true (m.capacity * 2 % 2 ^ 64) ≡ true = ground arith in
            rw (e, l, fits) refl
      ]
    ]
