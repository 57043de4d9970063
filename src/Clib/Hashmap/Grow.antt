-- ===== src/Clib/Hashmap/Grow.antt =====
-- `hashmap_resize`: the table holds the same entries in more buckets.
use aev_os.Common.{
  ℕ, ◌%◌, ◌^◌, ◌<◌, ◌≡◌, ◌⊎◌, refl, ap, sym, ◌∙◌, Bool, List, [], arith, Bool-cases, inl, inr,
  length-replicate, get_or-replicate, replicate,
}
use aev_os.Common.Errno.{ok, enomem}
use aev_os.Clib.Str.Compare.{IsString}
use aev_os.Clib.Hashmap.{Entry, Hashmap, rehash, given, lookup, hashmap_resize}
use aev_os.Clib.Hashmap.Count.{number, total, total-replicate, total-rehash}
use aev_os.Clib.Hashmap.Inv.{
  IsValid, AreHome, any, bad_key, bucket_of-lt, rehash-AreHome, length-rehash,
}
use aev_os.Clib.Hashmap.Find.{keyed, valued, lookup_same}

-- a table that holds the same entries
pub record Same (m m' : Hashmap) : Type 0 where
  pub valid : IsValid m'
  pub total : (p : Entry → Bool) → total p m'.buckets ≡ total p m.buckets

pub Same-lookup :
    (m m' : Hashmap) (k : List ℕ) → IsValid m → Same m m' → IsString k → lookup m' k ≡ lookup m k
Same-lookup m m' k v s str =
    lookup_same m m' k v s.valid str (s.total (keyed k)) (λ w. s.total (valued k w))

pub no_entries-AreHome : (n : ℕ) → AreHome n (replicate n [])
unfolding number
no_entries-AreHome n i lt = rw (get_or-replicate {A = List Entry} n i []) refl

pub hashmap_resize-Same :
    (m : Hashmap) (new_cap : ℕ) (memory : Bool)
    → IsValid m
    → Same m (hashmap_resize m new_cap memory).1
unfolding hashmap_resize
hashmap_resize-Same m new_cap memory v = elim (Bool-cases (given memory new_cap)) [
  | inr g ↦ rw g (record { valid = v; total = λ p. refl })
  | inl g ↦
      let room : 0 < new_cap = ground arith in
      let moved : (p : Entry → Bool)
          → total p (rehash new_cap m.buckets (replicate new_cap [])) ≡ total p m.buckets =
        λ p. omega (
          arith,
          total-rehash p new_cap (λ h. bucket_of-lt h new_cap room) m.buckets (replicate new_cap [])
              (length-replicate new_cap []),
          total-replicate p new_cap,
        ) in
      rw g (record {
        valid = record {
          size =
              length-rehash new_cap m.buckets (replicate new_cap []) ∙ length-replicate new_cap [];
          room = room;
          small = ground arith;
          home =
              rehash-AreHome new_cap m.buckets (replicate new_cap []) (length-replicate new_cap [])
                (no_entries-AreHome new_cap);
          keys = omega (arith, moved bad_key, v.keys);
          single = λ k s. omega (arith, moved (keyed k), v.single k s);
          counted = v.counted ∙ ap (λ n. n % 2 ^ 64) (sym (moved any));
        };
        total = moved;
      })
]

pub hashmap_resize-status :
    (m : Hashmap) (new_cap : ℕ) (memory : Bool)
    → ((hashmap_resize m new_cap memory).0 ≡ ok) ⊎ ((hashmap_resize m new_cap memory).0 ≡ enomem)
unfolding hashmap_resize
hashmap_resize-status m new_cap memory = elim (Bool-cases (given memory new_cap)) [
  | inl g ↦ rw g (inl refl)
  | inr g ↦ rw g (inr refl)
]
