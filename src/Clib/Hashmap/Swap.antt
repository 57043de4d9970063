-- ===== src/Clib/Hashmap/Swap.antt =====
-- A table with another chain in one of its buckets.
use aev_os.Common.{
  ℕ, ◌+◌, ◌%◌, ◌^◌, ◌≤◌, ◌<◌, ◌≡◌, ◌∙◌, subst, Bool, List, [], arith, length, get_or, set,
  length-set, get_or-set_self, get_or-set_ne, ℕ_discrete,
}
use aev_os.Clib.Str.Compare.{IsString}
use aev_os.Clib.Hashmap.{Entry, Hashmap, bucket_of, chain_of}
use aev_os.Clib.Hashmap.Count.{number, total, total-set}
use aev_os.Clib.Hashmap.Inv.{IsValid, AreHome, away, any, bad_key, bucket_of-lt}
use aev_os.Clib.Hashmap.Find.{keyed}

-- A bucket with another chain.
module _ (m : Hashmap) (h : ℕ) (v : IsValid m) (chain : List Entry) (count : ℕ) where
  abbrev pub i : ℕ
  i = bucket_of h m.capacity

  abbrev pub swapped : Hashmap
  swapped = record m { buckets = set m.buckets i chain; count = count }

  i-lt : i < length m.buckets
  i-lt = omega (arith, v.size, bucket_of-lt h m.capacity v.room)

  pub total_swapped :
      (p : Entry → Bool)
      → total p swapped.buckets + number p (chain_of m h) ≡ total p m.buckets + number p chain
  total_swapped p = total-set p m.buckets i chain i-lt

  swapped-AreHome :
      number (away m.capacity i) chain ≤ number (away m.capacity i) (chain_of m h)
      → AreHome m.capacity swapped.buckets
  swapped-AreHome le j lt = elim (ℕ_discrete i j) [
    | yes q ↦
        subst (λ x. number (away m.capacity x) (get_or swapped.buckets x []) ≡ 0) q
          (rw (get_or-set_self m.buckets i chain [] i-lt)
            (omega (arith, le, v.home i (bucket_of-lt h m.capacity v.room))))
    | no ne ↦ rw (get_or-set_ne m.buckets i j chain [] ne) (v.home j lt)
  ]

  pub swapped-IsValid :
      number (away m.capacity i) chain ≤ number (away m.capacity i) (chain_of m h)
      → number bad_key chain ≤ number bad_key (chain_of m h)
      → ((k : List ℕ) → IsString k → number (keyed k) chain ≤ number (keyed k) (chain_of m h))
      → count ≡ total any swapped.buckets % 2 ^ 64
      → IsValid swapped
  swapped-IsValid home keys single counted = record {
    size = length-set m.buckets i chain ∙ v.size;
    room = v.room;
    small = v.small;
    home = swapped-AreHome home;
    keys = omega (arith, total_swapped bad_key, keys, v.keys);
    single = λ k s. omega (arith, total_swapped (keyed k), single k s, v.single k s);
    counted = counted;
  }
