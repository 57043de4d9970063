-- ===== src/Clib/Hashmap/Remove.antt =====
-- `hashmap_remove`, `hashmap_clear` and `hashmap_create`.
use aev_os.Common.{
  ℕ, zero, suc, ◌+◌, ◌-◌, ◌*◌, ◌/◌, ◌%◌, ◌^◌, ◌<◌, ◌≡◌, ◌≢◌, refl, ap, sym, ◌∙◌, Bool, true, false,
  Option, none, some, List, [], ◌∷◌, ◌++◌, ltb, if◌then◌else◌, arith, Bool-cases, inl, inr, length,
  get_or, length-replicate, replicate,
}
use aev_os.Clib.Str.Compare.{IsString}
use aev_os.Clib.Hashmap.{
  Entry, Hashmap, bucket_of, chain_of, fnv1a_hash, lookup, unlink, remove_in, hashmap_remove,
  or_null, hashmap_clear, empty_buckets, calls_of, all_calls, hashmap_foreach, hashmap_size,
  hashmap_create, given, default_capacity, next_power_of_2,
}
use aev_os.Clib.Hashmap.Count.{one_if, number, total, total-replicate, total-empty_buckets}
use aev_os.Clib.Hashmap.Chain.{Unlinks, unlink-none, unlink-Unlinks}
use aev_os.Clib.Hashmap.Inv.{IsValid, away, any, bad_key, same_key-eq, total-same_key}
use aev_os.Clib.Hashmap.Find.{keyed, valued, lookup_there, lookup_absent, lookup_same}
use aev_os.Clib.Hashmap.Grow.{no_entries-AreHome}
use aev_os.Clib.Hashmap.Swap.{swapped, total_swapped, swapped-IsValid}
use aev_os.Clib.Hashmap.Put.{among-good}

-- What `hashmap_remove` does to a valid table.
pub record Removes (m : Hashmap) (k : List ℕ) (r : ℕ × Hashmap) : Type 0 where
  pub valid : IsValid r.1
  pub value : r.0 ≡ or_null (lookup m k)
  pub gone : lookup r.1 k ≡ none
  pub others : (k' : List ℕ) → IsString k' → k' ≢ k → lookup r.1 k' ≡ lookup m k'

module _ (m : Hashmap) (k : List ℕ) (v : IsValid m) (str : IsString k) where
  unlinked-Removes :
      (w : ℕ) (chain : List Entry)
      → Unlinks (fnv1a_hash k) k w (chain_of m (fnv1a_hash k)) chain
      → Removes m k (w, swapped m (fnv1a_hash k) v chain ((m.count + 2 ^ 64 - 1) % 2 ^ 64))
  unlinked-Removes w chain u =
      let h = fnv1a_hash k in
      let count = (m.count + 2 ^ 64 - 1) % 2 ^ 64 in
      let m' = swapped m h v chain count in
      let fewer : (p : Entry → Bool) → total p m'.buckets + one_if (p u.entry) ≡ total p m.buckets =
        λ p. omega (arith, total_swapped m h v chain count p, u.fewer p) in
      let good : bad_key u.entry ≡ false =
        among-good m h u.entry v (λ p. omega (arith, u.fewer p)) in
      let valid : IsValid m' =
        swapped-IsValid m h v chain count
          (omega (arith, u.fewer (away m.capacity (bucket_of h m.capacity))))
          (omega (arith, u.fewer bad_key)) (λ k' s. omega (arith, u.fewer (keyed k')))
          (omega (arith, v.counted, fewer any)) in
      let other : (k' : List ℕ) → IsString k' → k' ≢ k → keyed k' u.entry ≡ false = λ k' s ne.
        elim (Bool-cases (keyed k' u.entry)) [
          | inl e ↦ absurd (ne (same_key-eq (fnv1a_hash k') h k' k u.entry good s str e u.has))
          | inr e ↦ e
        ] in
      let held : valued k w u.entry ≡ true = ground (arith, u.has, u.holds) in
      let found : lookup m k ≡ some w =
        lookup_there m k w v str (omega (arith, fewer (valued k w), ap one_if held)) in
      record {
        valid = valid;
        value = ap or_null (sym found);
        gone = lookup_absent m' k (omega (arith, fewer (keyed k), v.single k str, ap one_if u.has));
        others = λ k' s ne.
            lookup_same m m' k' v valid s
              (omega (arith, fewer (keyed k'), ap one_if (other k' s ne)))
              (λ x. ground (arith, fewer (valued k' x), other k' s ne));
      }

  remove_in-Removes :
      (r : Option (ℕ × List Entry))
      → unlink (fnv1a_hash k) k (chain_of m (fnv1a_hash k)) ≡ r
      → Removes m k (remove_in m (fnv1a_hash k) r)
  unfolding remove_in
  remove_in-Removes none e =
      let absent : lookup m k ≡ none = lookup_absent m k (
        total-same_key m v (fnv1a_hash k) k
        ∙ unlink-none (fnv1a_hash k) k (chain_of m (fnv1a_hash k)) e) in
      record { valid = v; value = ap or_null (sym absent); gone = absent; others = λ k' s ne. refl }
  remove_in-Removes (some (w, chain)) e =
      unlinked-Removes w chain
        (unlink-Unlinks (fnv1a_hash k) k w (chain_of m (fnv1a_hash k)) chain e)

-- hashmap_remove of a string from a valid table returns what hashmap_get returns, and leaves a
-- valid table, in which the key is not there and every other key has what it had.
pub hashmap_remove-Removes :
    (m : Hashmap) (k : List ℕ) → IsValid m → IsString k → Removes m k (hashmap_remove m k)
unfolding hashmap_remove
hashmap_remove-Removes m k v str =
    remove_in-Removes m k v str (unlink (fnv1a_hash k) k (chain_of m (fnv1a_hash k))) refl

number-empty :
    (p : Entry → Bool) (bs : List (List Entry)) (i : ℕ)
    → number p (get_or (empty_buckets bs) i []) ≡ 0
unfolding number empty_buckets
number-empty p [] i = refl
number-empty p (b ∷ bs) zero = refl
number-empty p (b ∷ bs) (suc i) = number-empty p bs i

length-empty_buckets : (bs : List (List Entry)) → length (empty_buckets bs) ≡ length bs
unfolding empty_buckets
length-empty_buckets [] = refl
length-empty_buckets (b ∷ bs) = ap suc (length-empty_buckets bs)

-- hashmap_clear of a valid table leaves a valid table without a key.
pub hashmap_clear-IsValid :
    (m : Hashmap)
    → IsValid m
    → IsValid (hashmap_clear m) × ((k : List ℕ) → lookup (hashmap_clear m) k ≡ none)
unfolding hashmap_clear
hashmap_clear-IsValid m v = (
  record {
    size = length-empty_buckets m.buckets ∙ v.size;
    room = v.room;
    small = v.small;
    home = λ i lt. number-empty (away m.capacity i) m.buckets i;
    keys = total-empty_buckets bad_key m.buckets;
    single = λ k s. omega (arith, total-empty_buckets (keyed k) m.buckets);
    counted = omega (arith, total-empty_buckets any m.buckets);
  },
  λ k. lookup_absent (hashmap_clear m) k (total-empty_buckets (keyed k) m.buckets),
)

abbrev pub new_table : ℕ → Hashmap
new_table n = record {
  buckets = replicate n [];
  count = 0;
  capacity = n;
  load_threshold = n * 75 % 2 ^ 64 / 100;
}

pub new_table-IsValid : (n : ℕ) → 0 < n → n * 8 < 2 ^ 64 → IsValid (new_table n)
new_table-IsValid n room small = record {
  size = length-replicate n [];
  room = room;
  small = small;
  home = no_entries-AreHome n;
  keys = total-replicate bad_key n;
  single = λ k s. omega (arith, total-replicate (keyed k) n);
  counted = omega (arith, total-replicate any n);
}

-- a valid table without a key, or none
abbrev pub IsBlank : Option Hashmap → Type 0
IsBlank none = Unit
IsBlank (some m) = IsValid m × ((k : List ℕ) → lookup m k ≡ none)

-- hashmap_create gives a valid table without a key, or no table.
pub hashmap_create-IsBlank :
    (n : ℕ) (map_given memory : Bool) → IsBlank (hashmap_create n map_given memory)
unfolding hashmap_create
hashmap_create-IsBlank n map_given memory =
    let capacity = next_power_of_2 (if ltb n default_capacity then default_capacity else n) in
    elim (Bool-cases map_given) [
      | inr a ↦ rw a tt
      | inl a ↦ elim (Bool-cases (given memory capacity)) [
        | inr b ↦ rw (a, b) tt
        | inl b ↦
            rw (a, b)
              (
                new_table-IsValid capacity (ground arith) (ground arith),
                λ k. lookup_absent (new_table capacity) k (total-replicate (keyed k) capacity),
              )
      ]
    ]

length-calls_of :
    (es : List Entry) (rest : List (List ℕ × ℕ))
    → length (calls_of es ++ rest) ≡ number any es + length rest
unfolding number
length-calls_of [] rest = omega arith
length-calls_of (e ∷ es) rest = omega (arith, length-calls_of es rest)

length-all_calls : (bs : List (List Entry)) → length (all_calls bs) ≡ total any bs
unfolding all_calls total
length-all_calls [] = refl
length-all_calls (b ∷ bs) = omega (arith, length-calls_of b (all_calls bs), length-all_calls bs)

-- hashmap_size is the number of calls of hashmap_foreach, modulo 2^64, on a valid table.
pub length-hashmap_foreach :
    (m : Hashmap) → IsValid m → length (hashmap_foreach m) % 2 ^ 64 ≡ hashmap_size m
unfolding hashmap_foreach
length-hashmap_foreach m v = ap (λ n. n % 2 ^ 64) (length-all_calls m.buckets) ∙ sym v.counted
