-- ===== src/Clib/Hashmap/Find.antt =====
-- Lookups, from the numbers of entries.
use aev_os.Common.{
  ℕ, ◌+◌, ◌≤◌, ◌≡◌, ◌≢◌, ap, sym, ◌∙◌, Bool, none, some, List, [], ◌∷◌, arith, Option-cases, inl,
  inr, ℕ_discrete,
}
use aev_os.Clib.Str.Compare.{IsString}
use aev_os.Clib.Hashmap.{Entry, Hashmap, same_key, lookup, chain_of, bucket_of, fnv1a_hash}
use aev_os.Clib.Hashmap.Count.{total}
use aev_os.Clib.Hashmap.Chain.{is, number-is_le, number-is_two, find-none, find-some}
use aev_os.Clib.Hashmap.Inv.{IsValid, total-same_key, number_le_total}

abbrev pub keyed : List ℕ → Entry → Bool
keyed k = same_key (fnv1a_hash k) k

abbrev pub valued : List ℕ → ℕ → Entry → Bool
valued k w = is (fnv1a_hash k) k w

pub total-valued_le :
    (k : List ℕ) (w : ℕ) (bs : List (List Entry)) → total (valued k w) bs ≤ total (keyed k) bs
unfolding total
total-valued_le k w [] = omega arith
total-valued_le k w (b ∷ bs) =
    omega (arith, number-is_le (fnv1a_hash k) k w b, total-valued_le k w bs)

total-valued_two :
    (k : List ℕ) (v w : ℕ) (bs : List (List Entry))
    → v ≢ w
    → total (valued k v) bs + total (valued k w) bs ≤ total (keyed k) bs
unfolding total
total-valued_two k v w [] ne = omega arith
total-valued_two k v w (b ∷ bs) ne =
    omega (arith, number-is_two (fnv1a_hash k) k v w b ne, total-valued_two k v w bs ne)

pub lookup-none :
    (m : Hashmap) (k : List ℕ) → IsValid m → lookup m k ≡ none → total (keyed k) m.buckets ≡ 0
unfolding lookup
lookup-none m k v e =
    total-same_key m v (fnv1a_hash k) k ∙ find-none (fnv1a_hash k) k (chain_of m (fnv1a_hash k)) e

pub lookup-some :
    (m : Hashmap) (k : List ℕ) (w : ℕ) → lookup m k ≡ some w → 1 ≤ total (valued k w) m.buckets
unfolding lookup
lookup-some m k w e = omega (
  arith,
  find-some (fnv1a_hash k) k (chain_of m (fnv1a_hash k)) w e,
  number_le_total (valued k w) m.buckets (bucket_of (fnv1a_hash k) m.capacity),
)

-- The number of entries with the key and a value decides the lookup.
pub lookup_there :
    (m : Hashmap) (k : List ℕ) (w : ℕ)
    → IsValid m
    → IsString k
    → 1 ≤ total (valued k w) m.buckets
    → lookup m k ≡ some w
lookup_there m k w v s n = elim (Option-cases (lookup m k)) [
  | inl e ↦ absurd (omega (arith, lookup-none m k v e, total-valued_le k w m.buckets))
  | inr (u, e) ↦ elim (ℕ_discrete u w) [
    | yes q ↦ e ∙ ap some q
    | no ne ↦
        absurd
          (omega (arith, lookup-some m k u e, total-valued_two k u w m.buckets ne, v.single k s))
  ]
]

pub lookup_absent : (m : Hashmap) (k : List ℕ) → total (keyed k) m.buckets ≡ 0 → lookup m k ≡ none
lookup_absent m k n = elim (Option-cases (lookup m k)) [
  | inl e ↦ e
  | inr (u, e) ↦ absurd (omega (arith, lookup-some m k u e, total-valued_le k u m.buckets))
]

-- Tables with the same numbers for a key agree on it.
pub lookup_same :
    (m m' : Hashmap) (k : List ℕ)
    → IsValid m
    → IsValid m'
    → IsString k
    → total (keyed k) m'.buckets ≡ total (keyed k) m.buckets
    → ((w : ℕ) → total (valued k w) m'.buckets ≡ total (valued k w) m.buckets)
    → lookup m' k ≡ lookup m k
lookup_same m m' k v v' s same each = elim (Option-cases (lookup m k)) [
  | inl e ↦ lookup_absent m' k (same ∙ lookup-none m k v e) ∙ sym e
  | inr (w, e) ↦ lookup_there m' k w v' s (omega (arith, lookup-some m k w e, each w)) ∙ sym e
]
