-- ===== src/Clib/Hashmap/Count.antt =====
-- How many entries have a property: in a chain, in all buckets, and after the changes of buckets that
-- the operations make.
pub use aev_os.Common.{one_if}
use aev_os.Common.{
  ℕ, zero, suc, ◌+◌, ◌<◌, ◌≡◌, refl, Bool, List, [], ◌∷◌, arith, get_or, set, replicate, length,
  length-set,
}
use aev_os.Clib.Hashmap.{Entry, push_front, bucket_of, rehash_chain, rehash, empty_buckets}

unfoldable pub number : (Entry → Bool) → List Entry → ℕ
number p [] = 0
number p (e ∷ es) = one_if (p e) + number p es

unfoldable pub total : (Entry → Bool) → List (List Entry) → ℕ
unfolding number
total p [] = 0
total p (c ∷ cs) = number p c + total p cs

pub total-set :
    (p : Entry → Bool) (bs : List (List Entry)) (i : ℕ) (c : List Entry)
    → i < length bs
    → total p (set bs i c) + number p (get_or bs i []) ≡ total p bs + number p c
unfolding total
total-set p [] i c h = absurd (omega arith)
total-set p (b ∷ bs) zero c h = omega arith
total-set p (b ∷ bs) (suc i) c h = omega (arith, total-set p bs i c (omega arith))

pub total-push_front :
    (p : Entry → Bool) (bs : List (List Entry)) (i : ℕ) (e : Entry)
    → i < length bs
    → total p (push_front bs i e) ≡ total p bs + one_if (p e)
unfolding number
total-push_front p bs i e h = omega (arith, total-set p bs i (e ∷ get_or bs i []) h)

pub total-replicate : (p : Entry → Bool) (n : ℕ) → total p (replicate n []) ≡ 0
unfolding total number replicate
total-replicate p zero = refl
total-replicate p (suc n) = omega (arith, total-replicate p n)

pub total-empty_buckets :
    (p : Entry → Bool) (bs : List (List Entry)) → total p (empty_buckets bs) ≡ 0
unfolding total number empty_buckets
total-empty_buckets p [] = refl
total-empty_buckets p (b ∷ bs) = omega (arith, total-empty_buckets p bs)

pub length-rehash_chain :
    (new_cap : ℕ) (es : List Entry) (bs : List (List Entry))
    → length (rehash_chain new_cap es bs) ≡ length bs
unfolding rehash_chain
length-rehash_chain new_cap [] bs = refl
length-rehash_chain new_cap (e ∷ es) bs = omega (
  arith,
  length-rehash_chain new_cap es (push_front bs (bucket_of e.hash new_cap) e),
  length-set bs (bucket_of e.hash new_cap) (e ∷ get_or bs (bucket_of e.hash new_cap) []),
)

module _ (p : Entry → Bool) (new_cap : ℕ) (below : (h : ℕ) → bucket_of h new_cap < new_cap) where
  total-rehash_chain :
      (es : List Entry) (bs : List (List Entry))
      → length bs ≡ new_cap
      → total p (rehash_chain new_cap es bs) ≡ total p bs + number p es
  unfolding rehash_chain number
  total-rehash_chain [] bs l = omega arith
  total-rehash_chain (e ∷ es) bs l =
      let i = bucket_of e.hash new_cap in
      omega (
        arith,
        total-rehash_chain es (push_front bs i e)
            (omega (arith, l, length-set bs i (e ∷ get_or bs i []))),
        total-push_front p bs i e (omega (arith, below e.hash, l)),
      )

  -- Moving the entries to other buckets keeps their number.
  pub total-rehash :
      (chains bs : List (List Entry))
      → length bs ≡ new_cap
      → total p (rehash new_cap chains bs) ≡ total p bs + total p chains
  unfolding rehash total
  total-rehash [] bs l = omega arith
  total-rehash (c ∷ cs) bs l = omega (
    arith,
    total-rehash cs (rehash_chain new_cap c bs)
        (omega (arith, l, length-rehash_chain new_cap c bs)),
    total-rehash_chain c bs l,
  )
