-- ===== src/Clib/Hashmap/Inv.antt =====
-- The invariant of the table.
use aev_os.Common.{
  ℕ, zero, suc, ◌-◌, ◌*◌, ◌/◌, ◌%◌, ◌^◌, ◌≤◌, ◌<◌, ◌≡◌, ◌≢◌, refl, ap, sym, ◌∙◌, Bool, true, false,
  not, List, [], ◌∷◌, ◌==◌, if◌then◌else◌, arith, Bool-cases, inl, inr, length, get_or,
  get_or-set_self, get_or-set_ne, length-set, ℕ_discrete,
}
use aev_os.Common.Int.{is_zero, ℤ, pos, negsuc}
use aev_os.Common.Masks.{mask_and}
use aev_os.Clib.Str.{strcmp}
use aev_os.Clib.Str.Compare.{IsString, strcmp-eq_iff}
use aev_os.Clib.Hashmap.{
  Entry, Hashmap, same_key, bucket_of, chain_of, fnv1a_hash, push_front, rehash, rehash_chain,
}
use aev_os.Clib.Hashmap.Count.{number, total, length-rehash_chain}

mask_and-le : (bits a b : ℕ) → mask_and bits a b ≤ b
unfolding mask_and
mask_and-le zero a b = omega arith
mask_and-le (suc bits) a b = ground (arith, mask_and-le bits (a / 2) (b / 2))

pub bucket_of-lt : (h n : ℕ) → 0 < n → bucket_of h n < n
bucket_of-lt h n room = omega (arith, mask_and-le 64 h (n - 1))

-- the entry belongs to another bucket
abbrev pub away : ℕ → ℕ → Entry → Bool
away capacity i e = not (bucket_of e.hash capacity == i)

-- the key has a zero byte
abbrev pub has_zero : List ℕ → Bool
has_zero [] = false
has_zero (c ∷ s) = if c == 0 then true else has_zero s

abbrev pub bad_key : Entry → Bool
bad_key e = has_zero e.key

pub no_zero-IsString : (s : List ℕ) → has_zero s ≡ false → IsString s
no_zero-IsString [] h = tt
no_zero-IsString (c ∷ s) h = (ground arith, no_zero-IsString s (ground arith))

pub IsString-no_zero : (s : List ℕ) → IsString s → has_zero s ≡ false
IsString-no_zero [] h = refl
IsString-no_zero (c ∷ s) (p, h) = ground (arith, IsString-no_zero s h)

-- every entry
abbrev pub any : Entry → Bool
any e = true

abbrev pub AreHome : ℕ → List (List Entry) → Type 0
AreHome capacity bs = (i : ℕ) → i < capacity → number (away capacity i) (get_or bs i []) ≡ 0

pub record IsValid (m : Hashmap) : Type 0 where
  pub size : length m.buckets ≡ m.capacity
  pub room : 0 < m.capacity
  pub small : m.capacity * 8 < 2 ^ 64
  pub home : AreHome m.capacity m.buckets
  pub keys : total bad_key m.buckets ≡ 0
  pub single : (k : List ℕ) → IsString k → total (same_key (fnv1a_hash k) k) m.buckets ≤ 1
  pub counted : m.count ≡ total any m.buckets % 2 ^ 64

is_zero-pos : (z : ℤ) → is_zero z ≡ true → z ≡ pos 0
is_zero-pos (pos n) h = ap pos (ground arith)
is_zero-pos (negsuc n) h = absurd (ground arith)

-- An entry has one key only.
pub same_key-eq :
    (h h' : ℕ) (k k' : List ℕ) (e : Entry)
    → bad_key e ≡ false
    → IsString k
    → IsString k'
    → same_key h k e ≡ true
    → same_key h' k' e ≡ true
    → k ≡ k'
unfolding same_key
same_key-eq h h' k k' e good sk sk' a b =
    let s = no_zero-IsString e.key good in
    let ka = (strcmp-eq_iff e.key k s sk).0 (is_zero-pos (strcmp e.key k) (ground arith)) in
    let kb = (strcmp-eq_iff e.key k' s sk').0 (is_zero-pos (strcmp e.key k') (ground arith)) in
    sym ka ∙ kb

pub same_key_self :
    (k : List ℕ) (v h : ℕ)
    → IsString k
    → same_key h k (record { key = k; value = v; hash = h }) ≡ true
unfolding same_key
same_key_self k v h sk = ground (arith, (strcmp-eq_iff k k sk sk).1 refl)

total_zero :
    (p : Entry → Bool) (bs : List (List Entry))
    → ((j : ℕ) → j < length bs → number p (get_or bs j []) ≡ 0)
    → total p bs ≡ 0
unfolding total
total_zero p [] h = refl
total_zero p (b ∷ bs) h =
    omega (arith, h 0 (omega arith), total_zero p bs (λ j l. h (suc j) (omega arith)))

-- the other buckets have none
pub total_home :
    (p : Entry → Bool) (bs : List (List Entry)) (i : ℕ)
    → i < length bs
    → ((j : ℕ) → j < length bs → j ≢ i → number p (get_or bs j []) ≡ 0)
    → total p bs ≡ number p (get_or bs i [])
unfolding total
total_home p [] i lt h = absurd (omega arith)
total_home p (b ∷ bs) zero lt h =
    omega (arith, total_zero p bs (λ j l. h (suc j) (omega arith) (λ e. absurd (omega arith))))
total_home p (b ∷ bs) (suc i) lt h = omega (
  arith,
  h 0 (omega arith) (λ e. absurd (omega arith)),
  total_home p bs i (omega arith) (λ j l ne. h (suc j) (omega arith) (λ e. ne (omega arith))),
)

same_key-away :
    (capacity h i : ℕ) (k : List ℕ) (es : List Entry)
    → bucket_of h capacity ≢ i
    → number (same_key h k) es ≤ number (away capacity i) es
unfolding number same_key
same_key-away capacity h i k [] ne = omega arith
same_key-away capacity h i k (e ∷ es) ne = elim (Bool-cases (e.hash == h)) [
  | inl q ↦
      let at : e.hash ≡ h = ground arith in
      ground (arith, ap (λ x. bucket_of x capacity) at, same_key-away capacity h i k es ne)
  | inr q ↦ ground (arith, same_key-away capacity h i k es ne)
]

-- The entries with a key are in one bucket.
pub total-same_key :
    (m : Hashmap) (v : IsValid m) (h : ℕ) (k : List ℕ)
    → total (same_key h k) m.buckets ≡ number (same_key h k) (chain_of m h)
total-same_key m v h k =
    total_home (same_key h k) m.buckets (bucket_of h m.capacity)
      (omega (arith, v.size, bucket_of-lt h m.capacity v.room))
      (λ j lt ne. omega (
        arith,
        same_key-away m.capacity h j k (get_or m.buckets j []) (λ e. ne (sym e)),
        v.home j (omega (arith, v.size)),
      ))

pub number_le_total :
    (p : Entry → Bool) (bs : List (List Entry)) (i : ℕ) → number p (get_or bs i []) ≤ total p bs
unfolding total number
number_le_total p [] i = omega arith
number_le_total p (b ∷ bs) zero = omega arith
number_le_total p (b ∷ bs) (suc i) = omega (arith, number_le_total p bs i)

-- Putting an entry in front of its bucket keeps the entries at home.
pub push_front-AreHome :
    (capacity : ℕ) (bs : List (List Entry)) (e : Entry)
    → length bs ≡ capacity
    → AreHome capacity bs
    → AreHome capacity (push_front bs (bucket_of e.hash capacity) e)
unfolding number
push_front-AreHome capacity bs e l home j lt = elim (ℕ_discrete (bucket_of e.hash capacity) j) [
  | yes q ↦
      rw (q, get_or-set_self bs j (e ∷ get_or bs j []) [] (omega (arith, l)))
        (ground (arith, home j lt, q))
  | no ne ↦
      rw
        (get_or-set_ne bs (bucket_of e.hash capacity) j
          (e ∷ get_or bs (bucket_of e.hash capacity) []) [] ne)
        (home j lt)
]

pub rehash_chain-AreHome :
    (capacity : ℕ) (es : List Entry) (bs : List (List Entry))
    → length bs ≡ capacity
    → AreHome capacity bs
    → AreHome capacity (rehash_chain capacity es bs)
unfolding rehash_chain
rehash_chain-AreHome capacity [] bs l home = home
rehash_chain-AreHome capacity (e ∷ es) bs l home =
    let i = bucket_of e.hash capacity in
    rehash_chain-AreHome capacity es (push_front bs i e)
      (omega (arith, l, length-set bs i (e ∷ get_or bs i [])))
      (push_front-AreHome capacity bs e l home)

pub rehash-AreHome :
    (capacity : ℕ) (chains bs : List (List Entry))
    → length bs ≡ capacity
    → AreHome capacity bs
    → AreHome capacity (rehash capacity chains bs)
unfolding rehash
rehash-AreHome capacity [] bs l home = home
rehash-AreHome capacity (c ∷ cs) bs l home =
    rehash-AreHome capacity cs (rehash_chain capacity c bs)
      (omega (arith, l, length-rehash_chain capacity c bs))
      (rehash_chain-AreHome capacity c bs l home)

pub length-rehash :
    (capacity : ℕ) (chains bs : List (List Entry)) → length (rehash capacity chains bs) ≡ length bs
unfolding rehash
length-rehash capacity [] bs = refl
length-rehash capacity (c ∷ cs) bs = omega (
  arith,
  length-rehash capacity cs (rehash_chain capacity c bs),
  length-rehash_chain capacity c bs,
)
