-- ===== src/Clib/Hashmap.antt =====
-- src/lib/hashmap.c: a hash table of strings with chains.
-- A value is a pointer, and 0 is the null pointer. A chain is the list of its entries, and the first
-- entry is the one that the bucket points to. Whether an allocation succeeds is an argument of the
-- call that makes it; `given` adds what kcalloc refuses. What free_entry gives back to the heap, and
-- hashmap_destroy, which gives back everything, are left out, as are calls with a null table or key.
pub mod Count
pub mod Chain
pub mod Inv
pub mod Find
pub mod Grow
pub mod Swap
pub mod Put
pub mod Remove
mod Tests
use aev_os.Common.{
  ℕ, zero, suc, ◌+◌, ◌-◌, ◌*◌, ◌/◌, ◌%◌, ◌^◌, Bool, true, false, not, ◌&&◌, Option, none, some,
  List, [], ◌∷◌, ◌++◌, ltb, leb, ◌==◌, if◌then◌else◌, get_or, set, replicate,
}
use Prim.Native.Nat.{bit_xor}
use aev_os.Common.Int.{is_zero}
use aev_os.Common.Errno.{Status, ok, enomem}
use aev_os.Common.Masks.{mask_and, mask_or}
use aev_os.Clib.Str.{strcmp}

pub record Entry : Type 0 where
  pub key : List ℕ
  pub value : ℕ
  pub hash : ℕ

pub record Hashmap : Type 0 where
  pub buckets : List (List Entry)
  pub count : ℕ
  pub capacity : ℕ
  pub load_threshold : ℕ

abbrev pub fnv_offset_basis : ℕ
fnv_offset_basis = 0xcbf29ce484222325

abbrev pub fnv_prime : ℕ
fnv_prime = 0x100000001b3

abbrev pub default_capacity : ℕ
default_capacity = 16

-- the loop of `fnv1a_hash`
unfoldable pub hash_from : ℕ → List ℕ → ℕ
hash_from h [] = h
hash_from h (c ∷ s) = hash_from (bit_xor h c * fnv_prime % 2 ^ 64) s

unfoldable pub fnv1a_hash : List ℕ → ℕ
unfolding hash_from
fnv1a_hash key = hash_from fnv_offset_basis key

-- `v |= v >> k` with `p` for 2 ^ k
abbrev pub or_shift : ℕ → ℕ → ℕ
or_shift v p = mask_or 64 v (v / p)

unfoldable pub next_power_of_2 : ℕ → ℕ
next_power_of_2 v =
    let a = or_shift ((v + 2 ^ 64 - 1) % 2 ^ 64) 2 in
    let b = or_shift (or_shift a 4) 16 in
    let c = or_shift (or_shift b 256) 65536 in (or_shift c 4294967296 + 1) % 2 ^ 64

-- whether kcalloc of `n` pointers can succeed
abbrev pub given : Bool → ℕ → Bool
given memory n = memory && not (n == 0) && ltb (n * 8) (2 ^ 64)

unfoldable pub hashmap_create : ℕ → Bool → Bool → Option Hashmap
hashmap_create initial_capacity map_given memory =
    let capacity =
      next_power_of_2
        (if ltb initial_capacity default_capacity then default_capacity else initial_capacity) in
    if not map_given
    then none
    else if not (given memory capacity)
    then none
    else some (record {
      buckets = replicate capacity [];
      count = 0;
      capacity = capacity;
      load_threshold = capacity * 75 % 2 ^ 64 / 100;
    })

-- `h & (capacity - 1)`
abbrev pub bucket_of : ℕ → ℕ → ℕ
bucket_of h capacity = mask_and 64 h (capacity - 1)

-- `e->hash == h && strcmp(e->key, key) == 0`
unfoldable pub same_key : ℕ → List ℕ → Entry → Bool
same_key h key e = e.hash == h && is_zero (strcmp e.key key)

abbrev pub push_front : List (List Entry) → ℕ → Entry → List (List Entry)
push_front bs i e = set bs i (e ∷ get_or bs i [])

-- the inner loop of `hashmap_resize`
unfoldable pub rehash_chain : ℕ → List Entry → List (List Entry) → List (List Entry)
rehash_chain new_cap [] bs = bs
rehash_chain new_cap (e ∷ es) bs =
    rehash_chain new_cap es (push_front bs (bucket_of e.hash new_cap) e)

unfoldable pub rehash : ℕ → List (List Entry) → List (List Entry) → List (List Entry)
unfolding rehash_chain
rehash new_cap [] bs = bs
rehash new_cap (chain ∷ chains) bs = rehash new_cap chains (rehash_chain new_cap chain bs)

unfoldable pub hashmap_resize : Hashmap → ℕ → Bool → Status × Hashmap
unfolding rehash
hashmap_resize m new_cap memory = if not (given memory new_cap) then (enomem, m) else (
  ok,
  record m {
    buckets = rehash new_cap m.buckets (replicate new_cap []);
    capacity = new_cap;
    load_threshold = new_cap * 75 % 2 ^ 64 / 100;
  },
)

unfoldable pub entry_behind : Entry → Option (List Entry) → Option (List Entry)
entry_behind e none = none
entry_behind e (some es) = some (e ∷ es)

-- the chain with the value of the key replaced, if the key is there
unfoldable pub update : ℕ → List ℕ → ℕ → List Entry → Option (List Entry)
unfolding entry_behind same_key
update h key value [] = none
update h key value (e ∷ es) =
    if same_key h key e
    then some (record e { value = value } ∷ es)
    else entry_behind e (update h key value es)

-- the end of `hashmap_put`, with room for the entry
unfoldable pub add_entry : Hashmap → ℕ → List ℕ → ℕ → Bool → Bool → Status × Hashmap
add_entry m h key value entry_given key_given =
    if not entry_given then (enomem, m) else if not key_given then (enomem, m) else (
      ok,
      record m {
        buckets =
            push_front m.buckets (bucket_of h m.capacity)
              (record { key = key; value = value; hash = h });
        count = (m.count + 1) % 2 ^ 64;
      },
    )

unfoldable pub add_resized : ℕ → List ℕ → ℕ → Bool → Bool → Status × Hashmap → Status × Hashmap
unfolding add_entry
add_resized h key value entry_given key_given (ok, m) =
    add_entry m h key value entry_given key_given
add_resized h key value entry_given key_given (rc, m) = (rc, m)

-- the allocations of `hashmap_put`: the new buckets, the entry and its key
pub record Memory : Type 0 where
  pub buckets_given : Bool
  pub entry_given : Bool
  pub key_given : Bool

unfoldable pub add_new : Hashmap → ℕ → List ℕ → ℕ → Memory → Status × Hashmap
unfolding add_resized
add_new m h key value mem =
    if leb m.load_threshold m.count
    then add_resized h key value mem.entry_given mem.key_given
        (hashmap_resize m (m.capacity * 2 % 2 ^ 64) mem.buckets_given)
    else add_entry m h key value mem.entry_given mem.key_given

-- `hashmap_put` with the updated chain
unfoldable pub put_in : Hashmap → ℕ → List ℕ → ℕ → Memory → Option (List Entry) → Status × Hashmap
unfolding add_new
put_in m h key value mem none = add_new m h key value mem
put_in m h key value mem (some chain) =
    (ok, record m { buckets = set m.buckets (bucket_of h m.capacity) chain })

abbrev pub chain_of : Hashmap → ℕ → List Entry
chain_of m h = get_or m.buckets (bucket_of h m.capacity) []

unfoldable pub hashmap_put : Hashmap → List ℕ → ℕ → Memory → Status × Hashmap
unfolding put_in update fnv1a_hash
hashmap_put m key value mem =
    let h = fnv1a_hash key in put_in m h key value mem (update h key value (chain_of m h))

-- the value of the first entry with the key
unfoldable pub find : ℕ → List ℕ → List Entry → Option ℕ
unfolding same_key
find h key [] = none
find h key (e ∷ es) = if same_key h key e then some e.value else find h key es

unfoldable pub lookup : Hashmap → List ℕ → Option ℕ
unfolding find fnv1a_hash
lookup m key = find (fnv1a_hash key) key (chain_of m (fnv1a_hash key))

abbrev pub or_null : Option ℕ → ℕ
or_null none = 0
or_null (some v) = v

abbrev pub is_there : Option ℕ → Bool
is_there none = false
is_there (some v) = true

unfoldable pub hashmap_get : Hashmap → List ℕ → ℕ
unfolding lookup
hashmap_get m key = or_null (lookup m key)

unfoldable pub hashmap_contains : Hashmap → List ℕ → Bool
unfolding lookup
hashmap_contains m key = is_there (lookup m key)

unfoldable pub behind_removed : Entry → Option (ℕ × List Entry) → Option (ℕ × List Entry)
behind_removed e none = none
behind_removed e (some (v, es)) = some (v, e ∷ es)

-- the value of the first entry with the key, and the chain without it
unfoldable pub unlink : ℕ → List ℕ → List Entry → Option (ℕ × List Entry)
unfolding behind_removed same_key
unlink h key [] = none
unlink h key (e ∷ es) =
    if same_key h key e then some (e.value, es) else behind_removed e (unlink h key es)

unfoldable pub remove_in : Hashmap → ℕ → Option (ℕ × List Entry) → ℕ × Hashmap
remove_in m h none = (0, m)
remove_in m h (some (v, chain)) = (
  v,
  record m {
    buckets = set m.buckets (bucket_of h m.capacity) chain;
    count = (m.count + 2 ^ 64 - 1) % 2 ^ 64;
  },
)

unfoldable pub hashmap_remove : Hashmap → List ℕ → ℕ × Hashmap
unfolding remove_in unlink fnv1a_hash
hashmap_remove m key = let h = fnv1a_hash key in remove_in m h (unlink h key (chain_of m h))

abbrev pub hashmap_size : Hashmap → ℕ
hashmap_size m = m.count

unfoldable pub empty_buckets : List (List Entry) → List (List Entry)
empty_buckets [] = []
empty_buckets (chain ∷ chains) = [] ∷ empty_buckets chains

unfoldable pub hashmap_clear : Hashmap → Hashmap
unfolding empty_buckets
hashmap_clear m = record m { buckets = empty_buckets m.buckets; count = 0 }

abbrev pub calls_of : List Entry → List (List ℕ × ℕ)
calls_of [] = []
calls_of (e ∷ es) = (e.key, e.value) ∷ calls_of es

unfoldable pub all_calls : List (List Entry) → List (List ℕ × ℕ)
all_calls [] = []
all_calls (chain ∷ chains) = calls_of chain ++ all_calls chains

-- the keys and values that `hashmap_foreach` calls the callback with, in their order
unfoldable pub hashmap_foreach : Hashmap → List (List ℕ × ℕ)
unfolding all_calls
hashmap_foreach m = all_calls m.buckets
