-- ===== src/Clib/Hashmap/Tests.antt =====
-- The theorems on the hash table at small tables.
use aev_os.Common.{ℕ, ◌≡◌, refl, arith, true, none, List, [], ◌∷◌}
use aev_os.Common.Masks.{mask_or}
use aev_os.Clib.Str.Compare.{IsString}
use aev_os.Clib.Hashmap.{
  Hashmap, Memory, hashmap_create, next_power_of_2, fnv1a_hash, hash_from, hashmap_put,
  hashmap_remove, hashmap_clear, lookup,
}
use aev_os.Clib.Hashmap.Inv.{IsValid}
use aev_os.Clib.Hashmap.Put.{Puts, hashmap_put-Puts}
use aev_os.Clib.Hashmap.Remove.{
  Removes, hashmap_remove-Removes, hashmap_clear-IsValid, IsBlank, hashmap_create-IsBlank,
  new_table, new_table-IsValid,
}

-- the FNV-1a hash of "a"
hash_of_a : fnv1a_hash (97 ∷ []) ≡ 0xaf63dc4c8601ec8c
unfolding fnv1a_hash hash_from
hash_of_a = refl

power_of_20 : next_power_of_2 20 ≡ 32
unfolding next_power_of_2 mask_or
power_of_20 = refl

abbrev table : Hashmap
table = new_table 16

table-IsValid : IsValid table
table-IsValid = new_table-IsValid 16 (omega arith) (omega arith)

abbrev all_given : Memory
all_given = record { buckets_given = true; entry_given = true; key_given = true }

abbrev apple : List ℕ
apple = 97 ∷ 112 ∷ 112 ∷ []

apple-IsString : IsString apple
apple-IsString = (omega arith, (omega arith, (omega arith, tt)))

abbrev with_apple : Hashmap
with_apple = (hashmap_put table apple 7 all_given).1

with_apple-IsValid : IsValid with_apple
with_apple-IsValid = (hashmap_put-Puts table apple 7 all_given table-IsValid apple-IsString).valid

hashmap_put-Puts_example : Puts with_apple apple 8 (hashmap_put with_apple apple 8 all_given)
hashmap_put-Puts_example =
    hashmap_put-Puts with_apple apple 8 all_given with_apple-IsValid apple-IsString

hashmap_remove-Removes_example : Removes with_apple apple (hashmap_remove with_apple apple)
hashmap_remove-Removes_example =
    hashmap_remove-Removes with_apple apple with_apple-IsValid apple-IsString

hashmap_clear-IsValid_example :
    IsValid (hashmap_clear with_apple) × ((k : List ℕ) → lookup (hashmap_clear with_apple) k ≡ none)
hashmap_clear-IsValid_example = hashmap_clear-IsValid with_apple with_apple-IsValid

hashmap_create-IsBlank_example : IsBlank (hashmap_create 20 true true)
hashmap_create-IsBlank_example = hashmap_create-IsBlank 20 true true
