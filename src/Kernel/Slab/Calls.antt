-- ===== src/Kernel/Slab/Calls.antt =====
-- `krealloc` and `kcalloc`, which are made of `kmalloc` and `kfree`.
use aev_os.Common.{
  ℕ, ◌*◌, ◌/◌, ◌%◌, ◌^◌, ◌≡◌, ◌≢◌, refl, ap, Option, none, some, ltb, leb, ◌==◌, if◌then◌else◌,
  arith, Bool-cases, inl, inr,
}
use aev_os.Kernel.Slab.{Heap, kmalloc, krealloc, grow, move_object, kcalloc, owner_size}
use aev_os.Kernel.Slab.Malloc.{IsValid, kmalloc-Mallocs}
use aev_os.Kernel.Slab.Free.{kfree-FreesObject}
use native.Mathlib.Nat.{div-mul-le_self, mul-div_cancel_left, mul_comm}

-- What `krealloc` does to an object: the old one stays, or it is given up for a new one; after a
-- failure it stays too.
move_object-IsValid :
    (ptr : ℕ) (r : ℕ × Heap) → ptr ≢ 0 → IsValid r.1 → IsValid (move_object ptr r).1
unfolding move_object
move_object-IsValid ptr (a, h) ne v = elim (Bool-cases (a == 0)) [
  | inl z ↦ rw z v
  | inr z ↦ rw z (kfree-FreesObject h ptr ne v).valid
]

grow-IsValid :
    (h : Heap) (ptr new_size : ℕ) (r : Option ℕ)
    → ptr ≢ 0
    → IsValid h
    → IsValid (grow h ptr new_size r).1
unfolding grow
grow-IsValid h ptr new_size none ne v = v
grow-IsValid h ptr new_size (some size) ne v = elim (Bool-cases (leb new_size size)) [
  | inl le ↦ rw le v
  | inr gt ↦
      rw gt (move_object-IsValid ptr (kmalloc h new_size) ne (kmalloc-Mallocs h new_size v).valid)
]

-- krealloc keeps the heap valid.
pub krealloc-IsValid :
    (h : Heap) (ptr new_size : ℕ) → IsValid h → IsValid (krealloc h ptr new_size).1
unfolding krealloc
krealloc-IsValid h ptr new_size v = elim (Bool-cases (ptr == 0)) [
  | inl z ↦ rw z (kmalloc-Mallocs h new_size v).valid
  | inr z ↦ elim (Bool-cases (new_size == 0)) [
    | inl e ↦ rw (z, e) (kfree-FreesObject h ptr (λ h. absurd (ground arith)) v).valid
    | inr e ↦
        rw (z, e)
          (grow-IsValid h ptr new_size (owner_size ptr h.caches) (λ h. absurd (ground arith)) v)
  ]
]

-- The overflow test.
product_fits :
    (count size : ℕ)
    → count ≢ 0
    → (count * size % 2 ^ 64 / count == size) ≡ ltb (count * size) (2 ^ 64)
product_fits count size ne = elim (Bool-cases (ltb (count * size) (2 ^ 64))) [
  | inl lt ↦
      let whole : count * size % 2 ^ 64 ≡ count * size = ground arith in
      rw (lt, whole, mul-div_cancel_left size {n = count} (ground arith)) (ground arith)
  | inr ge ↦
      let down = div-mul-le_self (count * size % 2 ^ 64) count in
      let other : (count * size % 2 ^ 64 / count) ≢ size =
        λ e. absurd (ground (arith, rw e at down, mul_comm size count)) in
      rw ge (ground (arith, other))
]

-- kcalloc of a count and a size is kmalloc of their product if the product fits in 64 bits, and else
-- returns 0 and leaves the heap as it is.
pub kcalloc_lem :
    (h : Heap) (count size : ℕ)
    → kcalloc h count size
      ≡ (if ltb (count * size) (2 ^ 64) then kmalloc h (count * size) else (0, h))
unfolding kcalloc
kcalloc_lem h count size = elim (Bool-cases (count == 0)) [
  | inl z ↦
      let none_asked : count ≡ 0 = ground arith in
      let product : count * size ≡ 0 = omega (arith, ap (λ n. n * size) none_asked) in
      rw (z, product) refl
  | inr z ↦
      let fits = product_fits count size (λ e. absurd (ground arith)) in
      elim (Bool-cases (ltb (count * size) (2 ^ 64))) [
        | inl lt ↦
            let whole : count * size % 2 ^ 64 ≡ count * size = ground arith in
            rw (z, lt, fits, lt, whole) refl
        | inr ge ↦ rw (z, fits, ge) refl
      ]
]
