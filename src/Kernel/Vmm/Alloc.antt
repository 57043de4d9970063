-- ===== src/Kernel/Vmm/Alloc.antt =====
-- What alloc_table does, and the outcomes of a round of the walk that creates.
use aev_os.Common.{
  ℕ, suc, ◌*◌, ◌/◌, ◌^◌, ◌<◌, ◌≡◌, refl, ap, ◌∙◌, inl, inr, ◌⊎◌, true, false, none, some, ◌==◌,
  if◌then◌else◌, arith, Bool-cases,
}
use aev_os.Kernel.Pmm.{Pmm, bm_test, page_size, pmm_alloc_page}
use aev_os.Kernel.Pmm.Inv.{IsValid}
use aev_os.Kernel.Pmm.Alloc.{pmm_alloc_page_lem, pmm_alloc_page-IsValid}
use aev_os.Kernel.Vmm.{
  Vm, store, zero_page, alloc_table, is_present, is_huge, page_of, table_entry, index, walk_from,
}

-- The memory with a page of zeros.
abbrev pub blanked : (ℕ → ℕ → ℕ) → ℕ → ℕ → ℕ → ℕ
blanked mem t q j = if t == q then 0 else mem q j

-- What alloc_table returns: 0 with the memory as it was, or the address of a page that was free.
pub record Allocates (s : Vm) (a : ℕ × Vm) : Type 0 where
  pub valid : IsValid a.1.pmm
  pub more : (q : ℕ) → bm_test s.pmm.bitmap q ≡ true → bm_test a.1.pmm.bitmap q ≡ true
  pub outcome :
      ((a.0 ≡ 0) × (a.1.mem ≡ s.mem))
      ⊎ ((t : ℕ) × (a.0 ≡ t * 2 ^ 12)
          × (0 < t)
          × (t < 2 ^ 40)
          × (bm_test s.pmm.bitmap t ≡ false)
          × (bm_test a.1.pmm.bitmap t ≡ true)
          × (a.1.mem ≡ blanked s.mem t))

pub alloc_more :
    (p : Pmm)
    → IsValid p
    → (q : ℕ) → bm_test p.bitmap q ≡ true
    → bm_test (pmm_alloc_page p).1.bitmap q ≡ true
alloc_more p v q h = elim (pmm_alloc_page_lem v) [
  | inl (full, e) ↦ ap (λ r. bm_test r.1.bitmap q) e ∙ h
  | inr r ↦ r.marks q ∙ ground (arith, h)
]

pub alloc_table-Allocates : (s : Vm) → IsValid s.pmm → Allocates s (alloc_table s)
unfolding alloc_table zero_page
alloc_table-Allocates s v = elim (Bool-cases ((pmm_alloc_page s.pmm).0 == 0)) [
  | inl z ↦
      rw (z, alloc_table)
        (record {
          valid = pmm_alloc_page-IsValid v;
          more = alloc_more s.pmm v;
          outcome = inl (refl, refl);
        })
  | inr z ↦ elim (pmm_alloc_page_lem v) [
    | inl (full, e) ↦ absurd (ground (arith, z, ap (λ r. r.0) e))
    | inr r ↦
        let here : (pmm_alloc_page s.pmm).0 / page_size ≡ r.page = omega (arith, r.address) in
        rw (z, alloc_table)
          (record {
            valid = pmm_alloc_page-IsValid v;
            more = alloc_more s.pmm v;
            outcome = inr (
              r.page,
              omega (arith, r.address),
              ground (arith, z, r.address),
              omega (arith, r.inside, v.small),
              r.free,
              r.marks r.page ∙ ground arith,
              ap (blanked s.mem) here,
            );
          })
  ]
]

-- The four outcomes of a round.
module _ (n : ℕ) (s : Vm) (p v : ℕ) where
  abbrev pub i : ℕ
  i = index v (suc n)

  pub walk_huge : is_huge (s.mem p i) ≡ true → walk_from (suc n) s p v true ≡ (some (p, i), s)
  unfolding walk_from
  walk_huge h = ground arith

  pub walk_below :
      is_huge (s.mem p i) ≡ false
      → is_present (s.mem p i) ≡ true
      → walk_from (suc n) s p v true ≡ walk_from n s (page_of (s.mem p i)) v true
  unfolding walk_from
  walk_below h e = ground arith

  pub walk_failed :
      is_huge (s.mem p i) ≡ false
      → is_present (s.mem p i) ≡ false
      → (alloc_table s).0 ≡ 0
      → walk_from (suc n) s p v true ≡ (none, (alloc_table s).1)
  unfolding walk_from
  walk_failed h e z = ground arith

  abbrev pub with_table : Vm
  with_table = store (alloc_table s).1 p i (table_entry (alloc_table s).0)

  pub walk_fresh :
      is_huge (s.mem p i) ≡ false
      → is_present (s.mem p i) ≡ false
      → 0 < (alloc_table s).0
      → walk_from (suc n) s p v true ≡ walk_from n with_table (page_of (with_table.mem p i)) v true
  unfolding walk_from
  walk_fresh h e z = ground arith
