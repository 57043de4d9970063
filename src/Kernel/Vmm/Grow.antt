-- ===== src/Kernel/Vmm/Grow.antt =====
-- A new table in a tree.
use aev_os.Common.{
  ℕ, zero, suc, ◌+◌, ◌*◌, ◌^◌, ◌<◌, ◌≡◌, ◌≢◌, refl, sym, ap, ap₂, ◌∙◌, inl, inr, ◌⊎◌, true, false,
  some, ◌==◌, if◌then◌else◌, arith, ℕ_discrete,
}
use aev_os.Kernel.Pmm.{bm_test}
use aev_os.Kernel.Pmm.Inv.{IsValid}
use aev_os.Kernel.Vmm.{Vm, is_present, is_huge, page_of, index, walk_from, phys_at}
use aev_os.Kernel.Vmm.Tree.{
  Layout, IsTree, get, huge, missing, below, round, final_huge, final_missing, final_below,
}

-- Behind the write: the entry points to the table, which is blank, and nothing else is written.
pub record Grows (s s' : Vm) (p i t : ℕ) : Type 0 where
  pub points : s'.mem p i ≡ t * 2 ^ 12 + 7
  pub blank : (j : ℕ) → s'.mem t j ≡ 0
  pub same : (q j : ℕ) → q ≢ t → (q ≢ p) ⊎ (j ≢ i) → s'.mem q j ≡ s.mem q j

pub table_entry_lem :
    (t : ℕ)
    → t < 2 ^ 40
    → (is_huge (t * 2 ^ 12 + 7) ≡ false)
      × (is_present (t * 2 ^ 12 + 7) ≡ true)
      × (page_of (t * 2 ^ 12 + 7) ≡ t)
table_entry_lem t h = (ground arith, ground arith, omega arith)

-- A blank table gives nothing.
get_blank : (n : ℕ) (s : Vm) (p v : ℕ) → ((j : ℕ) → s.mem p j ≡ 0) → get n s p v ≡ 0
unfolding walk_from phys_at
get_blank zero s p v h = rw (h (index v 0)) refl
get_blank (suc n) s p v h =
    let e = h (index v (suc n)) in
    ap (λ o. phys_at s o v) (final_missing n s p v (ground (arith, e)) (ground (arith, e)))

entry-phys_at :
    (s s' : Vm) (q j v : ℕ)
    → s'.mem q j ≡ s.mem q j
    → phys_at s' (some (q, j)) v ≡ phys_at s (some (q, j)) v
unfolding phys_at
entry-phys_at s s' q j v e = rw e refl

module _ (s s' : Vm) (l : Layout) (p i t m : ℕ) (tree : IsTree s l) (grows : Grows s s' p i t)
    (above : l.kind p ≡ suc (suc m)) (small : t < 2 ^ 40) (fresh : l.kind t ≡ 0)
    (no_huge : is_huge (s.mem p i) ≡ false) (no_table : is_present (s.mem p i) ≡ false) where
  not_new : (q n : ℕ) → l.kind q ≡ suc n → q ≢ t
  not_new q n k e = omega (arith, k, fresh, ap l.kind e)

  -- an entry of a table of the tree before, but for the one that is written
  pub other_entry : (q j n : ℕ) → l.kind q ≡ suc n → (q ≢ p) ⊎ (j ≢ i) → s'.mem q j ≡ s.mem q j
  other_entry q j n k d = grows.same q j (not_new q n k) d

  -- What the tables give stays.
  pub get_grown : (n q v : ℕ) → l.kind q ≡ suc n → get n s' q v ≡ get n s q v
  unfolding walk_from phys_at
  get_grown zero q v k =
      entry-phys_at s s' q (index v 0) v
        (other_entry q (index v 0) 0 k (inl (λ e. omega (arith, k, above, ap l.kind e))))
  get_grown (suc n) q v k = elim (is_written q j) [
    | inl (a, b) ↦
        let old : s.mem q j ≡ s.mem p i = ap₂ s.mem a b in
        let e : s'.mem q j ≡ t * 2 ^ 12 + 7 = ap₂ s'.mem a b ∙ grows.points in
        let w = table_entry_lem t small in
        ap (λ o. phys_at s' o v) (final_below n s' q v (ap is_huge e ∙ w.0) (ap is_present e ∙ w.1))
        ∙ ap (λ (x : ℕ). get n s' x v) (ap page_of e ∙ w.2)
        ∙ get_blank n s' t v grows.blank
        ∙ sym (
            ap (λ o. phys_at s o v)
              (final_missing n s q v (ap is_huge old ∙ no_huge) (ap is_present old ∙ no_table)))
    | inr d ↦
        let e = other_entry q j (suc n) k d in
        elim (round (s.mem q j)) [
          | huge a ↦
              ap (λ o. phys_at s' o v) (final_huge n s' q v (ap is_huge e ∙ a))
              ∙ entry-phys_at s s' q j v e
              ∙ sym (ap (λ o. phys_at s o v) (final_huge n s q v a))
          | missing a b ↦
              ap (λ o. phys_at s' o v)
                (final_missing n s' q v (ap is_huge e ∙ a) (ap is_present e ∙ b))
              ∙ sym (ap (λ o. phys_at s o v) (final_missing n s q v a b))
          | below a b ↦
              ap (λ o. phys_at s' o v)
                (final_below n s' q v (ap is_huge e ∙ a) (ap is_present e ∙ b))
              ∙ ap (λ (x : ℕ). get n s' (page_of x) v) e
              ∙ get_grown n (page_of (s.mem q j)) v (tree.down q j n k a b).0
              ∙ sym (ap (λ o. phys_at s o v) (final_below n s q v a b))
        ]
  ]
    where
      j : ℕ
      j = index v (suc n)

      is_written : (q j : ℕ) → ((q ≡ p) × (j ≡ i)) ⊎ ((q ≢ p) ⊎ (j ≢ i))
      is_written q j = ground arith

  abbrev pub grown : Layout
  grown = record {
    kind = λ q. if t == q then suc m else l.kind q;
    owner = λ q. if t == q then (p, i) else l.owner q;
  }

  pub kind-grown : (q : ℕ) → 0 < l.kind q → grown.kind q ≡ l.kind q
  kind-grown q h = elim (ℕ_discrete t q) [
    | yes e ↦ absurd (omega (arith, fresh, ap l.kind e))
    | no d ↦ ground (arith, d)
  ]

  owner-grown : (q : ℕ) → 0 < l.kind q → grown.owner q ≡ l.owner q
  owner-grown q h = elim (ℕ_discrete t q) [
    | yes e ↦ absurd (omega (arith, fresh, ap l.kind e))
    | no d ↦ ground (arith, d)
  ]

  kind_t : grown.kind t ≡ suc m
  kind_t = ground arith

  owner_t : grown.owner t ≡ (p, i)
  owner_t = ground arith

  -- The entry written, and the others.
  down_grown :
      (q j n : ℕ)
      → grown.kind q ≡ suc (suc n)
      → is_huge (s'.mem q j) ≡ false
      → is_present (s'.mem q j) ≡ true
      → (grown.kind (page_of (s'.mem q j)) ≡ suc n) × (grown.owner (page_of (s'.mem q j)) ≡ (q, j))
  down_grown q j n k a b = elim (ℕ_discrete t q) [
    | yes e ↦
        let z : s'.mem q j ≡ 0 = ap (λ x. s'.mem x j) (sym e) ∙ grows.blank j in
        absurd (ground (arith, z, b))
    | no d ↦
        let old : l.kind q ≡ suc (suc n) = ground (arith, k, d) in
        elim (is_at q j) [
          | inl (x, y) ↦
              let e : page_of (s'.mem q j) ≡ t =
                ap page_of (ap₂ s'.mem x y ∙ grows.points) ∙ (table_entry_lem t small).2 in
              let nm : suc m ≡ suc n = omega (arith, above, old, ap l.kind x) in
              (
                ap grown.kind e ∙ kind_t ∙ nm,
                ap grown.owner e ∙ owner_t ∙ ap₂ (λ (u w : ℕ). (u, w)) (sym x) (sym y),
              )
          | inr z ↦
              let e = other_entry q j (suc n) old z in
              let c = tree.down q j n old (sym (ap is_huge e) ∙ a) (sym (ap is_present e) ∙ b) in
              let up : 0 < l.kind (page_of (s.mem q j)) = omega (arith, c.0) in
              (
                ap (λ (x : ℕ). grown.kind (page_of x)) e ∙ kind-grown _ up ∙ c.0,
                ap (λ (x : ℕ). grown.owner (page_of x)) e ∙ owner-grown _ up ∙ c.1,
              )
        ]
  ]
    where
      is_at : (q j : ℕ) → ((q ≡ p) × (j ≡ i)) ⊎ ((q ≢ p) ⊎ (j ≢ i))
      is_at q j = ground arith

  pub grown-IsTree :
      ((q : ℕ) → bm_test s.pmm.bitmap q ≡ true → bm_test s'.pmm.bitmap q ≡ true)
      → bm_test s'.pmm.bitmap t ≡ true
      → IsValid s'.pmm
      → IsTree s' grown
  grown-IsTree more mine valid = record {
    down = down_grown;
    in_use = λ q h. elim (ℕ_discrete t q) [
      | yes e ↦ ap (bm_test s'.pmm.bitmap) (sym e) ∙ mine
      | no d ↦ more q (tree.in_use q (ground (arith, h, d)))
    ];
    pages = valid;
  }
