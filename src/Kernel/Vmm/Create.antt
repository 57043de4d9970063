-- ===== src/Kernel/Vmm/Create.antt =====
-- The walk that creates the tables that are missing.
use aev_os.Common.{
  ℕ, zero, suc, ◌*◌, ◌^◌, ◌<◌, ◌≡◌, ◌≢◌, refl, sym, ap, ap₂, ◌∙◌, subst, inl, inr, ◌⊎◌, true, false,
  Option, none, some, arith, ℕ_discrete,
}
use aev_os.Kernel.Pmm.{bm_test}
use aev_os.Kernel.Vmm.{Vm, alloc_table, is_present, is_huge, page_of, index, walk_from}
use aev_os.Kernel.Vmm.Tree.{Layout, IsTree, IsSmall, huge, missing, below, round, final_huge}
use aev_os.Kernel.Vmm.Grow.{
  Grows, table_entry_lem, get_grown, grown, kind-grown, grown-IsTree, other_entry,
}
use aev_os.Kernel.Vmm.Alloc.{
  blanked, Allocates, alloc_table-Allocates, walk_huge, walk_below, walk_failed, walk_fresh,
  with_table,
}
use aev_os.Kernel.Vmm.Created.{
  Created, unwritten-Created, below-Created, same_mem-IsTree, blank-IsSmall,
}

-- Behind the write of a new table, a walk goes on from it.
module _ (n : ℕ) (s : Vm) (l : Layout) (p v t : ℕ) (tree : IsTree s l)
    (above : l.kind p ≡ suc (suc n)) (no_huge : is_huge (s.mem p (index v (suc n))) ≡ false)
    (no_table : is_present (s.mem p (index v (suc n))) ≡ false) (small : t < 2 ^ 40)
    (was_free : bm_test s.pmm.bitmap t ≡ false) (address : (alloc_table s).0 ≡ t * 2 ^ 12)
    (mem : (alloc_table s).1.mem ≡ blanked s.mem t) where
  abbrev j : ℕ
  j = index v (suc n)

  abbrev s1 : Vm
  s1 = with_table n s p v

  fresh : l.kind t ≡ 0
  fresh = elim (ℕ_discrete (l.kind t) 0) [
    | yes e ↦ e
    | no d ↦ absurd (cc (was_free, tree.in_use t (omega (arith, d))))
  ]

  not_self : p ≢ t
  not_self e = omega (arith, fresh, above, ap l.kind e)

  new_table-Grows : Grows s s1 p j t
  new_table-Grows = record {
    points = ground (arith, address);
    blank = λ i. ground (arith, not_self, ap (λ f. f t i) mem);
    same = λ q i x y. ground (arith, x, y, ap (λ f. f q i) mem);
  }

  abbrev l1 : Layout
  l1 = grown s s1 l p j t n tree new_table-Grows above small fresh no_huge no_table

  new_table-IsTree :
      Allocates s (alloc_table s) → bm_test (alloc_table s).1.pmm.bitmap t ≡ true → IsTree s1 l1
  new_table-IsTree a used =
      grown-IsTree s s1 l p j t n tree new_table-Grows above small fresh no_huge no_table a.more
        used a.valid

  kept : (q : ℕ) → 0 < l.kind q → l1.kind q ≡ l.kind q
  kept q h = kind-grown s s1 l p j t n tree new_table-Grows above small fresh no_huge no_table q h

  kind_new : IsTree s1 l1 → l1.kind (page_of (s1.mem p j)) ≡ suc n
  kind_new t1 =
      let w = table_entry_lem t small in
      let e = new_table-Grows.points in
      (t1.down p j n (kept p (omega (arith, above)) ∙ above) (ap is_huge e ∙ w.0)
        (ap is_present e ∙ w.1)).0

  -- An entry that is in use is another one.
  elsewhere :
      (q i : ℕ) → (is_huge (s.mem q i) ≡ true) ⊎ (is_present (s.mem q i) ≡ true) → (q ≢ p) ⊎ (i ≢ j)
  elsewhere q i b = elim (ℕ_discrete q p) [
    | no x ↦ inl x
    | yes x ↦ inr (λ y.
        let e : s.mem q i ≡ s.mem p j = ap₂ s.mem x y in
        elim b [
          | inl h ↦ absurd (cc (h, no_huge, ap is_huge e))
          | inr h ↦ absurd (cc (h, no_table, ap is_present e))
        ])
  ]

  stays_new :
      (q i k : ℕ)
      → l.kind q ≡ suc k
      → (is_huge (s.mem q i) ≡ true) ⊎ (is_present (s.mem q i) ≡ true)
      → s1.mem q i ≡ s.mem q i
  stays_new q i k h b =
      other_entry s s1 l p j t n tree new_table-Grows above small fresh no_huge no_table q i k h
        (elsewhere q i b)

  fresh-Created :
      (r : Option (ℕ × ℕ) × Vm)
      → IsTree s1 l1
      → Created n s1 l1 (page_of (s1.mem p j)) v r
      → Created (suc n) s l p v r
  fresh-Created r t1 c =
      let w = table_entry_lem t small in
      let points = new_table-Grows.points in
      let blank = new_table-Grows.blank in
      let above1 : l1.kind p ≡ suc (suc n) = kept p (omega (arith, above)) ∙ above in
      let u =
        below-Created n s1 l1 p v r t1 above1 (ap is_huge points ∙ w.0) (ap is_present points ∙ w.1)
          c in
      record {
        layout = u.layout;
        tree = u.tree;
        keeps = λ q h. u.keeps q (omega (arith, kept q h, h)) ∙ kept q h;
        stays = λ q i k h b.
            let e = stays_new q i k h b in
            u.stays q i k (kept q (omega (arith, h)) ∙ h)
              (elim b [ inl x ↦ inl (ap is_huge e ∙ x) | inr x ↦ inr (ap is_present e ∙ x) ])
            ∙ e;
        same = λ m q x k.
            u.same m q x (kept q (omega (arith, k)) ∙ k)
            ∙ get_grown s s1 l p j t n tree new_table-Grows above small fresh no_huge no_table m q x
                k;
        found = elim u.found [
          | inl f ↦ inl f
          | inr (f, m) ↦ inr (
            f,
            λ z. m (
              ap is_huge points ∙ w.0,
              λ y.
                  subst (λ x. IsSmall n s1 x v) (sym (ap page_of points ∙ w.2))
                    (blank-IsSmall n s1 t v blank),
            ),
          )
        ];
      }

-- In a tree, a walk that creates leaves a tree, and keeps what every table gives.
pub walk_from-Created :
    (n : ℕ) (s : Vm) (l : Layout) (p v : ℕ)
    → IsTree s l
    → l.kind p ≡ suc n
    → Created n s l p v (walk_from n s p v true)
unfolding walk_from
walk_from-Created zero s l p v t k =
    unwritten-Created 0 s l p v (some (p, index v 0)) s t refl t (inr (refl, λ z. z))
walk_from-Created (suc n) s l p v t k = elim (round (s.mem p i)) [
  | huge a ↦ subst (Created (suc n) s l p v) (sym (walk_huge n s p v a)) (
      unwritten-Created (suc n) s l p v (some (p, i)) s t refl t
        (inr (sym (final_huge n s p v a), λ z. z)))
  | below a b ↦ subst (Created (suc n) s l p v) (sym (walk_below n s p v a b)) (
      below-Created n s l p v _ t k a b
        (walk_from-Created n s l (page_of (s.mem p i)) v t (t.down p i n k a b).0))
  | missing a b ↦
      let al = alloc_table-Allocates s t.pages in
      elim al.outcome [
        | inl (z, m) ↦ subst (Created (suc n) s l p v) (sym (walk_failed n s p v a b z)) (
            unwritten-Created (suc n) s l p v none (alloc_table s).1
              (same_mem-IsTree s (alloc_table s).1 l t m al.more al.valid) m t (inl refl))
        | inr (u, e, up, small, was_free, used, m) ↦
            let s' = with_table n s p v in
            let t1 = new_table-IsTree n s l p v u t k a b small was_free e m al used in
            subst (Created (suc n) s l p v) (sym (walk_fresh n s p v a b (omega (arith, e, up)))) (
              fresh-Created n s l p v u t k a b small was_free e m _ t1 (
                walk_from-Created n s' _ (page_of (s'.mem p i)) v t1
                  (kind_new n s l p v u t k a b small was_free e m t1)))
      ]
]
  where
    i : ℕ
    i = index v (suc n)
