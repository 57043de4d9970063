-- ===== src/Kernel/Vmm/Huge.antt =====
-- vmm_map_page of an address in a page of 2 MiB.
use aev_os.Common.{
  ℕ, zero, suc, ◌/◌, ◌%◌, ◌^◌, ◌≤◌, ◌≡◌, ◌≢◌, sym, ap, ◌∙◌, true, false, Option, some, arith,
}
use aev_os.Kernel.Vmm.{
  Vm, store, is_present, is_huge, page_of, page_entry, index, walk_from, vmm_walk, phys_at, map_at,
  vmm_map_page, vmm_get_phys,
}
use aev_os.Kernel.Vmm.Tree.{
  Layout, IsTree, final, huge, missing, below, round, final_huge, final_missing, final_below,
}
use aev_os.Kernel.Vmm.Frame.{some-injective}
use aev_os.Kernel.Vmm.Alloc.{walk_huge, walk_below}
use aev_os.Kernel.Vmm.Translate.{page_entry_lem}

-- Where a walk that creates nothing finds an entry, one that creates finds the same.
walk-final :
    (n : ℕ) (s : Vm) (p v q i : ℕ)
    → final n s p v ≡ some (q, i)
    → walk_from n s p v true ≡ (some (q, i), s)
unfolding walk_from
walk-final zero s p v q i f = ap (λ o. (o, s)) f
walk-final (suc n) s p v q i f = elim (round (s.mem p (index v (suc n)))) [
  | huge a ↦ walk_huge n s p v a ∙ ap (λ o. (o, s)) (sym (final_huge n s p v a) ∙ f)
  | missing a b ↦ absurd (cc (f, final_missing n s p v a b))
  | below a b ↦ walk_below n s p v a b ∙ walk-final n s _ v q i (sym (final_below n s p v a b) ∙ f)
]

-- The tables of the levels above the last have the same index for two addresses.
abbrev Same : ℕ → ℕ → ℕ → Type 0
Same n v w = (k : ℕ) → 1 ≤ k → k ≤ n → index v k ≡ index w k

-- An entry of a 2 MiB page that is overwritten leads on to the page of the new entry.
module _ (s : Vm) (l : Layout) (t : IsTree s l) (q i e : ℕ) (second : l.kind q ≡ 2)
    (present : is_present e ≡ true) (small : is_huge e ≡ false) where
  final-overwritten :
      (n p v w : ℕ)
      → l.kind p ≡ suc (suc n)
      → Same (suc n) v w
      → final (suc n) s p v ≡ some (q, i)
      → final (suc n) (store s q i e) p w ≡ some (page_of e, index w 0)
  unfolding walk_from
  final-overwritten zero p v w k same f = elim (round (s.mem p (index v 1))) [
    | huge a ↦
        let o = some-injective (sym (final_huge 0 s p v a) ∙ f) in
        let here : (store s q i e).mem p (index w 1) ≡ e =
          written p (index w 1) (ap (λ x. x.0) o)
            (sym (same 1 (omega arith) (omega arith)) ∙ ap (λ x. x.1) o) in
        final_below 0 (store s q i e) p w (ap is_huge here ∙ small) (ap is_present here ∙ present)
        ∙ ap (λ (x : ℕ). some (page_of x, index w 0)) here
    | missing a b ↦ absurd (cc (f, final_missing 0 s p v a b))
    | below a b ↦
        let o = ap (λ x. x.0) (some-injective (sym (final_below 0 s p v a b) ∙ f)) in
        absurd (omega (arith, second, ap l.kind o, (t.down p (index v 1) 0 k a b).0))
  ]
    where
      written : (p j : ℕ) → p ≡ q → j ≡ i → (store s q i e).mem p j ≡ e
      written p j x y = ground (arith, x, y)
  final-overwritten (suc n) p v w k same f = elim (round (s.mem p (index v (suc (suc n))))) [
    | huge a ↦
        let o = ap (λ x. x.0) (some-injective (sym (final_huge (suc n) s p v a) ∙ f)) in
        absurd (omega (arith, second, k, ap l.kind o))
    | missing a b ↦ absurd (cc (f, final_missing (suc n) s p v a b))
    | below a b ↦
        let d : q ≢ p = λ x. omega (arith, second, k, ap l.kind x) in
        let j = index w (suc (suc n)) in
        let here : (store s q i e).mem p j ≡ s.mem p (index v (suc (suc n))) =
          other p j d ∙ ap (s.mem p) (sym (same (suc (suc n)) (omega arith) (omega arith))) in
        final_below (suc n) (store s q i e) p w (ap is_huge here ∙ a) (ap is_present here ∙ b)
        ∙ ap (λ (x : ℕ). final (suc n) (store s q i e) (page_of x) w) here
        ∙ final-overwritten n _ v w (t.down p (index v (suc (suc n))) (suc n) k a b).0
            (λ m lo hi. same m lo (omega (arith, hi))) (sym (final_below (suc n) s p v a b) ∙ f)
  ]
    where
      other : (p j : ℕ) → q ≢ p → (store s q i e).mem p j ≡ s.mem p j
      other p j d = ground (arith, d)

-- In page tables that form a tree, where the walk for `v` ends at the entry of a page of 2 MiB,
-- vmm_map_page of `v`, with flags with PTE_PRESENT and without bit 7, makes the mapped page a page
-- table: vmm_get_phys of every address of these 2 MiB is read from the word of the mapped page at
-- its index.
pub vmm_get_phys-vmm_map_page_huge :
    (s : Vm) (l : Layout) (root v w q i paddr flags : ℕ)
    → IsTree s l
    → l.kind root ≡ 4
    → l.kind q ≡ 2
    → (vmm_walk s root v false).0 ≡ some (q, i)
    → flags % 2 ≡ 1
    → flags / 2 ^ 7 % 2 ≡ 0
    → w / 2 ^ 21 ≡ v / 2 ^ 21
    → vmm_get_phys (vmm_map_page s root v paddr flags) root w
      ≡ phys_at (vmm_map_page s root v paddr flags) (some (page_of paddr, index w 0)) w
unfolding vmm_map_page vmm_walk vmm_get_phys map_at
vmm_get_phys-vmm_map_page_huge s l root v w q i paddr flags t top second f p h same =
    let e = page_entry_lem paddr flags p h in
    let new = page_entry paddr flags in
    let s' : vmm_map_page s root v paddr flags ≡ store s q i new =
      ap (λ r. map_at r new) (walk-final 3 s root v q i f) in
    let o = final-overwritten s l t q i new second e.0 e.1 2 root v w top (levels v w same) f in
    ap (λ (x : Vm). phys_at x (final 3 x root w) w) s'
    ∙ ap (λ (x : Option (ℕ × ℕ)). phys_at (store s q i new) x w)
        (o ∙ ap (λ (x : ℕ). some (x, index w 0)) e.2)
    ∙ sym (ap (λ (x : Vm). phys_at x (some (page_of paddr, index w 0)) w) s')
  where
    levels : (v w : ℕ) → w / 2 ^ 21 ≡ v / 2 ^ 21 → Same 3 v w
    levels v w same zero lo hi = absurd (omega arith)
    levels v w same (suc zero) lo hi = omega (arith, same)
    levels v w same (suc (suc zero)) lo hi = omega (arith, same)
    levels v w same (suc (suc (suc zero))) lo hi = omega (arith, same)
    levels v w same (suc (suc (suc (suc k)))) lo hi = absurd (omega arith)
