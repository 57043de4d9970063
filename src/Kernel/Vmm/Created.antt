-- ===== src/Kernel/Vmm/Created.antt =====
-- What a walk that creates keeps.
use aev_os.Common.{
  ℕ, zero, suc, ◌<◌, ◌≡◌, refl, sym, ap, ◌∙◌, subst, inl, inr, ◌⊎◌, true, false, Option, none,
  arith,
}
use aev_os.Kernel.Pmm.{bm_test}
use aev_os.Kernel.Pmm.Inv.{IsValid}
use aev_os.Kernel.Vmm.{Vm, is_present, is_huge, page_of, index, phys_at}
use aev_os.Kernel.Vmm.Tree.{Layout, IsTree, IsSmall, final, get, final_below}
use aev_os.Kernel.Vmm.Frame.{final_frame, get-phys_at}

-- What a walk that creates leaves: a tree with the tables before, and what they give; and if it finds
-- an entry, that is the one that a walk behind it finds.
pub record Created (n : ℕ) (s : Vm) (l : Layout) (p v : ℕ) (r : Option (ℕ × ℕ) × Vm) : Type 0 where
  pub layout : Layout
  pub tree : IsTree r.1 layout
  pub keeps : (q : ℕ) → 0 < l.kind q → layout.kind q ≡ l.kind q
  pub stays :
      (q j k : ℕ)
      → l.kind q ≡ suc k
      → (is_huge (s.mem q j) ≡ true) ⊎ (is_present (s.mem q j) ≡ true)
      → r.1.mem q j ≡ s.mem q j
  pub same : (m q w : ℕ) → l.kind q ≡ suc m → get m r.1 q w ≡ get m s q w
  pub found : (r.0 ≡ none) ⊎ ((r.0 ≡ final n r.1 p v) × (IsSmall n s p v → IsSmall n r.1 p v))

-- Nothing is written.
pub unwritten-Created :
    (n : ℕ) (s : Vm) (l : Layout) (p v : ℕ) (f : Option (ℕ × ℕ)) (s' : Vm)
    → IsTree s' l
    → s'.mem ≡ s.mem
    → IsTree s l
    → (f ≡ none) ⊎ ((f ≡ final n s' p v) × (IsSmall n s p v → IsSmall n s' p v))
    → Created n s l p v (f, s')
unwritten-Created n s l p v f s' t e old d = record {
  layout = l;
  tree = t;
  keeps = λ q h. refl;
  stays = λ q j k h b. ap (λ m. m q j) e;
  same = λ m q w h.
      ap (λ o. phys_at s' o w) (final_frame s s' l old (λ x y z. ap (λ m'. m' x y) e) m q w h)
      ∙ get-phys_at s s' (final m s q w) w (λ x y z. ap (λ m'. m' x y) e);
  found = d;
}

-- A walk from the table below gives one from the table above.
pub below-Created :
    (n : ℕ) (s : Vm) (l : Layout) (p v : ℕ) (r : Option (ℕ × ℕ) × Vm)
    → IsTree s l
    → l.kind p ≡ suc (suc n)
    → is_huge (s.mem p (index v (suc n))) ≡ false
    → is_present (s.mem p (index v (suc n))) ≡ true
    → Created n s l (page_of (s.mem p (index v (suc n)))) v r
    → Created (suc n) s l p v r
below-Created n s l p v r t k a b c =
    let e : r.1.mem p (index v (suc n)) ≡ s.mem p (index v (suc n)) =
      c.stays p (index v (suc n)) (suc n) k (inr b) in
    record {
      layout = c.layout;
      tree = c.tree;
      keeps = c.keeps;
      stays = c.stays;
      same = c.same;
      found = elim c.found [
        | inl f ↦ inl f
        | inr (f, m) ↦ inr (
          f
              ∙ ap (λ (x : ℕ). final n r.1 (page_of x) v) (sym e)
              ∙ sym (final_below n r.1 p v (ap is_huge e ∙ a) (ap is_present e ∙ b)),
          λ z. (
            ap is_huge e ∙ a,
            λ y. subst (λ (x : ℕ). IsSmall n r.1 (page_of x) v) (sym e) (m (z.1 b)),
          ),
        )
      ];
    }

pub same_mem-IsTree :
    (s s' : Vm) (l : Layout)
    → IsTree s l
    → s'.mem ≡ s.mem
    → ((q : ℕ) → bm_test s.pmm.bitmap q ≡ true → bm_test s'.pmm.bitmap q ≡ true)
    → IsValid s'.pmm
    → IsTree s' l
same_mem-IsTree s s' l t e more valid = record {
  down = λ p i n k a b.
      let q : s'.mem p i ≡ s.mem p i = ap (λ m. m p i) e in
      let c = t.down p i n k (sym (ap is_huge q) ∙ a) (sym (ap is_present q) ∙ b) in
      (ap (λ (x : ℕ). l.kind (page_of x)) q ∙ c.0, ap (λ (x : ℕ). l.owner (page_of x)) q ∙ c.1);
  in_use = λ p h. more p (t.in_use p h);
  pages = valid;
}

-- No huge page is met in a blank table.
pub blank-IsSmall : (n : ℕ) (s : Vm) (p v : ℕ) → ((j : ℕ) → s.mem p j ≡ 0) → IsSmall n s p v
blank-IsSmall zero s p v h = tt
blank-IsSmall (suc n) s p v h =
    let e = h (index v (suc n)) in (ground (arith, e), λ y. absurd (ground (arith, e, y)))
