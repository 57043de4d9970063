-- ===== src/Kernel/Vmm/Map.antt =====
-- What vmm_map_page and vmm_unmap_page do to the translations.
use aev_os.Common.{
  ℕ, zero, suc, ◌/◌, ◌%◌, ◌^◌, ◌≤◌, ◌≡◌, ◌≢◌, sym, ap, ◌∙◌, true, false, some, arith, ℕ_discrete,
}
use aev_os.Kernel.Vmm.{Vm, store, is_present, is_huge, page_of, index, walk_from, phys_at}
use aev_os.Kernel.Vmm.Tree.{
  Layout, IsTree, final, get, huge, missing, below, round, final_huge, final_missing, final_below,
}
use aev_os.Kernel.Vmm.Frame.{final_frame, get-phys_at, some-injective}

module _ (s : Vm) (l : Layout) (t : IsTree s l) where
  -- A walk that ends in a table of the last level goes on below.
  down_to :
      (n p v q i : ℕ)
      → l.kind p ≡ suc (suc n)
      → l.kind q ≡ 1
      → final (suc n) s p v ≡ some (q, i)
      → (is_huge (s.mem p (index v (suc n))) ≡ false)
        × (is_present (s.mem p (index v (suc n))) ≡ true)
        × (final n s (page_of (s.mem p (index v (suc n)))) v ≡ some (q, i))
  down_to n p v q i k kq f = elim (round (s.mem p (index v (suc n)))) [
    | huge a ↦
        let e = ap (λ x. x.0) (some-injective (sym (final_huge n s p v a) ∙ f)) in
        absurd (omega (arith, k, kq, ap l.kind e))
    | missing a b ↦ absurd (cc (f, final_missing n s p v a b))
    | below a b ↦ (a, b, sym (final_below n s p v a b) ∙ f)
  ]

  final-index :
      (n p v q i : ℕ)
      → l.kind p ≡ suc n
      → l.kind q ≡ 1
      → final n s p v ≡ some (q, i)
      → i ≡ index v 0
  unfolding walk_from
  final-index zero p v q i k kq f = sym (ap (λ x. x.1) (some-injective f))
  final-index (suc n) p v q i k kq f =
      let a = down_to n p v q i k kq f in
      final-index n _ v q i (t.down p (index v (suc n)) n k a.0 a.1).0 kq a.2

  -- The indices of two addresses agree in the tables above the last level, up to a level.
  abbrev Agree : ℕ → ℕ → ℕ → Type 0
  Agree zero v w = Unit
  Agree (suc n) v w = (index v (suc n) ≡ index w (suc n)) × Agree n v w

  -- A table of the last level is reached from one table of each level, by one index.
  final-Agree :
      (n p p' v w q i j : ℕ)
      → l.kind p ≡ suc n
      → l.kind p' ≡ suc n
      → l.kind q ≡ 1
      → final n s p v ≡ some (q, i)
      → final n s p' w ≡ some (q, j)
      → (p ≡ p') × Agree n v w
  unfolding walk_from
  final-Agree zero p p' v w q i j k k' kq f g =
      (ap (λ x. x.0) (some-injective f) ∙ sym (ap (λ x. x.0) (some-injective g)), tt)
  final-Agree (suc n) p p' v w q i j k k' kq f g =
      let a = down_to n p v q i k kq f in
      let b = down_to n p' w q j k' kq g in
      let c = t.down p (index v (suc n)) n k a.0 a.1 in
      let d = t.down p' (index w (suc n)) n k' b.0 b.1 in
      let r = final-Agree n _ _ v w q i j c.0 d.0 kq a.2 b.2 in
      let o = sym c.1 ∙ ap l.owner r.0 ∙ d.1 in (ap (λ x. x.0) o, (ap (λ x. x.1) o, r.1))

-- the number of the page of an address of 48 bits
abbrev pub page_number : ℕ → ℕ
page_number v = v / 2 ^ 12 % 2 ^ 36

-- A write of an entry that a walk for `v` finds in a table of the last level.
module _ (s : Vm) (l : Layout) (root v q i e : ℕ) (t : IsTree s l) (top : l.kind root ≡ 4)
    (last : l.kind q ≡ 1) (found : final 3 s root v ≡ some (q, i)) where
  abbrev written : Vm
  written = store s q i e

  not_last : (p j : ℕ) → 2 ≤ l.kind p → written.mem p j ≡ s.mem p j
  not_last p j h = let d : q ≢ p = λ x. omega (arith, h, last, ap l.kind x) in ground (arith, d)

  final-written : (w : ℕ) → final 3 written root w ≡ final 3 s root w
  final-written w = final_frame s written l t not_last 3 root w top

  pub written-IsTree : IsTree written l
  written-IsTree = record {
    down = λ p j n k a b.
        let x = not_last p j (omega (arith, k)) in
        let c = t.down p j n k (sym (ap is_huge x) ∙ a) (sym (ap is_present x) ∙ b) in
        (ap (λ (y : ℕ). l.kind (page_of y)) x ∙ c.0, ap (λ (y : ℕ). l.owner (page_of y)) x ∙ c.1);
    in_use = t.in_use;
    pages = t.pages;
  }

  pub get-written : get 3 written root v ≡ phys_at written (some (q, i)) v
  get-written = ap (λ o. phys_at written o v) (final-written v ∙ found)

  pub get-written_other :
      (w : ℕ) → page_number w ≢ page_number v → get 3 written root w ≡ get 3 s root w
  get-written_other w ne =
      ap (λ o. phys_at written o w) (final-written w)
      ∙ get-phys_at s written (final 3 s root w) w (λ q' j f. elsewhere q' j f)
    where
      elsewhere : (q' j : ℕ) → final 3 s root w ≡ some (q', j) → written.mem q' j ≡ s.mem q' j
      elsewhere q' j f = elim (ℕ_discrete q q') [
        | no d ↦ ground (arith, d)
        | yes x ↦ elim (ℕ_discrete i j) [
          | no d ↦ ground (arith, d)
          | yes y ↦
              let f' : final 3 s root w ≡ some (q, j) = f ∙ ap (λ z. some (z, j)) (sym x) in
              let a = (final-Agree s l t 3 root root v w q i j top top last found f').1 in
              let iv = final-index s l t 3 root v q i top last found in
              let iw = final-index s l t 3 root w q j top last f' in
              absurd (ne (omega (arith, a.0, a.1.0, a.1.1.0, iv, iw, y)))
        ]
      ]
