-- ===== src/Kernel/Vmm/Translate.antt =====
-- vmm_get_phys behind vmm_map_page and vmm_unmap_page.
use aev_os.Common.{
  ℕ, ◌+◌, ◌*◌, ◌/◌, ◌%◌, ◌^◌, ◌≡◌, ◌≢◌, refl, sym, ap, ◌∙◌, inl, inr, ◌⊎◌, true, false, Option,
  none, some, arith, Bool-cases,
}
use aev_os.Kernel.Vmm.{
  Vm, store, is_present, is_huge, page_of, page_entry, walk_from, vmm_walk, phys_at, map_at,
  vmm_map_page, unmap_at, vmm_unmap_page, vmm_get_phys,
}
use aev_os.Kernel.Vmm.Tree.{Layout, IsTree, IsSmall, final, get}
use aev_os.Kernel.Vmm.Frame.{final-Ends}
use aev_os.Kernel.Vmm.Created.{Created}
use aev_os.Kernel.Vmm.Create.{walk_from-Created}
use aev_os.Kernel.Vmm.Room.{HasRoom, walk_from-room}
use aev_os.Kernel.Vmm.Map.{page_number, written-IsTree, get-written, get-written_other}

-- What vmm_map_page leaves, by what its walk returns.
record Mapped (s : Vm) (root v e : ℕ) (r : Option (ℕ × ℕ) × Vm) : Type 0 where
  layout : Layout
  tree : IsTree (map_at r e) layout
  top : layout.kind root ≡ 4
  other : (w : ℕ) → page_number w ≢ page_number v → get 3 (map_at r e) root w ≡ get 3 s root w
  outcome :
      ((r.0 ≡ none) × ((w : ℕ) → get 3 (map_at r e) root w ≡ get 3 s root w))
      ⊎ ((q i : ℕ) × (r.0 ≡ some (q, i))
          × (get 3 (map_at r e) root v ≡ phys_at (store r.1 q i e) (some (q, i)) v))

Created-Mapped :
    (s : Vm) (l : Layout) (root v e : ℕ) (r : Option (ℕ × ℕ) × Vm)
    → l.kind root ≡ 4
    → IsSmall 3 s root v
    → Created 3 s l root v r
    → Mapped s root v e r
unfolding map_at
Created-Mapped s l root v e (none, s') top small c = record {
  layout = c.layout;
  tree = c.tree;
  top = c.keeps root (omega (arith, top)) ∙ top;
  other = λ w ne. c.same 3 root w top;
  outcome = inl (refl, λ w. c.same 3 root w top);
}
Created-Mapped s l root v e (some (q, i), s') top small c =
    let top' = c.keeps root (omega (arith, top)) ∙ top in
    elim c.found [
      | inl f ↦ absurd (cc f)
      | inr (f, m) ↦
          let ends = final-Ends s' c.layout c.tree 3 root v q i top' (m small) (sym f) in
          let t = c.tree in
          record {
            layout = c.layout;
            tree = written-IsTree s' c.layout root v q i e t top' ends.last (sym f);
            top = top';
            other = λ w ne.
                get-written_other s' c.layout root v q i e t top' ends.last (sym f) w ne
                ∙ c.same 3 root w top;
            outcome =
                inr (q, i, refl, get-written s' c.layout root v q i e t top' ends.last (sym f));
          }
    ]

module _ (s : Vm) (l : Layout) (root v paddr flags : ℕ) (tree : IsTree s l) (top : l.kind root ≡ 4)
    (small : IsSmall 3 s root v) where
  mapped : Mapped s root v (page_entry paddr flags) (walk_from 3 s root v true)
  mapped =
      Created-Mapped s l root v (page_entry paddr flags) (walk_from 3 s root v true) top small
        (walk_from-Created 3 s l root v tree top)

-- In page tables that form a tree, where no huge page is on the way to `v`, vmm_map_page of `v`
-- leaves page tables that form a tree with the same root.
pub vmm_map_page-IsTree :
    (s : Vm) (l : Layout) (root v paddr flags : ℕ)
    → IsTree s l
    → l.kind root ≡ 4
    → IsSmall 3 s root v
    → (l' : Layout) × IsTree (vmm_map_page s root v paddr flags) l' × (l'.kind root ≡ 4)
unfolding vmm_map_page vmm_walk
vmm_map_page-IsTree s l root v paddr flags tree top small =
    let m = mapped s l root v paddr flags tree top small in (m.layout, m.tree, m.top)

-- In page tables that form a tree, where no huge page is on the way to `v`, vmm_map_page of `v`
-- leaves vmm_get_phys of every address in another page of the 48-bit space as it was, whether the
-- mapping succeeds or not.
pub vmm_get_phys-vmm_map_page_other :
    (s : Vm) (l : Layout) (root v w paddr flags : ℕ)
    → IsTree s l
    → l.kind root ≡ 4
    → IsSmall 3 s root v
    → page_number w ≢ page_number v
    → vmm_get_phys (vmm_map_page s root v paddr flags) root w ≡ vmm_get_phys s root w
unfolding vmm_map_page vmm_walk vmm_get_phys
vmm_get_phys-vmm_map_page_other s l root v w paddr flags tree top small ne =
    (mapped s l root v paddr flags tree top small).other w ne

pub page_entry_lem :
    (paddr flags : ℕ)
    → flags % 2 ≡ 1
    → flags / 2 ^ 7 % 2 ≡ 0
    → (is_present (page_entry paddr flags) ≡ true)
      × (is_huge (page_entry paddr flags) ≡ false)
      × (page_of (page_entry paddr flags) ≡ page_of paddr)
page_entry_lem paddr flags a b = (ground arith, ground arith, omega arith)

phys_at_stored :
    (s : Vm) (q i e v : ℕ)
    → is_present e ≡ true
    → is_huge e ≡ false
    → phys_at (store s q i e) (some (q, i)) v ≡ page_of e * 2 ^ 12 + v % 2 ^ 12
unfolding phys_at
phys_at_stored s q i e v a b = ground arith

-- In page tables that form a tree, where no huge page is on the way to `v` and three pages are free
-- (page 0 not among them), vmm_get_phys of `v` behind vmm_map_page of `v`, with flags with
-- PTE_PRESENT and without bit 7, is the physical page that was given with the offset of `v` in its
-- page.
pub vmm_get_phys-vmm_map_page :
    (s : Vm) (l : Layout) (root v paddr flags : ℕ)
    → IsTree s l
    → l.kind root ≡ 4
    → IsSmall 3 s root v
    → HasRoom 3 s.pmm
    → flags % 2 ≡ 1
    → flags / 2 ^ 7 % 2 ≡ 0
    → vmm_get_phys (vmm_map_page s root v paddr flags) root v ≡ page_of paddr * 2 ^ 12 + v % 2 ^ 12
unfolding vmm_map_page vmm_walk vmm_get_phys
vmm_get_phys-vmm_map_page s l root v paddr flags tree top small room p h =
    let e = page_entry_lem paddr flags p h in
    elim (mapped s l root v paddr flags tree top small).outcome [
      | inl (f, w) ↦ absurd (walk_from-room 3 s root v room f)
      | inr (q, i, f, g) ↦
          g
          ∙ phys_at_stored (walk_from 3 s root v true).1 q i (page_entry paddr flags) v e.0 e.1
          ∙ ap (λ (x : ℕ). x * 2 ^ 12 + v % 2 ^ 12) e.2
    ]

-- a walk for `v` that finds an entry of a table of the last level, or none
module _ (s : Vm) (l : Layout) (root v : ℕ) (tree : IsTree s l) (top : l.kind root ≡ 4)
    (small : IsSmall 3 s root v) where
  unmapped_self : (f : Option (ℕ × ℕ)) → final 3 s root v ≡ f → get 3 (unmap_at f s) root v ≡ 0
  unfolding unmap_at phys_at
  unmapped_self none e = ap (λ o. phys_at s o v) e
  unmapped_self (some (q, i)) e =
      let last = (final-Ends s l tree 3 root v q i top small e).last in
      let g = get-written s l root v q i 0 tree top last e in
      elim (Bool-cases (is_present (s.mem q i))) [
        | inl b ↦ rw b (g ∙ ground arith)
        | inr b ↦ rw b (ap (λ o. phys_at s o v) e ∙ ground (arith, b))
      ]

  unmapped_other :
      (f : Option (ℕ × ℕ))
      → final 3 s root v ≡ f
      → (w : ℕ) → page_number w ≢ page_number v
      → get 3 (unmap_at f s) root w ≡ get 3 s root w
  unfolding unmap_at
  unmapped_other none e w ne = refl
  unmapped_other (some (q, i)) e w ne =
      let last = (final-Ends s l tree 3 root v q i top small e).last in
      elim (Bool-cases (is_present (s.mem q i))) [
        | inl b ↦ rw b (get-written_other s l root v q i 0 tree top last e w ne)
        | inr b ↦ rw b refl
      ]

-- In page tables that form a tree, where no huge page is on the way to `v`, vmm_get_phys of `v`
-- behind vmm_unmap_page of `v` is 0, and of every address in another page of the 48-bit space it is
-- as before.
pub vmm_get_phys-vmm_unmap_page :
    (s : Vm) (l : Layout) (root v : ℕ)
    → IsTree s l
    → l.kind root ≡ 4
    → IsSmall 3 s root v
    → (vmm_get_phys (vmm_unmap_page s root v) root v ≡ 0)
      × ((w : ℕ)
          → page_number w ≢ page_number v
          → vmm_get_phys (vmm_unmap_page s root v) root w ≡ vmm_get_phys s root w)
unfolding vmm_unmap_page vmm_walk vmm_get_phys
vmm_get_phys-vmm_unmap_page s l root v tree top small = (
  unmapped_self s l root v tree top small (final 3 s root v) refl,
  unmapped_other s l root v tree top small (final 3 s root v) refl,
)
