-- ===== src/Kernel/Vmm/Tests.antt =====
-- The theorems on the page tables at an empty root table, in page 512.
use aev_os.Common.{
  ℕ, suc, ◌+◌, ◌*◌, ◌%◌, ◌^◌, ◌≡◌, ◌≢◌, refl, ap, sym, subst, subst₂, ◌≤◌, true, false, none, some,
  ◌==◌, if◌then◌else◌, ◌&&◌, ◌⊎◌, inl, inr, leb, arith,
}
use aev_os.Kernel.Pmm.{bm_test}
use aev_os.Kernel.Pmm.Tests.{
  booted, booted-IsValid, page_0_used, page_512_used, page_513_used, page_514_used, page_515_used,
  free_booted,
}
use aev_os.Kernel.Vmm.{
  Vm, vmm_map_page, vmm_unmap_page, vmm_get_phys, vmm_walk, walk_from, phys_at, page_of, is_present,
  is_huge, index,
}
use aev_os.Kernel.Vmm.Tree.{Layout, IsTree, IsSmall}
use aev_os.Kernel.Vmm.Map.{page_number}
use aev_os.Kernel.Vmm.Room.{HasRoom}
use aev_os.Kernel.Vmm.Context.{VmmCtx, vmm_create_ctx}
use aev_os.Kernel.Vmm.Translate.{
  vmm_map_page-IsTree, vmm_get_phys-vmm_map_page, vmm_get_phys-vmm_map_page_other,
  vmm_get_phys-vmm_unmap_page,
}
use aev_os.Kernel.Vmm.Huge.{vmm_get_phys-vmm_map_page_huge}
use aev_os.Kernel.Vmm.Release.{destroyed, bm_test-vmm_destroy_ctx}
use aev_os.Kernel.Vmm.Share.{vmm_get_phys-vmm_create_ctx}

abbrev empty : Vm
empty = record { mem = λ p i. 0; pmm = booted }

abbrev only_root : Layout
only_root = record { kind = λ p. if p == 512 then 4 else 0; owner = λ p. (0, 0) }

empty-IsTree : IsTree empty only_root
empty-IsTree = record {
  down = λ p i n k a b. absurd (ground (arith, b));
  in_use = λ p h. root_used p (ground (arith, h));
  pages = booted-IsValid;
}
  where
    root_used : (p : ℕ) → p ≡ 512 → bm_test booted.bitmap p ≡ true
    root_used p e = subst (λ q. bm_test booted.bitmap q ≡ true) (sym e) page_512_used

root-IsSmall : (v : ℕ) → IsSmall 3 empty 512 v
root-IsSmall v = (refl, λ e. absurd (ground (arith, e)))

has_room : (n : ℕ) → n ≤ 496 → HasRoom n booted
has_room n h = record {
  valid = booted-IsValid;
  zero_used = page_0_used;
  enough = omega (arith, free_booted);
}

-- present, writable and of the user
abbrev user_flags : ℕ
user_flags = 7

abbrev addr : ℕ
addr = 0x40_1234

vmm_map_page-IsTree_example :
    (l' : Layout) × IsTree (vmm_map_page empty 512 addr 0x25_8000 user_flags) l' × (l'.kind 512 ≡ 4)
vmm_map_page-IsTree_example =
    vmm_map_page-IsTree empty only_root 512 addr 0x25_8000 user_flags empty-IsTree refl
      (root-IsSmall addr)

vmm_get_phys-vmm_map_page_example :
    vmm_get_phys (vmm_map_page empty 512 addr 0x25_8000 user_flags) 512 addr
    ≡ page_of 0x25_8000 * 2 ^ 12 + addr % 2 ^ 12
vmm_get_phys-vmm_map_page_example =
    vmm_get_phys-vmm_map_page empty only_root 512 addr 0x25_8000 user_flags empty-IsTree refl
      (root-IsSmall addr) (has_room 3 (omega arith)) (omega arith) (omega arith)

vmm_get_phys-vmm_map_page_other_example :
    vmm_get_phys (vmm_map_page empty 512 addr 0x25_8000 user_flags) 512 0x7000
    ≡ vmm_get_phys empty 512 0x7000
vmm_get_phys-vmm_map_page_other_example =
    vmm_get_phys-vmm_map_page_other empty only_root 512 addr 0x7000 0x25_8000 user_flags
      empty-IsTree refl (root-IsSmall addr) (omega arith)

-- A tree of four tables, in the pages from 512 on, that maps the page of `addr` to page 600.
abbrev chain : Vm
chain = record {
  mem = λ p i.
      if (p == 512) && (i == 0)
      then 513 * 2 ^ 12 + 7
      else if (p == 513) && (i == 0)
      then 514 * 2 ^ 12 + 7
      else if (p == 514) && (i == 2)
      then 515 * 2 ^ 12 + 7
      else if (p == 515) && (i == 1)
      then 600 * 2 ^ 12 + 7
      else 0;
  pmm = booted;
}

abbrev chain_layout : Layout
chain_layout = record {
  kind = λ p.
      if p == 512
      then 4
      else if p == 513
      then 3
      else if p == 514
      then 2
      else if p == 515
      then 1
      else 0;
  owner = λ p. if p == 513 then (512, 0) else if p == 514 then (513, 0) else (514, 2);
}

chain-IsTree : IsTree chain chain_layout
chain-IsTree = record {
  down = λ p i n k a b. at p i n k b (entries p i b);
  in_use = λ p h. used p (ground (arith, h));
  pages = booted-IsValid;
}
  where
    entries :
        (p i : ℕ)
        → is_present (chain.mem p i) ≡ true
        → ((p ≡ 512) × (i ≡ 0))
          ⊎ (((p ≡ 513) × (i ≡ 0)) ⊎ (((p ≡ 514) × (i ≡ 2)) ⊎ ((p ≡ 515) × (i ≡ 1))))
    entries p i b = ground (arith, b)

    Down : (p i n : ℕ) → Type 0
    Down p i n =
        (chain_layout.kind (page_of (chain.mem p i)) ≡ suc n)
        × (chain_layout.owner (page_of (chain.mem p i)) ≡ (p, i))

    at :
        (p i n : ℕ)
        → chain_layout.kind p ≡ suc (suc n)
        → is_present (chain.mem p i) ≡ true
        → ((p ≡ 512) × (i ≡ 0))
          ⊎ (((p ≡ 513) × (i ≡ 0)) ⊎ (((p ≡ 514) × (i ≡ 2)) ⊎ ((p ≡ 515) × (i ≡ 1))))
        → Down p i n
    at p i n k b (inl (x, y)) =
        subst₂ (λ p' i'. Down p' i' n) (sym x) (sym y)
          (omega (arith, ap chain_layout.kind x, k), refl)
    at p i n k b (inr (inl (x, y))) =
        subst₂ (λ p' i'. Down p' i' n) (sym x) (sym y)
          (omega (arith, ap chain_layout.kind x, k), refl)
    at p i n k b (inr (inr (inl (x, y)))) =
        subst₂ (λ p' i'. Down p' i' n) (sym x) (sym y)
          (omega (arith, ap chain_layout.kind x, k), refl)
    at p i n k b (inr (inr (inr (x, y)))) = absurd (omega (arith, ap chain_layout.kind x, k))

    used :
        (p : ℕ) → (p ≡ 512) ⊎ ((p ≡ 513) ⊎ ((p ≡ 514) ⊎ (p ≡ 515))) → bm_test booted.bitmap p ≡ true
    used p (inl e) = subst (λ q. bm_test booted.bitmap q ≡ true) (sym e) page_512_used
    used p (inr (inl e)) = subst (λ q. bm_test booted.bitmap q ≡ true) (sym e) page_513_used
    used p (inr (inr (inl e))) = subst (λ q. bm_test booted.bitmap q ≡ true) (sym e) page_514_used
    used p (inr (inr (inr e))) = subst (λ q. bm_test booted.bitmap q ≡ true) (sym e) page_515_used

chain-IsSmall : IsSmall 3 chain 512 addr
chain-IsSmall = (refl, λ _. (refl, λ _. (refl, λ _. tt)))

mapped_at : vmm_get_phys chain 512 addr ≡ 0x25_8234
unfolding vmm_get_phys vmm_walk walk_from phys_at
mapped_at = refl

vmm_get_phys-vmm_unmap_page_example :
    (vmm_get_phys (vmm_unmap_page chain 512 addr) 512 addr ≡ 0)
    × ((w : ℕ)
        → page_number w ≢ page_number addr
        → vmm_get_phys (vmm_unmap_page chain 512 addr) 512 w ≡ vmm_get_phys chain 512 w)
vmm_get_phys-vmm_unmap_page_example =
    vmm_get_phys-vmm_unmap_page chain chain_layout 512 addr chain-IsTree refl chain-IsSmall

-- A tree of three tables, with a page of 2 MiB at `addr`.
abbrev with_huge : Vm
with_huge = record {
  mem = λ p i.
      if (p == 512) && (i == 0)
      then 513 * 2 ^ 12 + 7
      else if (p == 513) && (i == 0)
      then 514 * 2 ^ 12 + 7
      else if (p == 514) && (i == 2)
      then 0x40_0000 + 2 ^ 7 + 1
      else 0;
  pmm = booted;
}

with_huge-IsTree : IsTree with_huge chain_layout
with_huge-IsTree = record {
  down = λ p i n k a b. at p i n k (entries p i a b);
  in_use = chain-IsTree.in_use;
  pages = booted-IsValid;
}
  where
    entries :
        (p i : ℕ)
        → is_huge (with_huge.mem p i) ≡ false
        → is_present (with_huge.mem p i) ≡ true
        → ((p ≡ 512) × (i ≡ 0)) ⊎ ((p ≡ 513) × (i ≡ 0))
    entries p i a b = ground (arith, a, b)

    Down : (p i n : ℕ) → Type 0
    Down p i n =
        (chain_layout.kind (page_of (with_huge.mem p i)) ≡ suc n)
        × (chain_layout.owner (page_of (with_huge.mem p i)) ≡ (p, i))

    at :
        (p i n : ℕ)
        → chain_layout.kind p ≡ suc (suc n)
        → ((p ≡ 512) × (i ≡ 0)) ⊎ ((p ≡ 513) × (i ≡ 0))
        → Down p i n
    at p i n k (inl (x, y)) =
        subst₂ (λ p' i'. Down p' i' n) (sym x) (sym y)
          (omega (arith, ap chain_layout.kind x, k), refl)
    at p i n k (inr (x, y)) =
        subst₂ (λ p' i'. Down p' i' n) (sym x) (sym y)
          (omega (arith, ap chain_layout.kind x, k), refl)

at_huge : (vmm_walk with_huge 512 addr false).0 ≡ some (514, 2)
unfolding vmm_walk walk_from
at_huge = refl

vmm_get_phys-vmm_map_page_huge_example :
    vmm_get_phys (vmm_map_page with_huge 512 addr 0x25_8000 user_flags) 512 0x40_5678
    ≡ phys_at
        (vmm_map_page with_huge 512 addr 0x25_8000 user_flags)
        (some (page_of 0x25_8000, index 0x40_5678 0))
        0x40_5678
vmm_get_phys-vmm_map_page_huge_example =
    vmm_get_phys-vmm_map_page_huge with_huge chain_layout 512 addr 0x40_5678 514 2 0x25_8000
      user_flags with_huge-IsTree refl refl at_huge (omega arith) (omega arith) (omega arith)

bm_test-vmm_destroy_ctx_example :
    ((vmm_create_ctx empty 512).0 ≢ none)
    × (bm_test (destroyed (vmm_create_ctx empty 512)).pmm.bitmap 600 ≡ bm_test booted.bitmap 600)
bm_test-vmm_destroy_ctx_example = bm_test-vmm_destroy_ctx empty 512 600 (has_room 2 (omega arith))

vmm_get_phys-vmm_create_ctx_example :
    (c : VmmCtx) × ((vmm_create_ctx empty 512).0 ≡ some c)
    × (vmm_get_phys (vmm_create_ctx empty 512).1 c.root addr
        ≡ (if leb (2 ^ 47) (addr % 2 ^ 48) then vmm_get_phys empty 512 addr else 0))
vmm_get_phys-vmm_create_ctx_example =
    vmm_get_phys-vmm_create_ctx empty only_root 512 addr empty-IsTree refl
      (has_room 2 (omega arith))
