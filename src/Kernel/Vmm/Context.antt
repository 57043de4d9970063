-- ===== src/Kernel/Vmm/Context.antt =====
-- src/kernel/mm/vmm.c, as it is compiled for x86_64: the kernel's page tables and the contexts of
-- agents.
use aev_os.Common.{
  ℕ, zero, suc, ◌+◌, ◌-◌, ◌*◌, ◌/◌, ◌%◌, ◌^◌, not, ◌&&◌, Option, none, some, leb, ltb, ◌==◌,
  if◌then◌else◌,
}
use aev_os.Common.Masks.{mask_or}
use aev_os.Kernel.Pmm.{Pmm, page_size, pmm_alloc_page, pmm_free_page}
use aev_os.Kernel.Vmm.{Vm, store, alloc_table, is_present, is_huge, page_of, table_entry, index}

-- an entry of the table in page `p`, with a table if it has none; alloc_table may fail
abbrev pub with_entry : Vm → ℕ → ℕ → Vm
with_entry s p i =
    let a = alloc_table s in if is_present (s.mem p i) then s else store a.1 p i (table_entry a.0)

-- one round of `map_huge_range`, at `phys`
unfoldable pub map_huge : Vm → ℕ → ℕ → ℕ → ℕ → Vm
map_huge s root vaddr phys flags =
    let s1 = with_entry s root (index vaddr 3) in
    let pdpt = page_of (s1.mem root (index vaddr 3)) in
    let s2 = with_entry s1 pdpt (index vaddr 2) in
    let pd = page_of (s2.mem pdpt (index vaddr 2)) in
    store s2 pd (index vaddr 1) (mask_or 64 (mask_or 64 phys flags) (2 ^ 7))

-- the rounds that are left, from `phys` on
unfoldable pub map_huge_from : ℕ → Vm → ℕ → ℕ → ℕ → ℕ → ℕ → Vm
unfolding map_huge
map_huge_from zero s root vbase pbase phys flags = s
map_huge_from (suc n) s root vbase pbase phys flags =
    map_huge_from n (map_huge s root ((vbase + (phys - pbase)) % 2 ^ 64) phys flags) root vbase
      pbase (phys + 2 ^ 21) flags

-- `end`, and a `phys` above it, are below 2 ^ 64.
unfoldable pub map_huge_range : Vm → ℕ → ℕ → ℕ → ℕ → ℕ → Vm
unfolding map_huge_from
map_huge_range s root vbase pbase size flags =
    map_huge_from ((size + 2 ^ 21 - 1) / 2 ^ 21) s root vbase pbase pbase flags

abbrev pub phys_map_base : ℕ
phys_map_base = 0xFFFF800000000000

abbrev pub framebuffer_vbase : ℕ
framebuffer_vbase = 0xFFFF900000000000

abbrev pub pci_mmio64_phys_lo : ℕ
pci_mmio64_phys_lo = 0xC000000000

abbrev pub align_huge : ℕ → ℕ
align_huge x = (x + 2 ^ 21 - 1) % 2 ^ 64 / 2 ^ 21 * 2 ^ 21

-- PTE_PRESENT | PTE_WRITABLE | PTE_GLOBAL, and with PTE_NO_CACHE
abbrev pub kernel_flags : ℕ
kernel_flags = 1 + 2 + 2 ^ 8

abbrev pub device_flags : ℕ
device_flags = 1 + 2 + 2 ^ 4 + 2 ^ 8

-- the framebuffer that the loader found: `base`, and `pitch * height`
unfoldable pub map_framebuffer : Vm → ℕ → ℕ → ℕ → Vm
unfolding map_huge_range
map_framebuffer s root base size =
    let fb_size = align_huge size in
    if base == 0
    then s
    else map_huge_range s root framebuffer_vbase base (if fb_size == 0 then 2 ^ 21 else fb_size)
        device_flags

-- The page of the kernel's root table, and the memory.
unfoldable pub vmm_init : Vm → ℕ → ℕ → ℕ → ℕ × Vm
unfolding map_huge_range map_framebuffer
vmm_init s total_memory fb_base fb_size =
    let a = alloc_table s in
    let root = a.0 / page_size in
    let map_size = align_huge total_memory in
    let mapped = if ltb map_size (2 ^ 32) then 2 ^ 32 else map_size in
    let low = map_huge_range a.1 root 0 0 (2 ^ 32) kernel_flags in
    let direct = map_huge_range low root phys_map_base 0 mapped kernel_flags in
    let device =
      map_huge_range direct root (phys_map_base + pci_mmio64_phys_lo) pci_mmio64_phys_lo (2 ^ 30)
        device_flags in
    (root, map_framebuffer device root fb_base fb_size)

-- A context: the pages of its root table and of its `vmm_ctx_t`.
pub record VmmCtx : Type 0 where
  pub root : ℕ
  pub home : ℕ

-- `new_pml4[i] = kern_pml4[i]` for the indices from 256 on
unfoldable pub share_kernel : Vm → ℕ → ℕ → Vm
share_kernel s new kern = record s {
  mem = λ p i. if (new == p) && (leb 256 i && ltb i 512) then s.mem kern i else s.mem p i;
}

unfoldable pub vmm_create_ctx : Vm → ℕ → Option VmmCtx × Vm
unfolding share_kernel
vmm_create_ctx s kern =
    let a = alloc_table s in
    let shared = share_kernel a.1 (a.0 / page_size) kern in
    let c = pmm_alloc_page shared.pmm in
    if a.0 == 0
    then (none, a.1)
    else if c.0 == 0
    then (none, record shared { pmm = pmm_free_page c.1 a.0 })
    else (
      some (record { root = a.0 / page_size; home = c.0 / page_size }),
      record shared { pmm = c.1 },
    )

-- The rounds and the loops of `vmm_destroy_ctx`, from index `i` on: over a table of the second level
-- from below, of the third, and the root.
unfoldable pub free_pt : ℕ → Pmm → Pmm
free_pt e p = if is_present e && not (is_huge e) then pmm_free_page p (page_of e * page_size) else p

unfoldable pub free_pts : ℕ → (ℕ → ℕ → ℕ) → ℕ → ℕ → Pmm → Pmm
unfolding free_pt
free_pts zero mem pd i p = p
free_pts (suc n) mem pd i p = free_pts n mem pd (i + 1) (free_pt (mem pd i) p)

unfoldable pub free_pd : (ℕ → ℕ → ℕ) → ℕ → Pmm → Pmm
unfolding free_pts
free_pd mem e p =
    if is_present e && not (is_huge e)
    then pmm_free_page (free_pts 512 mem (page_of e) 0 p) (page_of e * page_size)
    else p

unfoldable pub free_pds : ℕ → (ℕ → ℕ → ℕ) → ℕ → ℕ → Pmm → Pmm
unfolding free_pd
free_pds zero mem pdpt i p = p
free_pds (suc n) mem pdpt i p = free_pds n mem pdpt (i + 1) (free_pd mem (mem pdpt i) p)

unfoldable pub free_pdpt : (ℕ → ℕ → ℕ) → ℕ → Pmm → Pmm
unfolding free_pds
free_pdpt mem e p =
    if is_present e
    then pmm_free_page (free_pds 512 mem (page_of e) 0 p) (page_of e * page_size)
    else p

unfoldable pub free_pdpts : ℕ → (ℕ → ℕ → ℕ) → ℕ → ℕ → Pmm → Pmm
unfolding free_pdpt
free_pdpts zero mem pml4 i p = p
free_pdpts (suc n) mem pml4 i p = free_pdpts n mem pml4 (i + 1) (free_pdpt mem (mem pml4 i) p)

-- of a context that is not the kernel's
unfoldable pub vmm_destroy_ctx : Vm → VmmCtx → Vm
unfolding free_pdpts
vmm_destroy_ctx s c =
    let tables = free_pdpts 256 s.mem c.root 0 s.pmm in
    record s {
      pmm = pmm_free_page (pmm_free_page tables (c.root * page_size)) (c.home * page_size);
    }
