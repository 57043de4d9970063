-- ===== src/Kernel/Vmm.antt =====
-- src/kernel/mm/vmm.c, as it is compiled for x86_64: the page tables of four levels.
-- Memory is the words of 8 bytes of each physical page, by the page's number and the word's index;
-- `ptov` gives every physical address its own pointer, and is left out. A context is the page of its
-- root table. Of the masks, PTE_ADDR_MASK is the bits 12 to 51, and `|` of words without a common bit
-- is written as a sum. Null arguments and the flushes of the TLB are left out.
pub mod Tree
pub mod Frame
pub mod Grow
pub mod Alloc
pub mod Created
pub mod Create
pub mod Map
pub mod Huge
pub mod Context
pub mod Release
pub mod Share
pub mod Room
pub mod Translate
mod Tests
use aev_os.Common.{
  ℕ, zero, suc, ◌+◌, ◌-◌, ◌*◌, ◌/◌, ◌%◌, ◌^◌, max, Bool, true, false, not, ◌&&◌, ◌||◌, Option, none,
  some, ltb, ◌==◌, if◌then◌else◌,
}
use aev_os.Common.Masks.{mask_or}
use aev_os.Kernel.Pmm.{Pmm, page_size, pmm_alloc_page, pmm_free_page}

pub record Vm : Type 0 where
  pub mem : ℕ → ℕ → ℕ
  pub pmm : Pmm

-- `table[i] = v` of the table in page `p`
abbrev pub store : Vm → ℕ → ℕ → ℕ → Vm
store s p i v = record s { mem = λ q j. if (p == q) && (i == j) then v else s.mem q j }

unfoldable pub zero_page : Vm → ℕ → Vm
zero_page s p = record s { mem = λ q j. if p == q then 0 else s.mem q j }

-- The address of the table, or 0.
unfoldable pub alloc_table : Vm → ℕ × Vm
unfolding zero_page
alloc_table s =
    let r = pmm_alloc_page s.pmm in
    let t = record s { pmm = r.1 } in
    if r.0 == 0 then (0, t) else (r.0, zero_page t (r.0 / page_size))

-- `entry & PTE_PRESENT` and `entry & PTE_HUGE`
abbrev pub is_present : ℕ → Bool
is_present e = e % 2 == 1

abbrev pub is_huge : ℕ → Bool
is_huge e = e / 2 ^ 7 % 2 == 1

-- the page of `entry & PTE_ADDR_MASK`
abbrev pub page_of : ℕ → ℕ
page_of e = e / 2 ^ 12 % 2 ^ 40

-- `t | PTE_PRESENT | PTE_WRITABLE | PTE_USER` of the address of a page
abbrev pub table_entry : ℕ → ℕ
table_entry t = t + 7

-- PT_INDEX, PD_INDEX, PDPT_INDEX and PML4_INDEX, by the levels below the table
abbrev pub index : ℕ → ℕ → ℕ
index vaddr zero = vaddr / 2 ^ 12 % 2 ^ 9
index vaddr (suc zero) = vaddr / 2 ^ 21 % 2 ^ 9
index vaddr (suc (suc zero)) = vaddr / 2 ^ 30 % 2 ^ 9
index vaddr (suc (suc (suc n))) = vaddr / 2 ^ 39 % 2 ^ 9

-- The loop of `vmm_walk` at the table in page `p`, with the rounds left: the table and the index of
-- the final entry, if there is one.
unfoldable pub walk_from : ℕ → Vm → ℕ → ℕ → Bool → Option (ℕ × ℕ) × Vm
unfolding alloc_table
walk_from zero s p vaddr create = (some (p, index vaddr 0), s)
walk_from (suc n) s p vaddr create =
    let i = index vaddr (suc n) in
    let entry = s.mem p i in
    let a = alloc_table s in
    let down = walk_from n s (page_of entry) vaddr create in
    let grown : Vm = store a.1 p i (table_entry a.0) in
    let fresh = walk_from n grown (page_of (grown.mem p i)) vaddr create in
    if is_huge entry
    then (some (p, i), s)
    else if is_present entry
    then down
    else if not create
    then (none, s)
    else if a.0 == 0
    then (none, a.1)
    else fresh

unfoldable pub vmm_walk : Vm → ℕ → ℕ → Bool → Option (ℕ × ℕ) × Vm
unfolding walk_from
vmm_walk s root vaddr create = walk_from 3 s root vaddr create

-- `(paddr & PTE_ADDR_MASK) | (flags & ~PTE_ADDR_MASK)`, of 64 bits
abbrev pub page_entry : ℕ → ℕ → ℕ
page_entry paddr flags =
    page_of paddr * 2 ^ 12 + (flags % 2 ^ 12 + flags / 2 ^ 52 % 2 ^ 12 * 2 ^ 52)

unfoldable pub map_at : Option (ℕ × ℕ) × Vm → ℕ → Vm
map_at (none, s) e = s
map_at (some (p, i), s) e = store s p i e

unfoldable pub vmm_map_page : Vm → ℕ → ℕ → ℕ → ℕ → Vm
unfolding vmm_walk map_at
vmm_map_page s root vaddr paddr flags = map_at (vmm_walk s root vaddr true) (page_entry paddr flags)

unfoldable pub unmap_at : Option (ℕ × ℕ) → Vm → Vm
unmap_at none s = s
unmap_at (some (p, i)) s = if is_present (s.mem p i) then store s p i 0 else s

unfoldable pub vmm_unmap_page : Vm → ℕ → ℕ → Vm
unfolding vmm_walk unmap_at
vmm_unmap_page s root vaddr = unmap_at (vmm_walk s root vaddr false).0 s

-- `vmm_get_phys` with the final entry
unfoldable pub phys_at : Vm → Option (ℕ × ℕ) → ℕ → ℕ
phys_at s none vaddr = 0
phys_at s (some (p, i)) vaddr =
    let pte = s.mem p i in
    if not (is_present pte)
    then 0
    else if is_huge pte
    then mask_or 64 (page_of pte * 2 ^ 12) (vaddr % 2 ^ 21)
    else page_of pte * 2 ^ 12 + vaddr % 2 ^ 12

unfoldable pub vmm_get_phys : Vm → ℕ → ℕ → ℕ
unfolding vmm_walk phys_at
vmm_get_phys s root vaddr = phys_at s (vmm_walk s root vaddr false).0 vaddr
