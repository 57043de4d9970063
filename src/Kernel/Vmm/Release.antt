-- ===== src/Kernel/Vmm/Release.antt =====
-- Contexts that are made and given back.
use aev_os.Common.{
  ℕ, zero, suc, ◌+◌, ◌*◌, ◌/◌, ◌<◌, ◌≤◌, ◌≡◌, ◌≢◌, refl, sym, ap, ap₂, ◌∙◌, inl, inr, false, Option,
  none, some, ◌==◌, arith, ℕ_discrete,
}
use aev_os.Kernel.Pmm.{Pmm, bm_test, page_size, pmm_alloc_page, pmm_free_page}
use aev_os.Kernel.Pmm.Inv.{IsValid}
use aev_os.Kernel.Pmm.Alloc.{
  TakesPage, pmm_alloc_page_lem, pmm_alloc_page-IsValid, total-pmm_alloc_page,
}
use aev_os.Kernel.Pmm.Free.{pmm_free_page-IsValid, total-pmm_free_page, bm_test-pmm_free_page}
use aev_os.Kernel.Vmm.{Vm, zero_page, alloc_table}
use aev_os.Kernel.Vmm.Frame.{some-injective}
use aev_os.Kernel.Vmm.Room.{HasRoom, alloc_room}
use aev_os.Kernel.Vmm.Context.{
  VmmCtx, share_kernel, vmm_create_ctx, free_pdpt, free_pdpts, vmm_destroy_ctx,
}

-- With room, a page is taken.
pub taken : (n : ℕ) (p : Pmm) → HasRoom (suc n) p → TakesPage p (pmm_alloc_page p)
taken n p h = elim (pmm_alloc_page_lem h.valid) [
  | inl (full, e) ↦ absurd (omega (arith, ap (λ r. r.0) e, (alloc_room n p h).0))
  | inr t ↦ t
]

-- Two pages that are taken are given back in the order in which they were taken.
two_back :
    (p : Pmm) (a b : ℕ × Pmm)
    → IsValid p
    → IsValid a.1
    → IsValid b.1
    → a.1.total_pages ≡ p.total_pages
    → b.1.total_pages ≡ p.total_pages
    → TakesPage p a
    → TakesPage a.1 b
    → (q : ℕ)
    → bm_test
        (pmm_free_page
          (pmm_free_page b.1 (a.0 / page_size * page_size))
          (b.0 / page_size * page_size)).bitmap
        q
      ≡ bm_test p.bitmap q
two_back p a b v va vb ta tb x y q =
    let u = pmm_free_page b.1 (a.0 / page_size * page_size) in
    let vu = pmm_free_page-IsValid (a.0 / page_size * page_size) vb in
    let pa : a.0 / page_size * page_size / page_size ≡ x.page = omega (arith, x.address) in
    let pb : b.0 / page_size * page_size / page_size ≡ y.page = omega (arith, y.address) in
    let one =
      bm_test-pmm_free_page (a.0 / page_size * page_size) q vb (omega (arith, pa, x.inside, tb)) in
    let two = bm_test-pmm_free_page (b.0 / page_size * page_size) q vu (
      omega (arith, pb, y.inside, ta, tb, total-pmm_free_page b.1 (a.0 / page_size * page_size))) in
    let was : bm_test a.1.bitmap y.page ≡ bm_test p.bitmap y.page =
      ground (arith, x.marks y.page, y.free) in
    two ∙ (elim (ℕ_discrete y.page q) [
      | yes e ↦
          let z : bm_test p.bitmap q ≡ false = ap (bm_test p.bitmap) (sym e) ∙ sym was ∙ y.free in
          ground (arith, pb, e, z)
      | no d ↦ elim (ℕ_discrete x.page q) [
        | yes e ↦
            let z : bm_test p.bitmap q ≡ false = ap (bm_test p.bitmap) (sym e) ∙ x.free in
            ground (arith, pb, d, pa, e, one, z)
        | no f ↦ ground (arith, pb, d, pa, f, one, y.marks q, x.marks q)
      ]
    ])

-- No entry of the user's half of a root table is in use.
free_pdpts_blank :
    (n : ℕ) (mem : ℕ → ℕ → ℕ) (root i : ℕ) (p : Pmm)
    → ((j : ℕ) → j < i + n → mem root j ≡ 0)
    → free_pdpts n mem root i p ≡ p
unfolding free_pdpts free_pdpt
free_pdpts_blank zero mem root i p h = refl
free_pdpts_blank (suc n) mem root i p h =
    ap (λ e. free_pdpts n mem root (i + 1) (free_pdpt mem e p)) (h i (omega arith))
    ∙ free_pdpts_blank n mem root (i + 1) p (λ j k. h j (omega (arith, k)))

-- What vmm_create_ctx does with room for two pages: the second is taken behind the first.
pub record Makes (s : Vm) (kern : ℕ) (r : Option VmmCtx × Vm) : Type 0 where
  pub made : VmmCtx
  pub result : r.0 ≡ some made
  pub root : made.root ≡ (pmm_alloc_page s.pmm).0 / page_size
  pub home : made.home ≡ (pmm_alloc_page (pmm_alloc_page s.pmm).1).0 / page_size
  pub pmm : r.1.pmm ≡ (pmm_alloc_page (pmm_alloc_page s.pmm).1).1
  pub user : (i : ℕ) → i < 256 → r.1.mem made.root i ≡ 0
  pub kernel : (i : ℕ) → 256 ≤ i → i < 512 → kern ≢ made.root → r.1.mem made.root i ≡ s.mem kern i
  pub rest : (p i : ℕ) → p ≢ made.root → r.1.mem p i ≡ s.mem p i

pub vmm_create_ctx-Makes :
    (s : Vm) (kern : ℕ) → HasRoom 2 s.pmm → Makes s kern (vmm_create_ctx s kern)
unfolding vmm_create_ctx share_kernel alloc_table zero_page
vmm_create_ctx-Makes s kern h =
    let a = alloc_room 1 s.pmm h in
    let b = alloc_room 0 (pmm_alloc_page s.pmm).1 a.1 in
    let za : ((pmm_alloc_page s.pmm).0 == 0) ≡ false = ground (arith, a.0) in
    let zb : ((pmm_alloc_page (pmm_alloc_page s.pmm).1).0 == 0) ≡ false = ground (arith, b.0) in
    rw (za, vmm_create_ctx)
      (rw zb (
        rw za (record {
          made = record {
            root = (pmm_alloc_page s.pmm).0 / page_size;
            home = (pmm_alloc_page (pmm_alloc_page s.pmm).1).0 / page_size;
          };
          result = refl;
          root = refl;
          home = refl;
          pmm = refl;
          user = λ i k. ground (arith, k);
          kernel = λ i lo hi ne. ground (arith, lo, hi, ne);
          rest = λ p i ne. ground (arith, ne);
        })))

-- the memory behind vmm_destroy_ctx of a context, where there is one
abbrev pub destroyed : Option VmmCtx × Vm → Vm
destroyed (none, s) = s
destroyed (some c, s) = vmm_destroy_ctx s c

destroyed_some :
    (r : Option VmmCtx × Vm) (c : VmmCtx) → r.0 ≡ some c → destroyed r ≡ vmm_destroy_ctx r.1 c
destroyed_some (none, s) c e = absurd (cc e)
destroyed_some (some d, s) c e = ap (vmm_destroy_ctx s) (some-injective e)

-- what the two frees do, at the pages that were taken
freed : Pmm → ℕ → ℕ → Pmm
freed p root home = pmm_free_page (pmm_free_page p (root * page_size)) (home * page_size)

Makes-destroyed :
    (s : Vm) (kern : ℕ) (r : Option VmmCtx × Vm)
    → Makes s kern r
    → let a = pmm_alloc_page s.pmm in
      let b = pmm_alloc_page a.1 in
      (destroyed r).pmm ≡ freed b.1 (a.0 / page_size) (b.0 / page_size)
unfolding vmm_destroy_ctx freed
Makes-destroyed s kern r m =
    let clear =
      free_pdpts_blank 256 r.1.mem m.made.root 0 r.1.pmm (λ j k. m.user j (omega (arith, k))) in
    ap (λ x. x.pmm) (destroyed_some r m.made m.result)
    ∙ ap (λ p. freed p m.made.root m.made.home) (clear ∙ m.pmm)
    ∙ ap₂ (freed (pmm_alloc_page (pmm_alloc_page s.pmm).1).1) m.root m.home

-- With two free pages (page 0 not among them), vmm_create_ctx makes a context, and vmm_destroy_ctx
-- of it at once gives back what it took: every page is in use exactly if it was before.
pub bm_test-vmm_destroy_ctx :
    (s : Vm) (kern q : ℕ)
    → HasRoom 2 s.pmm
    → ((vmm_create_ctx s kern).0 ≢ none)
      × (bm_test (destroyed (vmm_create_ctx s kern)).pmm.bitmap q ≡ bm_test s.pmm.bitmap q)
unfolding freed
bm_test-vmm_destroy_ctx s kern q h =
    let m = vmm_create_ctx-Makes s kern h in
    let h1 = (alloc_room 1 s.pmm h).1 in
    let a = pmm_alloc_page s.pmm in
    let b = pmm_alloc_page a.1 in
    (
      λ e. cc (e, m.result),
      ap (λ p. bm_test p.bitmap q) (Makes-destroyed s kern (vmm_create_ctx s kern) m)
          ∙ two_back s.pmm a b h.valid h1.valid (pmm_alloc_page-IsValid h1.valid)
              (total-pmm_alloc_page s.pmm) (total-pmm_alloc_page a.1 ∙ total-pmm_alloc_page s.pmm)
              (taken 1 s.pmm h) (taken 0 a.1 h1) q,
    )
