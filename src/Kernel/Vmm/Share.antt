-- ===== src/Kernel/Vmm/Share.antt =====
-- The translations of a new context.
use aev_os.Common.{
  ℕ, zero, suc, ◌%◌, ◌^◌, ◌<◌, ◌≡◌, ◌≢◌, refl, sym, ap, ◌∙◌, inl, inr, false, none, some, leb,
  arith, if◌then◌else◌, Bool-cases, ℕ_discrete,
}
use aev_os.Kernel.Pmm.{bm_test}
use aev_os.Kernel.Vmm.{
  Vm, is_present, is_huge, page_of, index, walk_from, vmm_walk, phys_at, vmm_get_phys,
}
use aev_os.Kernel.Vmm.Tree.{
  Layout, IsTree, final, get, huge, missing, below, round, final_huge, final_missing, final_below,
}
use aev_os.Kernel.Vmm.Frame.{final_frame, get-phys_at, some-injective}
use aev_os.Kernel.Vmm.Room.{HasRoom}
use aev_os.Kernel.Vmm.Context.{VmmCtx, vmm_create_ctx}
use aev_os.Kernel.Vmm.Release.{vmm_create_ctx-Makes, taken}

module _ (s : Vm) (l : Layout) (t : IsTree s l) where
  -- A walk ends in a table.
  final_table : (n p v q i : ℕ) → l.kind p ≡ suc n → final n s p v ≡ some (q, i) → 0 < l.kind q
  unfolding walk_from
  final_table zero p v q i k f =
      let e = ap (λ x. x.0) (some-injective f) in omega (arith, k, ap l.kind e)
  final_table (suc n) p v q i k f = elim (round (s.mem p (index v (suc n)))) [
    | huge a ↦
        let e = ap (λ x. x.0) (some-injective (sym (final_huge n s p v a) ∙ f)) in
        omega (arith, k, ap l.kind e)
    | missing a b ↦ absurd (cc (f, final_missing n s p v a b))
    | below a b ↦
        final_table n (page_of (s.mem p (index v (suc n)))) v q i
          (t.down p (index v (suc n)) n k a b).0 (sym (final_below n s p v a b) ∙ f)
  ]

  -- A change of pages that hold no table changes nothing of what the tables give.
  get_frame :
      (s' : Vm)
      → ((q i : ℕ) → 0 < l.kind q → s'.mem q i ≡ s.mem q i)
      → (n p v : ℕ) → l.kind p ≡ suc n
      → get n s' p v ≡ get n s p v
  get_frame s' h n p v k =
      ap (λ o. phys_at s' o v) (final_frame s s' l t (λ q i z. h q i (omega arith)) n p v k)
      ∙ get-phys_at s s' (final n s p v) v (λ q i f. h q i (final_table n p v q i k f))

phys_at_entry :
    (s s' : Vm) (p q i v : ℕ)
    → s'.mem p i ≡ s.mem q i
    → phys_at s' (some (p, i)) v ≡ phys_at s (some (q, i)) v
unfolding phys_at
phys_at_entry s s' p q i v e = rw e refl

-- A root with the entry of another root.
get_shared :
    (s s' : Vm) (l : Layout) (root kern v : ℕ)
    → IsTree s l
    → l.kind kern ≡ 4
    → ((q i : ℕ) → 0 < l.kind q → s'.mem q i ≡ s.mem q i)
    → s'.mem root (index v 3) ≡ s.mem kern (index v 3)
    → get 3 s' root v ≡ get 3 s kern v
get_shared s s' l root kern v t k h e = elim (round (s.mem kern (index v 3))) [
  | huge a ↦
      ap (λ o. phys_at s' o v) (final_huge 2 s' root v (ap is_huge e ∙ a))
      ∙ phys_at_entry s s' root kern (index v 3) v e
      ∙ sym (ap (λ o. phys_at s o v) (final_huge 2 s kern v a))
  | missing a b ↦
      ap (λ o. phys_at s' o v) (final_missing 2 s' root v (ap is_huge e ∙ a) (ap is_present e ∙ b))
      ∙ nothing s s' v
      ∙ sym (ap (λ o. phys_at s o v) (final_missing 2 s kern v a b))
  | below a b ↦
      ap (λ o. phys_at s' o v) (final_below 2 s' root v (ap is_huge e ∙ a) (ap is_present e ∙ b))
      ∙ ap (λ (x : ℕ). get 2 s' (page_of x) v) e
      ∙ get_frame s l t s' h 2 (page_of (s.mem kern (index v 3))) v
          (t.down kern (index v 3) 2 k a b).0
      ∙ sym (ap (λ o. phys_at s o v) (final_below 2 s kern v a b))
]
  where
    nothing : (s s' : Vm) (v : ℕ) → phys_at s' none v ≡ phys_at s none v
    nothing s s' v = unfold phys_at in refl

get_zero : (s : Vm) (root v : ℕ) → s.mem root (index v 3) ≡ 0 → get 3 s root v ≡ 0
unfolding phys_at
get_zero s root v e =
    ap (λ o. phys_at s o v) (final_missing 2 s root v (ap is_huge e) (ap is_present e))

not_table :
    (s : Vm) (l : Layout) (p : ℕ) → IsTree s l → bm_test s.pmm.bitmap p ≡ false → l.kind p ≡ 0
not_table s l p t f = elim (ℕ_discrete (l.kind p) 0) [
  | yes e ↦ e
  | no d ↦ absurd (cc (f, t.in_use p (omega (arith, d))))
]

-- In page tables of the kernel that form a tree, with two free pages (page 0 not among them),
-- vmm_create_ctx makes a context whose translations of the kernel's half, the addresses of 48 bits
-- from 2^47 on, are those of the kernel, and which translates no address of the user's half.
pub vmm_get_phys-vmm_create_ctx :
    (s : Vm) (l : Layout) (kern v : ℕ)
    → IsTree s l
    → l.kind kern ≡ 4
    → HasRoom 2 s.pmm
    → (c : VmmCtx) × ((vmm_create_ctx s kern).0 ≡ some c)
      × (vmm_get_phys (vmm_create_ctx s kern).1 c.root v
          ≡ (if leb (2 ^ 47) (v % 2 ^ 48) then vmm_get_phys s kern v else 0))
unfolding vmm_get_phys vmm_walk
vmm_get_phys-vmm_create_ctx s l kern v t k h =
    let m = vmm_create_ctx-Makes s kern h in
    let s' = (vmm_create_ctx s kern).1 in
    let x = taken 1 s.pmm h in
    let page : m.made.root ≡ x.page = omega (arith, m.root, x.address) in
    let fresh = not_table s l x.page t x.free in
    let other : (q : ℕ) → 0 < l.kind q → q ≢ m.made.root =
      λ q z e. omega (arith, z, fresh, ap l.kind (e ∙ page)) in
    let rest : (q i : ℕ) → 0 < l.kind q → s'.mem q i ≡ s.mem q i =
      λ q i z. m.rest q i (other q z) in
    (
      m.made,
      m.result,
      elim (Bool-cases (leb (2 ^ 47) (v % 2 ^ 48))) [
        | inl up ↦
            let e =
              m.kernel (index v 3) (ground (arith, up)) (omega arith)
                (other kern (omega (arith, k))) in
            rw up (get_shared s s' l m.made.root kern v t k rest e)
        | inr low ↦
            let e = m.user (index v 3) (ground (arith, low)) in rw low (get_zero s' m.made.root v e)
      ],
    )
