-- ===== src/Kernel/Vmm/Frame.antt =====
-- Writes that leave a walk as it is.
use aev_os.Common.{
  ℕ, zero, suc, ◌≤◌, ◌≡◌, refl, sym, ap, ◌∙◌, true, false, Option, none, some, arith,
}
use aev_os.Kernel.Vmm.{Vm, is_present, is_huge, page_of, index, walk_from, phys_at}
use aev_os.Kernel.Vmm.Tree.{
  Layout, IsTree, IsSmall, final, huge, missing, below, round, final_huge, final_missing,
  final_below,
}

pub some-injective : {A : Type 0} {a b : A} → some a ≡ some b → a ≡ b
some-injective {A} {a} e = ap (λ o. elim o [ none ↦ a | some x ↦ x ]) e

-- The entry of a round decides it.
pub final-same :
    (n : ℕ) (s s' : Vm) (p v : ℕ)
    → s'.mem p (index v (suc n)) ≡ s.mem p (index v (suc n))
    → (is_huge (s.mem p (index v (suc n))) ≡ false
        → is_present (s.mem p (index v (suc n))) ≡ true
        → final n s' (page_of (s.mem p (index v (suc n)))) v
          ≡ final n s (page_of (s.mem p (index v (suc n)))) v)
    → final (suc n) s' p v ≡ final (suc n) s p v
final-same n s s' p v e h = elim (round (s.mem p (index v (suc n)))) [
  | huge a ↦ final_huge n s' p v (cc (a, e)) ∙ sym (final_huge n s p v a)
  | missing a b ↦ final_missing n s' p v (cc (a, e)) (cc (b, e)) ∙ sym (final_missing n s p v a b)
  | below a b ↦
      final_below n s' p v (cc (a, e)) (cc (b, e))
      ∙ ap (λ (x : ℕ). final n s' (page_of x) v) e
      ∙ h a b
      ∙ sym (final_below n s p v a b)
]

-- No table of the levels above the last is written.
pub final_frame :
    (s s' : Vm) (l : Layout)
    → IsTree s l
    → ((q i : ℕ) → 2 ≤ l.kind q → s'.mem q i ≡ s.mem q i)
    → (n p v : ℕ) → l.kind p ≡ suc n
    → final n s' p v ≡ final n s p v
unfolding walk_from
final_frame s s' l t h zero p v k = refl
final_frame s s' l t h (suc n) p v k =
    final-same n s s' p v (h p (index v (suc n)) (omega (arith, k)))
      (λ a e. final_frame s s' l t h n _ v (t.down p (index v (suc n)) n k a e).0)

-- where a walk ends, and what is read there
pub get-phys_at :
    (s s' : Vm) (f : Option (ℕ × ℕ)) (v : ℕ)
    → ((q i : ℕ) → f ≡ some (q, i) → s'.mem q i ≡ s.mem q i)
    → phys_at s' f v ≡ phys_at s f v
unfolding phys_at
get-phys_at s s' none v h = refl
get-phys_at s s' (some (q, i)) v h = rw (h q i refl) refl

-- A walk that meets no huge page ends in a table of the last level, at the address's index.
pub record Ends (l : Layout) (v q i : ℕ) : Type 0 where
  pub last : l.kind q ≡ 1
  pub at : i ≡ index v 0

pub final-Ends :
    (s : Vm) (l : Layout)
    → IsTree s l
    → (n p v q i : ℕ) → l.kind p ≡ suc n
    → IsSmall n s p v
    → final n s p v ≡ some (q, i)
    → Ends l v q i
unfolding walk_from
final-Ends s l t zero p v q i k m f =
    let g = some-injective f in
    record { last = ap l.kind (sym (ap (λ x. x.0) g)) ∙ k; at = sym (ap (λ x. x.1) g) }
final-Ends s l t (suc n) p v q i k (a, m) f = elim (round (s.mem p (index v (suc n)))) [
  | huge b ↦ absurd (cc (a, b))
  | missing b c ↦ absurd (cc (f, final_missing n s p v b c))
  | below b c ↦
      final-Ends s l t n _ v q i (t.down p (index v (suc n)) n k b c).0 (m c)
        (sym (final_below n s p v b c) ∙ f)
]
