-- ===== src/Container/Ifc/Flow.antt =====
-- What a grant and a revocation do to the flows allowed.
use aev_os.Common.{
  ℕ, ◌<◌, ◌^◌, ◌≡◌, ◌↔◌, ◌⊎◌, ap₂, true, false, ◌&&◌, ◌||◌, leb, ◌==◌, arith, Bool-cases, inl, inr,
  if◌then◌else◌,
}
use aev_os.Common.Bits.{test_bit}
use aev_os.Common.Masks.{
  Includes, test_bit-mask_or, test_bit-mask_without, test_bit_small, mask_and-Includes,
  Includes-mask_and,
}
use aev_os.Container.Ifc.{dom_count, Policy, ifc_set, flow_allowed, ifc_grant, ifc_revoke}

-- A flow inside the matrix is allowed exactly if the cell has every bit of the operations.
pub flow_allowed-Includes :
    (p : Policy) (from to ops : ℕ)
    → from < dom_count
    → to < dom_count
    → ops < 2 ^ 32
    → (flow_allowed p from to ops ≡ true) ↔ Includes (p from to) ops
unfolding flow_allowed
flow_allowed-Includes p from to ops hf ht ho =
    let e : (leb dom_count from || leb dom_count to) ≡ false = ground arith in
    rw e (
      (λ h. mask_and-Includes 32 (p from to) ops ho (ground arith)),
      (λ h. ground (arith, Includes-mask_and 32 (p from to) ops ho h)),
    )

bit-ifc_grant :
    (p : Policy) (from to ops a b i : ℕ)
    → from < dom_count
    → to < dom_count
    → i < 32
    → test_bit (ifc_grant p from to ops a b) i
      ≡ (if test_bit (p a b) i then true else ((from == a) && (to == b) && test_bit ops i))
unfolding ifc_grant ifc_set
bit-ifc_grant p from to ops a b i hf ht hi =
    let e : (leb dom_count from || leb dom_count to) ≡ false = ground arith in
    elim (Bool-cases ((from == a) && (to == b))) [
      | inl s ↦
          let cell : p from to ≡ p a b =
            ap₂ p (let z : from ≡ a = ground arith in z) (let z : to ≡ b = ground arith in z) in
          rw (e, s, test_bit-mask_or 32 (p from to) ops i hi, cell) (ground arith)
      | inr s ↦ rw (e, s) (ground arith)
    ]

-- After a grant, a flow is allowed exactly if each of its bits was in its cell or is granted to it.
pub flow_allowed-ifc_grant :
    (p : Policy) (from to ops a b o : ℕ)
    → from < dom_count
    → to < dom_count
    → a < dom_count
    → b < dom_count
    → o < 2 ^ 32
    → (flow_allowed (ifc_grant p from to ops) a b o ≡ true) ↔ (
        (i : ℕ)
        → test_bit o i ≡ true
        → (test_bit (p a b) i ≡ true) ⊎ (from ≡ a) × (to ≡ b) × (test_bit ops i ≡ true))
flow_allowed-ifc_grant p from to ops a b o hf ht ha hb ho =
    let (there, back) = flow_allowed-Includes (ifc_grant p from to ops) a b o ha hb ho in
    let small : (i : ℕ) → test_bit o i ≡ true → i < 32 = λ i t. test_bit_small 32 o i ho t in
    (
      (λ h i t. ground (arith, bit-ifc_grant p from to ops a b i hf ht (small i t), there h i t)),
      (λ h. back (λ i t. elim (h i t) [
        | inl e ↦ ground (arith, bit-ifc_grant p from to ops a b i hf ht (small i t))
        | inr e ↦ ground (arith, bit-ifc_grant p from to ops a b i hf ht (small i t), e.0, e.1, e.2)
      ])),
    )

bit-ifc_revoke :
    (p : Policy) (from to ops a b i : ℕ)
    → from < dom_count
    → to < dom_count
    → i < 32
    → test_bit (ifc_revoke p from to ops a b) i
      ≡ (if (from == a) && (to == b) && test_bit ops i then false else test_bit (p a b) i)
unfolding ifc_revoke ifc_set
bit-ifc_revoke p from to ops a b i hf ht hi =
    let e : (leb dom_count from || leb dom_count to) ≡ false = ground arith in
    elim (Bool-cases ((from == a) && (to == b))) [
      | inl s ↦
          let cell : p from to ≡ p a b =
            ap₂ p (let z : from ≡ a = ground arith in z) (let z : to ≡ b = ground arith in z) in
          rw (e, s, test_bit-mask_without 32 (p from to) ops i hi, cell) (ground arith)
      | inr s ↦ rw (e, s) (ground arith)
    ]

-- After a revocation, a flow is allowed exactly if each of its bits was in its cell and is not revoked
-- from it.
pub flow_allowed-ifc_revoke :
    (p : Policy) (from to ops a b o : ℕ)
    → from < dom_count
    → to < dom_count
    → a < dom_count
    → b < dom_count
    → o < 2 ^ 32
    → (flow_allowed (ifc_revoke p from to ops) a b o ≡ true) ↔ (
        (i : ℕ)
        → test_bit o i ≡ true
        → ((from == a) && (to == b) && test_bit ops i ≡ false) × (test_bit (p a b) i ≡ true))
flow_allowed-ifc_revoke p from to ops a b o hf ht ha hb ho =
    let (there, back) = flow_allowed-Includes (ifc_revoke p from to ops) a b o ha hb ho in
    let small : (i : ℕ) → test_bit o i ≡ true → i < 32 = λ i t. test_bit_small 32 o i ho t in
    (
      (λ h i t. ground (arith, bit-ifc_revoke p from to ops a b i hf ht (small i t), there h i t)),
      (λ h. back (λ i t.
          ground
            (arith, bit-ifc_revoke p from to ops a b i hf ht (small i t), (h i t).0, (h i t).1))),
    )
