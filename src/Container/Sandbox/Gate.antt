-- ===== src/Container/Sandbox/Gate.antt =====
-- The gate under a policy.
use aev_os.Common.{ℕ, ◌+◌, ◌≡◌, ◌⊎◌, refl, true, false, arith, Bool-cases, inl, inr}
use aev_os.Common.Bits.{test_bit}
use aev_os.Container.Ifc.{
  Policy, dom_container, dom_host, op_read, op_write, flow_allowed, ifc_revoke,
}
use aev_os.Container.Ifc.Flow.{flow_allowed-ifc_revoke}
use aev_os.Container.Sandbox.{docker, syscall_gate}

-- Once read or write from containers to the host is revoked, the gate lets no system call of a
-- container with the docker profile pass.
pub syscall_gate-ifc_revoke :
    (p : Policy) (ops nr : ℕ)
    → (test_bit ops 0 ≡ true) ⊎ (test_bit ops 1 ≡ true)
    → syscall_gate (ifc_revoke p dom_container dom_host ops) docker dom_container nr ≡ false
unfolding syscall_gate test_bit
syscall_gate-ifc_revoke p ops nr bits =
    let p' = ifc_revoke p dom_container dom_host ops in
    let io = op_read + op_write in
    elim (Bool-cases (flow_allowed p' dom_container dom_host io)) [
      | inr e ↦ ground (arith, e)
      | inl e ↦
          let kept =
            (flow_allowed-ifc_revoke p dom_container dom_host ops dom_container dom_host io
                (omega arith) (omega arith) (omega arith) (omega arith) (omega arith)).0
              e in
          elim bits [
            | inl b ↦ absurd (ground (arith, (kept 0 refl).0, b))
            | inr b ↦ absurd (ground (arith, (kept 1 refl).0, b))
          ]
    ]
