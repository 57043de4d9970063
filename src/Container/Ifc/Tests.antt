-- ===== src/Container/Ifc/Tests.antt =====
-- The theorems on the policy at the policy of `lc_ifc_init`.
use aev_os.Common.{◌≡◌, false, [], ◌∷◌, arith}
use aev_os.Container.Ifc.{
  dom_container, dom_skill, dom_llm, ifc_init, flow_allowed, change_grant, change_revoke, changes,
}
use aev_os.Container.Ifc.Boundary.{flow_allowed-changes}

flow_allowed-changes_example :
    flow_allowed
      (changes ifc_init
        (change_grant dom_skill dom_llm 7 ∷ change_revoke dom_container dom_llm 1 ∷ []))
      dom_container
      dom_llm
      1
    ≡ false
flow_allowed-changes_example =
    flow_allowed-changes
      (change_grant dom_skill dom_llm 7 ∷ change_revoke dom_container dom_llm 1 ∷ []) 1
      (λ e. absurd (omega arith), (tt, tt)) (omega arith)
