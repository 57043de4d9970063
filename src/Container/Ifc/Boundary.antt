-- ===== src/Container/Ifc/Boundary.antt =====
-- The boundary between containers and the LLM.
use aev_os.Common.{
  ℕ, ◌<◌, ◌≡◌, refl, ap, ap₂, ◌∙◌, false, ◌&&◌, List, [], ◌∷◌, ◌==◌, arith, Bool-cases, inl, inr,
}
use aev_os.Common.Masks.{mask_and, mask_without, mask_and_zero, mask_without_zero}
use aev_os.Container.Ifc.{
  dom_container, dom_llm, Policy, ifc_set, host_row, ifc_init, flow_allowed, ifc_grant, ifc_revoke,
  Change, change_grant, change_revoke, change, changes,
}

-- The change does not grant anything from containers to the LLM.
abbrev pub Spares : Change → Type 0
Spares (change_grant from to ops) = (from ≡ dom_container) → (to ≡ dom_llm) → ⊥
Spares (change_revoke from to ops) = Unit

abbrev pub AllSpare : List Change → Type 0
AllSpare [] = Unit
AllSpare (c ∷ cs) = Spares c × AllSpare cs

-- The cell of flows from containers to the LLM is empty.
abbrev IsShut : Policy → Type 0
IsShut p = p dom_container dom_llm ≡ 0

change-IsShut : (p : Policy) (c : Change) → Spares c → IsShut p → IsShut (change p c)
unfolding change ifc_grant ifc_revoke ifc_set
change-IsShut p (change_grant from to ops) s h =
    let e : ((from == dom_container) && (to == dom_llm)) ≡ false =
      elim (Bool-cases ((from == dom_container) && (to == dom_llm))) [
        | inl z ↦ absurd (s (ground arith) (ground arith))
        | inr z ↦ z
      ] in
    ground (arith, e, h)
change-IsShut p (change_revoke from to ops) s h =
    elim (Bool-cases ((from == dom_container) && (to == dom_llm))) [
      | inl z ↦
          let cell : p from to ≡ 0 =
            ap₂ p (let y : from ≡ dom_container = ground arith in y)
              (let y : to ≡ dom_llm = ground arith in y)
            ∙ h in
          let none : mask_without 32 (p from to) ops ≡ 0 =
            ap (λ (m : ℕ). mask_without 32 m ops) cell ∙ mask_without_zero 32 ops in
          ground (arith, none, h)
      | inr z ↦ ground (arith, h)
    ]

changes-IsShut : (p : Policy) (cs : List Change) → AllSpare cs → IsShut p → IsShut (changes p cs)
unfolding changes
changes-IsShut p [] s h = h
changes-IsShut p (c ∷ cs) (s, ss) h = changes-IsShut (change p c) cs ss (change-IsShut p c s h)

ifc_init-IsShut : IsShut ifc_init
unfolding ifc_init host_row ifc_set
ifc_init-IsShut = refl

-- From lc_ifc_init on, no operation is allowed from containers to the LLM, after any grants and
-- revocations of which none grants something from containers to the LLM.
pub flow_allowed-changes :
    (cs : List Change) (ops : ℕ)
    → AllSpare cs
    → 0 < ops
    → flow_allowed (changes ifc_init cs) dom_container dom_llm ops ≡ false
unfolding flow_allowed
flow_allowed-changes cs ops s pos =
    let shut = changes-IsShut ifc_init cs s ifc_init-IsShut in
    let e : mask_and 32 (changes ifc_init cs dom_container dom_llm) ops ≡ 0 =
      ap (λ (m : ℕ). mask_and 32 m ops) shut ∙ mask_and_zero 32 ops in
    rw e (ground arith)
