-- ===== src/Kernel/CapIpc/Slots.antt =====
-- How many slots are left: a slot once used is never free again.
use aev_os.Common.{
  ℕ, suc, ◌+◌, ◌≡◌, ◌≢◌, ◌⊎◌, refl, false, Option, none, some, List, [], ◌∷◌, ◌==◌, arith,
  Bool-cases, inl, inr, if◌then◌else◌,
}
use aev_os.Kernel.CapIpc.{
  EpClass, Endpoint, CapIpc, behind, grant_slot, granted, grant, revoke_slot, revoke,
}
use aev_os.Kernel.CapIpc.Inv.{IsValid}

-- the number of slots without a magic
pub blanks : List Endpoint → ℕ
blanks [] = 0
blanks (e ∷ es) = if e.magic == 0 then suc (blanks es) else blanks es

blanks-revoke_slot : (tok : ℕ) (es : List Endpoint) → blanks (revoke_slot tok es) ≡ blanks es
unfolding blanks revoke_slot
blanks-revoke_slot tok [] = refl
blanks-revoke_slot tok (e ∷ es) = ground (arith, blanks-revoke_slot tok es)

-- A grant takes a blank slot, and fails for want of one.
abbrev Takes : ℕ → Option (List Endpoint) → Type 0
Takes n none = n ≡ 0
Takes n (some es) = n ≡ suc (blanks es)

grant_slot-Takes :
    (tok : ℕ) (ep : EpClass) (owner : ℕ) (es : List Endpoint)
    → Takes (blanks es) (grant_slot tok ep owner es)
unfolding grant_slot blanks behind
grant_slot-Takes tok ep owner [] = refl
grant_slot-Takes tok ep owner (e ∷ es) = elim (Bool-cases (e.magic == 0)) [
  | inl z ↦ rw z refl
  | inr z ↦ rw z (go z (grant_slot tok ep owner es) (grant_slot-Takes tok ep owner es))
]
  where
    go :
        (e.magic == 0) ≡ false
        → (r : Option (List Endpoint)) → Takes (blanks es) r
        → Takes (blanks es) (behind e r)
    go z none h = h
    go z (some es') h = rw z h

-- On a valid table, `cap_ipc_grant` returns 0 exactly if no slot is left, and otherwise uses one up;
-- `cap_ipc_revoke` gives none back.
pub blanks-grant :
    (s : CapIpc) (ep : EpClass) (owner tok : ℕ)
    → IsValid s
    → (((grant s ep owner).0 ≡ 0) × (blanks s.eps ≡ 0) × (blanks (grant s ep owner).1.eps ≡ 0)
        ⊎ ((grant s ep owner).0 ≢ 0) × (blanks s.eps ≡ blanks (grant s ep owner).1.eps + 1))
      × (blanks (revoke s tok).eps ≡ blanks s.eps)
unfolding grant granted revoke
blanks-grant s ep owner tok v = (
  go (grant_slot s.next_tok ep owner s.eps) (grant_slot-Takes s.next_tok ep owner s.eps),
  blanks-revoke_slot tok s.eps,
)
  where
    go :
        (r : Option (List Endpoint))
        → Takes (blanks s.eps) r
        → ((granted s r).0 ≡ 0) × (blanks s.eps ≡ 0) × (blanks (granted s r).1.eps ≡ 0)
          ⊎ ((granted s r).0 ≢ 0) × (blanks s.eps ≡ blanks (granted s r).1.eps + 1)
    go none h = inl (refl, h, h)
    go (some es) h = inr ((λ e. absurd (omega (arith, e, v.positive))), omega arith)
