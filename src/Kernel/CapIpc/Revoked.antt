-- ===== src/Kernel/CapIpc/Revoked.antt =====
-- What a token is good for: once it is granted, and once it is revoked.
use aev_os.Common.{
  ℕ, ◌+◌, ◌<◌, ◌≤◌, ◌^◌, ◌≡◌, ◌≢◌, refl, sym, true, false, Option, none, some, List, [], ◌∷◌, ◌==◌,
  arith, Bool-cases, inl, inr, length,
}
use aev_os.Common.Errno.{ok, eperm}
use aev_os.Kernel.CapIpc.{
  EpClass, Endpoint, CapIpc, Message, Op, op_init, op_grant, op_revoke, max_endpoints,
  zero_endpoint, init, behind, grant_slot, granted, grant, revoke_slot, revoke, any_valid, validate,
  deliver_slot, deliver, apply, run,
}
use aev_os.Kernel.CapIpc.Inv.{
  All, All-map, All-replicate, AllSome, Distinct, IsValid, grant_slot-All, revoke_slot-All,
}

-- The token opens the class's slot, and messages with it are delivered.
abbrev Opens : ℕ → EpClass → List Endpoint → Type 0
Opens tok ep es = (any_valid tok ep es ≡ true) × (deliver_slot tok es ≡ ok)

Opens-later :
    (tok : ℕ) (ep : EpClass) (e : Endpoint) (es : List Endpoint)
    → Opens tok ep es
    → Opens tok ep (e ∷ es)
unfolding any_valid deliver_slot
Opens-later tok ep e es (h, h') = (ground (arith, h), ground (arith, h'))

grant_slot-Opens :
    (tok : ℕ) (ep : EpClass) (owner : ℕ) (es : List Endpoint)
    → AllSome (Opens tok ep) (grant_slot tok ep owner es)
unfolding grant_slot any_valid deliver_slot behind
grant_slot-Opens tok ep owner [] = tt
grant_slot-Opens tok ep owner (e ∷ es) = elim (Bool-cases (e.magic == 0)) [
  | inl z ↦ rw z (ground arith, ground arith)
  | inr z ↦ rw z (go (grant_slot tok ep owner es) (grant_slot-Opens tok ep owner es))
]
  where
    go :
        (r : Option (List Endpoint))
        → AllSome (Opens tok ep) r
        → AllSome (Opens tok ep) (behind e r)
    go none h = tt
    go (some es') h = Opens-later tok ep e es' h

-- A token that `cap_ipc_grant` returns is valid for its class, and a message with it is delivered.
pub validate-grant :
    (s : CapIpc) (ep : EpClass) (owner : ℕ) (msg : Message)
    → (grant s ep owner).0 ≢ 0
    → (validate (grant s ep owner).1 (grant s ep owner).0 ep ≡ true)
      × (deliver (grant s ep owner).1 (grant s ep owner).0 (some msg) ≡ ok)
unfolding grant validate deliver granted
validate-grant s ep owner msg =
    go (grant_slot s.next_tok ep owner s.eps) (grant_slot-Opens s.next_tok ep owner s.eps)
  where
    go :
        (r : Option (List Endpoint))
        → AllSome (Opens s.next_tok ep) r
        → (granted s r).0 ≢ 0
        → (validate (granted s r).1 (granted s r).0 ep ≡ true)
          × (deliver (granted s r).1 (granted s r).0 (some msg) ≡ ok)
    go none h ne = absurd (ne refl)
    go (some es) (h, h') ne = (ground (arith, h), h')

-- every slot with the token is revoked
abbrev pub Dead : ℕ → List Endpoint → Type 0
Dead tok = All (λ e. e.token ≡ tok → e.revoked ≡ true)

Dead-closed :
    (tok : ℕ) (ep : EpClass) (es : List Endpoint)
    → Dead tok es
    → (any_valid tok ep es ≡ false) × (deliver_slot tok es ≡ eperm)
unfolding any_valid deliver_slot
Dead-closed tok ep [] h = (refl, refl)
Dead-closed tok ep (e ∷ es) (h, hs) =
    let (ih, ih') = Dead-closed tok ep es hs in (ground (arith, ih), ground (arith, ih'))

revoke_slot-Dead :
    (tok : ℕ) (es : List Endpoint) → tok ≢ 0 → Distinct es → Dead tok (revoke_slot tok es)
unfolding revoke_slot
revoke_slot-Dead tok [] ne d = tt
revoke_slot-Dead tok (e ∷ es) ne (d, ds) = elim (Bool-cases (e.token == tok)) [
  | inl z ↦ rw z (λ h. refl, All-map _ _ es (λ e' h h'. absurd (ne (ground (arith, h)))) d)
  | inr z ↦ rw z (λ h. absurd (ground arith), revoke_slot-Dead tok es ne ds)
]

-- Dead, and below the counter
abbrev IsSpent : ℕ → CapIpc → Type 0
IsSpent tok s = Dead tok s.eps × (tok < s.next_tok)

grant-IsSpent :
    (tok : ℕ) (s : CapIpc) (ep : EpClass) (owner : ℕ)
    → s.next_tok + 1 < 2 ^ 64
    → IsSpent tok s
    → IsSpent tok (grant s ep owner).1 × ((grant s ep owner).1.next_tok ≤ s.next_tok + 1)
unfolding grant granted
grant-IsSpent tok s ep owner room (dead, lt) = go (grant_slot s.next_tok ep owner s.eps) (
    grant_slot-All (λ e. e.token ≡ tok → e.revoked ≡ true) s.next_tok ep owner s.eps
      (λ h. absurd (omega arith)) dead)
  where
    go :
        (r : Option (List Endpoint))
        → AllSome (Dead tok) r
        → IsSpent tok (granted s r).1 × ((granted s r).1.next_tok ≤ s.next_tok + 1)
    go none h = ((dead, lt), omega arith)
    go (some es) h = ((h, omega arith), omega arith)

apply-IsSpent :
    (tok : ℕ) (s : CapIpc) (op : Op)
    → tok ≢ 0
    → s.next_tok + 1 < 2 ^ 64
    → IsSpent tok s
    → IsSpent tok (apply s op) × ((apply s op).next_tok ≤ s.next_tok + 1)
unfolding apply init revoke
apply-IsSpent tok s op_init ne room (dead, lt) =
    ((All-replicate _ max_endpoints zero_endpoint (λ h. absurd (ne (sym h))), lt), omega arith)
apply-IsSpent tok s (op_grant ep owner) ne room spent = grant-IsSpent tok s ep owner room spent
apply-IsSpent tok s (op_revoke t) ne room (dead, lt) =
    ((revoke_slot-All _ t s.eps (λ e h h'. refl) dead, lt), omega arith)

run-IsSpent :
    (tok : ℕ) (s : CapIpc) (ops : List Op)
    → tok ≢ 0
    → s.next_tok + length ops < 2 ^ 64
    → IsSpent tok s
    → IsSpent tok (run s ops)
unfolding run
run-IsSpent tok s [] ne room spent = spent
run-IsSpent tok s (op ∷ ops) ne room spent =
    let (next, le) = apply-IsSpent tok s op ne (omega arith) spent in
    run-IsSpent tok (apply s op) ops ne (omega arith) next

-- Once a token below the counter is revoked on a valid table, it is not valid for any class and no
-- message with it is delivered, after any calls of grant, revoke and init, until the 64-bit counter
-- is used up.
pub validate-run-revoke :
    (s : CapIpc) (tok : ℕ) (ops : List Op) (ep : EpClass) (msg : Message)
    → IsValid s
    → tok ≢ 0
    → tok < s.next_tok
    → s.next_tok + length ops < 2 ^ 64
    → (validate (run (revoke s tok) ops) tok ep ≡ false)
      × (deliver (run (revoke s tok) ops) tok (some msg) ≡ eperm)
unfolding validate deliver
validate-run-revoke s tok ops ep msg v ne lt room =
    let start : IsSpent tok (revoke s tok) =
      unfold revoke in (revoke_slot-Dead tok s.eps ne v.distinct, lt) in
    let (dead, _) = run-IsSpent tok (revoke s tok) ops ne (unfold revoke in room) start in
    let (closed, undelivered) = Dead-closed tok ep (run (revoke s tok) ops).eps dead in
    (ground (arith, closed), undelivered)
