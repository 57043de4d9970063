-- ===== src/Kernel/CapIpc/Tests.antt =====
-- The theorems on capability tokens at a table with one token.
use aev_os.Common.{◌≡◌, ◌≢◌, refl, false, some, [], ◌∷◌, arith, replicate, length-replicate}
use aev_os.Common.Errno.{eperm}
use aev_os.Kernel.CapIpc.{
  CapIpc, Message, ep_vfs, ep_llm, op_init, op_grant, grant, granted, grant_slot, revoke, validate,
  deliver, run, max_endpoints, zero_endpoint,
}
use aev_os.Kernel.CapIpc.Inv.{IsValid, All-replicate, Distinct-replicate, grant-IsValid}
use aev_os.Kernel.CapIpc.Revoked.{validate-run-revoke}

-- the table as the program starts, before `cap_ipc_init`
abbrev bss : CapIpc
bss = record { eps = replicate max_endpoints zero_endpoint; next_tok = 1 }

abbrev message : Message
message = record { msg_type = 1; payload = 7 ∷ [] }

abbrev one_token : CapIpc
one_token = (grant bss ep_vfs 2).1

bss-IsValid : IsValid bss
bss-IsValid = record {
  size = length-replicate max_endpoints zero_endpoint;
  positive = omega arith;
  below = All-replicate _ max_endpoints zero_endpoint (omega arith);
  distinct = Distinct-replicate max_endpoints;
}

first_token : (grant bss ep_vfs 2).0 ≡ 1
unfolding grant granted grant_slot replicate
first_token = refl

first_token_ne : (grant bss ep_vfs 2).0 ≢ 0
first_token_ne h = absurd (omega (arith, first_token, h))

one_token-IsValid : IsValid one_token
one_token-IsValid = grant-IsValid bss ep_vfs 2 (omega arith) bss-IsValid

next_one_token : one_token.next_tok ≡ 2
unfolding grant granted grant_slot replicate
next_one_token = refl

validate-run-revoke_example :
    (validate (run (revoke one_token 1) (op_grant ep_llm 3 ∷ op_init ∷ [])) 1 ep_vfs ≡ false)
    × (deliver (run (revoke one_token 1) (op_grant ep_llm 3 ∷ op_init ∷ [])) 1 (some message)
        ≡ eperm)
validate-run-revoke_example =
    validate-run-revoke one_token 1 (op_grant ep_llm 3 ∷ op_init ∷ []) ep_vfs message
      one_token-IsValid (λ h. absurd (omega arith)) (omega (arith, next_one_token))
      (omega (arith, next_one_token))
