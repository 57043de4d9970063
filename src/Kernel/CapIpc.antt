-- ===== src/Kernel/CapIpc.antt =====
-- src/kernel/ipc/cap_ipc.c: capability tokens for the kernel's services.
-- `g_eps` and `g_next_tok` are the state. A loop over the table is a recursion on the list.
pub mod Inv
pub mod Revoked
pub mod Slots
mod Tests
use aev_os.Common.{
  ℕ, ◌+◌, ◌^◌, ◌%◌, Bool, true, false, not, ◌||◌, Option, none, some, List, [], ◌∷◌, ◌==◌,
  if◌then◌else◌, replicate,
}
use aev_os.Common.Errno.{Status, ok, einval, eperm}

-- `cap_ipc_endpoint_class_t`
pub data EpClass : Type 0 where
  ep_vfs : EpClass
  ep_net : EpClass
  ep_sched : EpClass
  ep_gpu : EpClass
  ep_llm : EpClass
  ep_linux_shim : EpClass

-- the values of the enumeration
abbrev pub ep_value : EpClass → ℕ
ep_value ep_vfs = 1
ep_value ep_net = 2
ep_value ep_sched = 3
ep_value ep_gpu = 4
ep_value ep_llm = 5
ep_value ep_linux_shim = 6

-- `cap_ipc_endpoint_t`; the class is its value, which is 0 in a slot never used
pub record Endpoint : Type 0 where
  pub magic : ℕ
  pub token : ℕ
  pub ep_class : ℕ
  pub owner_domain : ℕ
  pub revoked : Bool

pub record Message : Type 0 where
  pub msg_type : ℕ
  pub payload : List ℕ

abbrev pub max_endpoints : ℕ
max_endpoints = 32

abbrev pub cap_ipc_magic : ℕ
cap_ipc_magic = 0xCA70_4970

pub record CapIpc : Type 0 where
  pub eps : List Endpoint
  pub next_tok : ℕ

abbrev pub zero_endpoint : Endpoint
zero_endpoint = record { magic = 0; token = 0; ep_class = 0; owner_domain = 0; revoked = false }

-- `memset`; the counter stays
pub init : CapIpc → CapIpc
init s = record s { eps = replicate max_endpoints zero_endpoint }

abbrev pub fresh : ℕ → EpClass → ℕ → Endpoint
fresh tok ep owner = record {
  magic = cap_ipc_magic;
  token = tok;
  ep_class = ep_value ep;
  owner_domain = owner;
  revoked = false;
}

-- a slot in front of the rest of the table
pub behind : Endpoint → Option (List Endpoint) → Option (List Endpoint)
behind e none = none
behind e (some es) = some (e ∷ es)

-- the loop of `cap_ipc_grant`: the first slot without a magic takes the new endpoint
pub grant_slot : ℕ → EpClass → ℕ → List Endpoint → Option (List Endpoint)
grant_slot tok ep owner [] = none
grant_slot tok ep owner (e ∷ es) =
    if e.magic == 0 then some (fresh tok ep owner ∷ es) else behind e (grant_slot tok ep owner es)

pub granted : CapIpc → Option (List Endpoint) → ℕ × CapIpc
granted s none = (0, s)
granted s (some es) = (s.next_tok, record { eps = es; next_tok = (s.next_tok + 1) % 2 ^ 64 })

pub grant : CapIpc → EpClass → ℕ → ℕ × CapIpc
unfolding grant_slot
grant s ep owner = granted s (grant_slot s.next_tok ep owner s.eps)

pub any_valid : ℕ → EpClass → List Endpoint → Bool
any_valid tok ep [] = false
any_valid tok ep (e ∷ es) =
    if e.magic == cap_ipc_magic
    then if e.token == tok
      then if not e.revoked
        then if e.ep_class == ep_value ep then true else any_valid tok ep es
        else any_valid tok ep es
      else any_valid tok ep es
    else any_valid tok ep es

pub validate : CapIpc → ℕ → EpClass → Bool
validate s tok ep = if tok == 0 then false else any_valid tok ep s.eps

-- the loop of `cap_ipc_revoke`: the first slot with the token, whatever its magic
pub revoke_slot : ℕ → List Endpoint → List Endpoint
revoke_slot tok [] = []
revoke_slot tok (e ∷ es) =
    if e.token == tok then record e { revoked = true } ∷ es else e ∷ revoke_slot tok es

pub revoke : CapIpc → ℕ → CapIpc
unfolding revoke_slot
revoke s tok = record s { eps = revoke_slot tok s.eps }

pub deliver_slot : ℕ → List Endpoint → Status
deliver_slot tok [] = eperm
deliver_slot tok (e ∷ es) =
    if not (e.magic == cap_ipc_magic) || e.revoked || not (e.token == tok)
    then deliver_slot tok es
    else ok

pub deliver : CapIpc → ℕ → Option Message → Status
deliver s tok none = einval
deliver s tok (some msg) = deliver_slot tok s.eps

-- The calls that change the state.
pub data Op : Type 0 where
  op_init : Op
  op_grant : EpClass → ℕ → Op
  op_revoke : ℕ → Op

pub apply : CapIpc → Op → CapIpc
apply s op_init = init s
apply s (op_grant ep owner) = (grant s ep owner).1
apply s (op_revoke tok) = revoke s tok

pub run : CapIpc → List Op → CapIpc
run s [] = s
run s (op ∷ ops) = run (apply s op) ops
