-- ===== src/Container/Ifc.antt =====
-- src/container/ifc.c: which flows between domains are allowed.
-- The state is the matrix `g_ifc_policy`, as a function; a mask is a word of 32 bits. A domain is the
-- value of `lc_ifc_domain_t`, since the functions test for values outside the enumeration.
pub mod Flow
pub mod Boundary
mod Tests
use aev_os.Common.{
  ℕ, zero, suc, ◌+◌, ◌≡◌, Bool, true, false, ◌&&◌, ◌||◌, List, [], ◌∷◌, leb, ◌==◌, if◌then◌else◌,
}
use aev_os.Common.Masks.{mask_and, mask_or, mask_without}

abbrev pub dom_host : ℕ
dom_host = 0

abbrev pub dom_container : ℕ
dom_container = 1

abbrev pub dom_skill : ℕ
dom_skill = 2

abbrev pub dom_llm : ℕ
dom_llm = 3

abbrev pub dom_hms : ℕ
dom_hms = 4

abbrev pub dom_count : ℕ
dom_count = 5

abbrev pub op_read : ℕ
op_read = 1

abbrev pub op_write : ℕ
op_write = 2

abbrev pub op_exec : ℕ
op_exec = 4

abbrev pub Policy : Type 0
Policy = ℕ → ℕ → ℕ

-- `g_ifc_policy[a][b] = mask`
pub ifc_set : Policy → ℕ → ℕ → ℕ → Policy
ifc_set p a b mask from to = if (a == from) && (b == to) then mask else p from to

-- `for (j = 0; j < LC_IFC_DOM_COUNT; j++) ifc_set(LC_IFC_DOM_HOST, j, IFC_ALL);`, with `rounds` left
pub host_row : ℕ → ℕ → Policy → Policy
host_row zero j p = p
host_row (suc rounds) j p =
    host_row rounds (j + 1) (ifc_set p dom_host j (op_read + op_write + op_exec))

-- `lc_ifc_init`; a mask of several operations is their sum
pub ifc_init : Policy
unfolding host_row
ifc_init =
    let p0 = host_row dom_count 0 (λ from to. 0) in
    let p1 = ifc_set p0 dom_container dom_host (op_read + op_write) in
    let p2 = ifc_set p1 dom_container dom_hms op_read in
    let p3 = ifc_set p2 dom_container dom_llm 0 in
    let p4 = ifc_set p3 dom_skill dom_llm op_read in
    let p5 = ifc_set p4 dom_skill dom_hms (op_read + op_write) in
    let p6 = ifc_set p5 dom_skill dom_host 0 in
    let p7 = ifc_set p6 dom_llm dom_hms op_read in
    let p8 = ifc_set p7 dom_llm dom_host op_write in
    let p9 = ifc_set p8 dom_hms dom_host (op_read + op_write) in
    ifc_set p9 dom_hms dom_skill op_read

unfoldable pub flow_allowed : Policy → ℕ → ℕ → ℕ → Bool
flow_allowed p from to ops =
    if leb dom_count from || leb dom_count to then false else mask_and 32 (p from to) ops == ops

pub ifc_grant : Policy → ℕ → ℕ → ℕ → Policy
ifc_grant p from to ops =
    if leb dom_count from || leb dom_count to
    then p
    else ifc_set p from to (mask_or 32 (p from to) ops)

pub ifc_revoke : Policy → ℕ → ℕ → ℕ → Policy
ifc_revoke p from to ops =
    if leb dom_count from || leb dom_count to
    then p
    else ifc_set p from to (mask_without 32 (p from to) ops)

-- a change of the policy at run time
pub data Change : Type 0 where
  change_grant : ℕ → ℕ → ℕ → Change
  change_revoke : ℕ → ℕ → ℕ → Change

pub change : Policy → Change → Policy
change p (change_grant from to ops) = ifc_grant p from to ops
change p (change_revoke from to ops) = ifc_revoke p from to ops

pub changes : Policy → List Change → Policy
changes p [] = p
changes p (c ∷ cs) = changes (change p c) cs
