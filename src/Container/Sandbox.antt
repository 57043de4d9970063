-- ===== src/Container/Sandbox.antt =====
-- src/container/sandbox.c: which Linux system calls a profile allows.
-- The tables end with `UINT32_MAX` as in the source, and so does a search.
pub mod Gate
mod Tests
use aev_os.Common.{
  ℕ, ◌+◌, ◌-◌, ◌^◌, Bool, true, false, not, ◌&&◌, List, [], ◌∷◌, ◌==◌, if◌then◌else◌,
}
use aev_os.Container.Ifc.{Policy, dom_container, dom_host, op_read, op_write, flow_allowed}

-- `lc_sb_profile_t`; `other` is any other value
pub data Profile : Type 0 where
  skill : Profile
  docker : Profile
  other : Profile

abbrev pub list_end : ℕ
list_end = 2 ^ 32 - 1

abbrev pub skill_allow : List ℕ
skill_allow = 0 ∷ 1 ∷ 2 ∷ 3 ∷ 9 ∷ 10 ∷ 11 ∷ 12 ∷ 60 ∷ 231 ∷ list_end ∷ []

abbrev pub docker_allow : List ℕ
docker_allow =
    0 ∷ 1 ∷ 2 ∷ 3 ∷ 4 ∷ 5 ∷ 6 ∷ 7 ∷ 8 ∷ 9 ∷ 10 ∷ 11 ∷ 12 ∷ 13 ∷ 14 ∷ 16 ∷ 17 ∷ 23 ∷ 24 ∷ 28 ∷ 35
    ∷ 39 ∷ 41 ∷ 42 ∷ 56 ∷ 57 ∷ 59 ∷ 60 ∷ 63 ∷ 72 ∷ 78 ∷ 79 ∷ 89 ∷ 96 ∷ 97 ∷ 102 ∷ 131 ∷ 158 ∷ 186
    ∷ 202 ∷ 217 ∷ 230 ∷ 231 ∷ 234 ∷ 237 ∷ 270 ∷ 273 ∷ 281 ∷ 291 ∷ 293 ∷ 318 ∷ 257 ∷ 262 ∷ 263 ∷ 267
    ∷ 269 ∷ 270 ∷ 271 ∷ 273 ∷ 281 ∷ list_end ∷ []

pub in_list : List ℕ → ℕ → Bool
in_list [] nr = false
in_list (x ∷ xs) nr =
    let rest = in_list xs nr in if x == list_end then false else if x == nr then true else rest

pub syscall_allow : Profile → ℕ → Bool
unfolding in_list
syscall_allow skill nr = in_list skill_allow nr
syscall_allow docker nr = in_list docker_allow nr
syscall_allow other nr = false

-- `prof == LC_SB_PROFILE_DOCKER`
abbrev pub is_docker : Profile → Bool
is_docker skill = false
is_docker docker = true
is_docker other = false

-- `lc_linux_syscall_gate`: `true` is the result 0, `false` is -1
pub syscall_gate : Policy → Profile → ℕ → ℕ → Bool
syscall_gate p prof from nr =
    if not (syscall_allow prof nr)
    then false
    else if is_docker prof && (from == dom_container)
    then if not (flow_allowed p from dom_host (op_read + op_write)) then false else true
    else true
