-- ===== src/Container/Sandbox/Tests.antt =====
-- The theorems on the sandbox at single system calls.
use aev_os.Common.{◌≡◌, refl, true, false, inl}
use aev_os.Common.Bits.{test_bit}
use aev_os.Container.Ifc.{ifc_init, ifc_revoke, dom_container, dom_host}
use aev_os.Container.Sandbox.{skill, docker, syscall_allow, in_list, syscall_gate}
use aev_os.Container.Sandbox.Gate.{syscall_gate-ifc_revoke}

skill_mmap : syscall_allow skill 9 ≡ true
unfolding syscall_allow in_list
skill_mmap = refl

syscall_gate-ifc_revoke_example :
    syscall_gate (ifc_revoke ifc_init dom_container dom_host 1) docker dom_container 0 ≡ false
unfolding test_bit
syscall_gate-ifc_revoke_example = syscall_gate-ifc_revoke ifc_init 1 0 (inl refl)
