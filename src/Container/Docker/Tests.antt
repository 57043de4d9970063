-- ===== src/Container/Docker/Tests.antt =====
-- The theorems on the containers behind calls of run and rm.
use aev_os.Common.{ℕ, ◌≡◌, ◌≤◌, ◌<◌, ◌+◌, refl, arith, List, [], ◌∷◌, replicate}
use aev_os.Clib.Str.{strlen, strcmp, strncmp, emit_decimal, decimal_from}
use aev_os.Common.Masks.{mask_and}
use aev_os.Container.Ifc.{Policy, flow_allowed}
use aev_os.Container.Docker.{
  Call, call_run, call_stop, call_rm, call, calls, docker_init, lc_docker_run, lc_docker_stop,
  lc_docker_rm, find_slot, find_from, slot_alloc, run_in, rm_at, stop_at, started,
}
use aev_os.Container.Docker.Leak.{IsTaken, bundles-lc_docker_run}
use aev_os.Container.Docker.Ids.{with_id, with_id-calls}

digits_of_1203 : emit_decimal 1203 ≡ 49 ∷ 50 ∷ 48 ∷ 51 ∷ []
unfolding emit_decimal decimal_from
digits_of_1203 = refl

-- every flow is allowed
abbrev open_policy : Policy
open_policy = λ from to. 7

-- "focused_"
abbrev focused : List ℕ
focused = 102 ∷ 111 ∷ 99 ∷ 117 ∷ 115 ∷ 101 ∷ 100 ∷ 95 ∷ []

-- run, stop and rm of the container with the given digits
abbrev turn : List ℕ → List Call → List Call
turn digits rest =
    call_run open_policy (97 ∷ [])
    ∷ call_stop (102 ∷ 111 ∷ 99 ∷ 117 ∷ 115 ∷ 101 ∷ 100 ∷ 95 ∷ digits)
    ∷ call_rm (102 ∷ 111 ∷ 99 ∷ 117 ∷ 115 ∷ 101 ∷ 100 ∷ 95 ∷ digits)
    ∷ rest

abbrev sixteen_turns : List Call
sixteen_turns = turn (49 ∷ []) (
    turn (50 ∷ []) (
      turn (51 ∷ []) (
        turn (52 ∷ []) (
          turn (53 ∷ []) (
            turn (54 ∷ []) (
              turn (55 ∷ []) (
                turn (56 ∷ []) (
                  turn (57 ∷ []) (
                    turn (49 ∷ 48 ∷ []) (
                      turn (49 ∷ 49 ∷ []) (
                        turn (49 ∷ 50 ∷ []) (
                          turn (49 ∷ 51 ∷ []) (
                            turn (49 ∷ 52 ∷ [])
                              (turn (49 ∷ 53 ∷ []) (turn (49 ∷ 54 ∷ []) [])))))))))))))))

next_id-sixteen_turns : (calls docker_init sixteen_turns).next_id ≡ 17
unfolding calls call docker_init lc_docker_run lc_docker_stop lc_docker_rm find_slot find_from
    slot_alloc run_in rm_at stop_at started emit_decimal decimal_from strlen strcmp strncmp
    flow_allowed mask_and replicate
next_id-sixteen_turns = refl

bundles-lc_docker_run_example :
    ((k : ℕ)
      → k < 16
      → k + 1 < (calls docker_init sixteen_turns).next_id
      → IsTaken (calls docker_init sixteen_turns).bundles k)
    × (16 < (calls docker_init sixteen_turns).next_id
        → (lc_docker_run (calls docker_init sixteen_turns) open_policy (97 ∷ [])).1.bundles
          ≡ (calls docker_init sixteen_turns).bundles)
bundles-lc_docker_run_example =
    bundles-lc_docker_run sixteen_turns open_policy (97 ∷ []) (omega arith)

with_id-calls_example :
    (with_id 1 (calls docker_init sixteen_turns).slots ≤ 1)
    × ((calls docker_init sixteen_turns).next_id ≤ 1
        → with_id 1 (calls docker_init sixteen_turns).slots ≡ 0)
with_id-calls_example = with_id-calls sixteen_turns 1 (omega arith) (omega arith)
