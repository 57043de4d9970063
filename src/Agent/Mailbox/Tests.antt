-- ===== src/Agent/Mailbox/Tests.antt =====
-- Runs of the mailbox, and its theorems at concrete mailboxes.
use mathlib.Core.Option
use aev_os.Common.{ℕ, ◌≡◌, refl, true, none, some, List, [], ◌∷◌, arith}
use aev_os.Common.Errno.{ok, enoent}
use aev_os.Agent.Mailbox.{Mailbox, init, send, try_recv, try_recv_for}
use aev_os.Agent.Mailbox.Inv.{IsValid, init-IsValid, send-IsValid, try_recv_for-IsValid}
use aev_os.Agent.Mailbox.Queue
use aev_os.Agent.Mailbox.Queue.{Letter, letter_of, Op, send_op, recv_op, recv_for_op}
use aev_os.Agent.Mailbox.Refine.{contents, try_recv_refines, run, run_refines}

abbrev hello : List ℕ
hello = 72 ∷ 105 ∷ []

-- agent 1 has written to agent 2
abbrev waiting : Mailbox
waiting = (send init 1 2 (some hello) 2).1

waiting-IsValid : IsValid waiting
waiting-IsValid = send-IsValid 1 2 hello 2 init-IsValid (omega arith)

-- a letter to agent 2, one to agent 3 and one to any agent
abbrev script : List Op
script =
    send_op 1 2 (65 ∷ [])
    ∷ send_op 1 3 (66 ∷ [])
    ∷ send_op 1 0 (67 ∷ [])
    ∷ recv_for_op 3
    ∷ recv_for_op 3
    ∷ recv_for_op 3
    ∷ recv_op
    ∷ recv_op
    ∷ []

-- the queue serves agent 3 its own letter, then the broadcast, and leaves the letter to agent 2
queue_serves :
    Queue.run [] script
    ≡ (ok, none)
      ∷ (ok, none)
      ∷ (ok, none)
      ∷ (ok, some (record { from_agent = 1; to_agent = 3; text = 66 ∷ [] }))
      ∷ (ok, some (record { from_agent = 1; to_agent = 0; text = 67 ∷ [] }))
      ∷ (enoent, none)
      ∷ (ok, some (record { from_agent = 1; to_agent = 2; text = 65 ∷ [] }))
      ∷ (enoent, none)
      ∷ []
unfolding Queue.run Queue.accept Queue.push Queue.pop Queue.pop_for Queue.is_addressed
queue_serves = refl

try_recv_for-IsValid_example : IsValid (try_recv_for waiting 2 true).2
try_recv_for-IsValid_example = try_recv_for-IsValid 2 true waiting-IsValid

try_recv_refines_example :
    let (s, m, mb) = try_recv waiting true in
    (s, Option.map letter_of m, contents mb) ≡ Queue.pop (contents waiting)
try_recv_refines_example = try_recv_refines waiting-IsValid

run_refines_example : run waiting script ≡ Queue.run (contents waiting) script
run_refines_example = run_refines script waiting-IsValid
