-- ===== src/Kernel/Coroutine/Tests.antt =====
-- The theorems on the run queues at small queues, and runs of the scheduler.
use aev_os.Common.{
  ℕ, Bool-cases, inl, inr, ◌||◌, ◌≡◌, refl, Bool, true, false, Option, none, some, List, [], ◌∷◌,
  ◌++◌, ◌==◌, arith,
}
use aev_os.Kernel.Coroutine.{
  ready, running, upd, idle, Links, Sched, enqueue, last_from, link, pick_from, pick_next_coro,
  priority_levels, with_links, enqueue_coro, is_due, wake_one, wake_from, wake_sleeping, switch_to,
  requeue, coro_yield, coro_sleep,
}
use aev_os.Kernel.Coroutine.Chain.{NotIn}
use aev_os.Kernel.Coroutine.Queue.{Holds, Gives, enqueue-Holds, pick_list, pick_next_coro-Holds}
use aev_os.Kernel.Coroutine.Run.{coro_create}
use aev_os.Kernel.Coroutine.Run.Create.{Creates, coro_create-Creates}
use aev_os.Kernel.Coroutine.Yield.{NoneDue, RunsNext, coro_yield-RunsNext}
use aev_os.Kernel.Coroutine.Twice.{again, Hangs, enqueue-again-Hangs}

-- no coroutine is queued
abbrev no_links : Links
no_links = record { heads = λ p. none; next = λ c. none }

abbrev no_list : ℕ → List ℕ
no_list p = []

no_links-Holds : Holds no_links no_list
no_links-Holds = record { chain = λ p. refl; once = λ p. tt; apart = λ p p' ne. tt }

enqueue-Holds_example : Gives (enqueue 3 no_links 7 5) (upd no_list 7 ([] ++ (5 ∷ [])))
enqueue-Holds_example = enqueue-Holds 3 no_links no_list 7 5 no_links-Holds (λ p. tt) (omega arith)

-- coroutine 5 at the priority 7
abbrev one_link : Links
one_link = record { heads = upd (λ p. none) 7 (some 5); next = upd (λ c. none) 5 none }

one_link-Holds : Holds one_link (upd no_list 7 (5 ∷ []))
unfolding enqueue
one_link-Holds = enqueue-Holds 3 no_links no_list 7 5 no_links-Holds (λ p. tt) (omega arith)

pick_next_coro-Holds_example :
    ((pick_next_coro one_link).0 ≡ (pick_list (upd no_list 7 (5 ∷ [])) priority_levels).0)
    × Holds (pick_next_coro one_link).1 (pick_list (upd no_list 7 (5 ∷ [])) priority_levels).1
pick_next_coro-Holds_example = pick_next_coro-Holds one_link (upd no_list 7 (5 ∷ [])) one_link-Holds

enqueue-again-Hangs_example : Hangs 7 5 no_list (again 3 7 5 (enqueue 3 no_links 7 5))
enqueue-again-Hangs_example =
    enqueue-again-Hangs 3 no_links no_list 7 5 no_links-Holds (λ p. tt) (omega arith)

-- coroutine `c` is ready at the priority 7, and the idle coroutine runs
abbrev idling : Sched
idling = record {
  pool =
      upd (λ c. record { state = ready; priority = 7; id = c; wake_tick = 0; stack = true }) idle
        (record { state = running; priority = 0; id = 0; wake_tick = 0; stack = false });
  used = λ c. c == 5;
  links = one_link;
  current = idle;
  next_coro_id = 1026;
  preempt_pending = true;
  ticks_since_switch = 4;
  cancel_broadcast = false;
}

idling-NoneDue : NoneDue idling 9
unfolding is_due
idling-NoneDue i = ground arith

idle-NotIn : (p : ℕ) → NotIn idle (upd no_list 7 (5 ∷ []) p)
idle-NotIn p = elim (Bool-cases (7 == p)) [
  | inl e ↦ rw e (λ h. absurd (omega arith), tt)
  | inr e ↦ rw e tt
]

coro_yield-RunsNext_example :
    RunsNext (upd (upd no_list 7 (5 ∷ [])) 0 ([] ++ (idle ∷ []))) (coro_yield 3 9 idling)
coro_yield-RunsNext_example =
    coro_yield-RunsNext 3 9 idling (upd no_list 7 (5 ∷ [])) refl one_link-Holds idle-NotIn
      idling-NoneDue (omega arith)

-- coroutine 5 runs and coroutine 6 is queued, both at the priority 7
abbrev busy : Sched
busy = record {
  pool =
      upd (λ c. record { state = ready; priority = 7; id = c; wake_tick = 0; stack = true }) 5
        (record { state = running; priority = 7; id = 5; wake_tick = 0; stack = true });
  used = λ c. (c == 5) || (c == 6);
  links = record { heads = upd (λ p. none) 7 (some 6); next = λ c. none };
  current = 5;
  next_coro_id = 7;
  preempt_pending = false;
  ticks_since_switch = 4;
  cancel_broadcast = false;
}

-- Coroutine 4 cannot be put into the queue any more.
abbrev is_stuck : Option Sched → Bool
is_stuck none = false
is_stuck (some s) = elim (enqueue 20 s.links 7 4) [ none ↦ true | some q ↦ false ]

-- A sleep of 0 ms at tick 9 damages the queue; one of 1 ms does not.
sleep_0 : is_stuck (coro_sleep 20 9 9 0 busy) ≡ true
unfolding coro_sleep coro_yield wake_sleeping wake_from wake_one is_due enqueue_coro with_links
    enqueue last_from link requeue switch_to pick_next_coro pick_from
sleep_0 = refl

sleep_1 : is_stuck (coro_sleep 20 9 9 1 busy) ≡ false
unfolding coro_sleep coro_yield wake_sleeping wake_from wake_one is_due enqueue_coro with_links
    enqueue last_from link requeue switch_to pick_next_coro pick_from
sleep_1 = refl

zero-NotIn : (p : ℕ) → NotIn 0 (upd no_list 7 (5 ∷ []) p)
zero-NotIn p = elim (Bool-cases (7 == p)) [
  | inl e ↦ rw e (λ h. absurd (omega arith), tt)
  | inr e ↦ rw e tt
]

coro_create-Creates_example :
    Creates 0 1026 (upd (upd no_list 7 (5 ∷ [])) 7 (5 ∷ 0 ∷ [])) (coro_create 3 idling 7 true)
coro_create-Creates_example =
    coro_create-Creates 3 idling 7 0 (upd no_list 7 (5 ∷ [])) one_link-Holds (omega arith) refl
      (λ j h. absurd (omega arith)) zero-NotIn (omega arith)
