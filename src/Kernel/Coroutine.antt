-- ===== src/Kernel/Coroutine.antt =====
-- src/kernel/sched/coroutine.c: the cooperative scheduler.
-- A coroutine is its index in `coro_pool`, and `idle` is `idle_coro`. The pool is a store from indices
-- to coroutines, the `next` pointers are a store of their own, so that a run queue is a linked list as
-- in the code and may be damaged. A walk along a queue takes fuel; `none` is a walk that did not end.
-- `coro_switch` is left out: a call ends with the coroutine that runs next. What a coroutine runs, its
-- stack's contents and its name have no counterpart; `timer_get_ticks` and `kmalloc` are arguments.
pub mod Chain
pub mod Queue
pub mod Twice
pub mod Yield
pub mod Run
mod Tests
use aev_os.Common.{
  ℕ, zero, suc, ◌+◌, ◌*◌, ◌/◌, ◌%◌, ◌^◌, Bool, true, false, not, ◌&&◌, Option, none, some, ltb, leb,
  ◌==◌, if◌then◌else◌,
}

pub data CoroState : Type 0 where
  ready : CoroState
  running : CoroState
  waiting : CoroState
  dead : CoroState

abbrev pub state_value : CoroState → ℕ
state_value ready = 0
state_value running = 1
state_value waiting = 2
state_value dead = 3

-- `a == b` of two states
abbrev pub same_state : CoroState → CoroState → Bool
same_state a b = state_value a == state_value b

-- `coro_t`, without `next`; `stack` is whether `stack_base` is not null
pub record Coro : Type 0 where
  pub state : CoroState
  pub priority : ℕ
  pub id : ℕ
  pub wake_tick : ℕ
  pub stack : Bool

abbrev pub max_coroutines : ℕ
max_coroutines = 1024

abbrev pub idle : ℕ
idle = max_coroutines

abbrev pub priority_levels : ℕ
priority_levels = 256

abbrev pub timer_freq_hz : ℕ
timer_freq_hz = 1000

abbrev pub preempt_ticks : ℕ
preempt_ticks = timer_freq_hz / 100

-- `f` with `v` at `i`
abbrev pub upd : {A : Type 0} → (ℕ → A) → ℕ → A → ℕ → A
upd f i v j = if i == j then v else f j

-- the heads of the run queues, and the `next` pointers
pub record Links : Type 0 where
  pub heads : ℕ → Option ℕ
  pub next : ℕ → Option ℕ

-- `while (*tail) tail = &(*tail)->next;` from coroutine `c` on: the last coroutine
pub last_from : (ℕ → Option ℕ) → ℕ → ℕ → Option ℕ
last_from next zero c = none
last_from next (suc fuel) c = elim (next c) [ none ↦ some c | some d ↦ last_from next fuel d ]

-- the end of `enqueue`: `*tail = c`, where the queue's last coroutine is known
pub link : Links → ℕ → Option ℕ → Option Links
link q c none = none
link q c (some l) = some (record q { next = upd q.next l (some c) })

-- `enqueue` at the priority `p`
pub enqueue : ℕ → Links → ℕ → ℕ → Option Links
unfolding last_from
enqueue fuel q p c =
    let q' = record q { next = upd q.next c none } in
    elim (q.heads p) [
      | none ↦ some (record q' { heads = upd q.heads p (some c) })
      | some h ↦ link q' c (last_from q'.next fuel h)
    ]

-- The loop of `pick_next_coro` over the priorities below `p`, the highest first.
pub pick_from : Links → ℕ → ℕ × Links
pick_from q zero = (idle, q)
pick_from q (suc p) = elim (q.heads p) [
  | none ↦ pick_from q p
  | some c ↦ (c, record { heads = upd q.heads p (q.next c); next = upd q.next c none })
]

pub pick_next_coro : Links → ℕ × Links
unfolding pick_from
pick_next_coro q = pick_from q priority_levels

-- The variables of the file.
pub record Sched : Type 0 where
  pub pool : ℕ → Coro
  pub used : ℕ → Bool
  pub links : Links
  pub current : ℕ
  pub next_coro_id : ℕ
  pub preempt_pending : Bool
  pub ticks_since_switch : ℕ
  pub cancel_broadcast : Bool

pub scheduler_kernel_timer_tick : Sched → Sched
scheduler_kernel_timer_tick s =
    let ticks = (s.ticks_since_switch + 1) % 2 ^ 32 in
    if leb preempt_ticks ticks
    then record s {
      preempt_pending =
          if not (s.current == idle) && same_state (s.pool s.current).state running
          then true
          else s.preempt_pending;
      ticks_since_switch = 0;
    }
    else record s { ticks_since_switch = ticks }

abbrev pub set_state : Sched → ℕ → CoroState → Sched
set_state s c st = record s { pool = upd s.pool c (record (s.pool c) { state = st }) }

-- the state with the queues of a call that may not end
pub with_links : Sched → Option Links → Option Sched
with_links s none = none
with_links s (some q) = some (record s { links = q })

pub enqueue_coro : ℕ → Sched → ℕ → Option Sched
enqueue_coro fuel s c = with_links s (enqueue fuel s.links (s.pool c).priority c)

-- the test of `wake_sleeping`
pub is_due : Sched → ℕ → ℕ → Bool
is_due s now i =
    s.used i
    && same_state (s.pool i).state waiting
    && not ((s.pool i).wake_tick == 0)
    && leb (s.pool i).wake_tick now

-- the coroutine as `wake_sleeping` leaves it
abbrev pub woken : Sched → ℕ → Sched
woken s i = record s { pool = upd s.pool i (record (s.pool i) { state = ready; wake_tick = 0 }) }

-- one round of the loop of `wake_sleeping`
pub wake_one : ℕ → ℕ → ℕ → Sched → Option Sched
wake_one fuel now i s = if is_due s now i then enqueue_coro fuel (woken s i) i else some s

-- that loop from index `i` on, with `rounds` left
pub wake_from : ℕ → ℕ → ℕ → ℕ → Sched → Option Sched
wake_from fuel now zero i s = some s
wake_from fuel now (suc rounds) i s = elim (wake_one fuel now i s) [
  | none ↦ none
  | some s' ↦ wake_from fuel now rounds (i + 1) s'
]

pub wake_sleeping : ℕ → ℕ → Sched → Option Sched
unfolding wake_from
wake_sleeping fuel now s = wake_from fuel now max_coroutines 0 s

-- the end of `coro_yield`, with `next` picked
pub switch_to : Sched → ℕ → ℕ × Links → Sched
switch_to s prev (next, q) =
    let s' = record s { links = q } in
    if next == prev
    then set_state s' prev running
    else record (set_state s' next running) { current = next; ticks_since_switch = 0 }

-- `if (prev->state == CORO_READY) enqueue(prev);`
pub requeue : ℕ → Sched → ℕ → Option Sched
requeue fuel s prev =
    if same_state (s.pool prev).state ready then enqueue_coro fuel s prev else some s

-- `coro_yield`, where `now` is what `timer_get_ticks` gives
pub coro_yield : ℕ → ℕ → Sched → Option Sched
coro_yield fuel now s =
    let prev = s.current in
    let s0 = record s { preempt_pending = false } in
    let s1 = if same_state (s0.pool prev).state running then set_state s0 prev ready else s0 in
    elim (wake_sleeping fuel now s1) [
      | none ↦ none
      | some s2 ↦ elim (requeue fuel s2 prev) [
        | none ↦ none
        | some s3 ↦ some (switch_to s3 prev (pick_next_coro s3.links))
      ]
    ]

-- `coro_sleep`, where `now` is the time at the call and `later` the time in `coro_yield`
pub coro_sleep : ℕ → ℕ → ℕ → ℕ → Sched → Option Sched
coro_sleep fuel now later ms s =
    let c = s.current in
    let tick = (now + ms * timer_freq_hz % 2 ^ 64 / 1000) % 2 ^ 64 in
    coro_yield fuel later
      (record s { pool = upd s.pool c (record (s.pool c) { state = waiting; wake_tick = tick }) })

-- `coro_exit`; the coroutine is not resumed
pub coro_exit : ℕ → ℕ → Sched → Option Sched
coro_exit fuel now s = coro_yield fuel now (set_state s s.current dead)
