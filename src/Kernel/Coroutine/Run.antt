-- ===== src/Kernel/Coroutine/Run.antt =====
-- src/kernel/sched/coroutine.c: the pool of coroutines and the loop of `scheduler_run`.
-- Whether `kmalloc` gives a stack is an argument of `coro_create`. `scheduler_run` does not return; a
-- round of its loop is a function.
pub mod Create
use mathlib.Core.Path.{◌≡◌, refl}
use aev_os.Common.{
  ℕ, zero, suc, ◌+◌, ◌%◌, ◌^◌, Bool, true, false, not, ◌&&◌, Option, none, some, leb, ◌==◌,
  if◌then◌else◌,
}
use aev_os.Kernel.Coroutine.{
  ready, running, dead, same_state, Coro, max_coroutines, idle, upd, Links, Sched, set_state,
  enqueue_coro, pick_next_coro, wake_sleeping,
}

pub scheduler_preempt_clear : Sched → Sched
scheduler_preempt_clear s = record s { preempt_pending = false }

pub scheduler_cancel_broadcast_set : Sched → Bool → Sched
scheduler_cancel_broadcast_set s active = record s { cancel_broadcast = active }

-- the loop of `alloc_coro` from index `i` on, with `rounds` left: the first that is not used
pub find_unused : (ℕ → Bool) → ℕ → ℕ → Option ℕ
find_unused used zero i = none
find_unused used (suc rounds) i =
    let rest = find_unused used rounds (i + 1) in if not (used i) then some i else rest

-- `alloc_coro`, with the coroutine found
pub alloc_found : Sched → ℕ → Sched
alloc_found s i = record s {
  used = upd s.used i true;
  pool = upd s.pool i (record (s.pool i) { id = s.next_coro_id });
  next_coro_id = (s.next_coro_id + 1) % 2 ^ 32;
}

-- `idle_coro` is not in the pool, and is left alone.
pub free_coro : Sched → ℕ → Sched
free_coro s c = if leb max_coroutines c then s else record s {
  pool = upd s.pool c (record (s.pool c) { stack = false });
  used = upd s.used c false;
}

-- the coroutine as `coro_create` fills it in
pub fill_in : Sched → ℕ → ℕ → Sched
fill_in s c prio = record s {
  pool =
      upd s.pool c
        (record (s.pool c) { priority = prio; state = ready; wake_tick = 0; stack = true });
  links = record s.links { next = upd s.links.next c none };
}

-- the end of `coro_create`: `enqueue(c); return c;`
pub created : ℕ → Option Sched → Option (Option ℕ × Sched)
created c none = none
created c (some s) = some (some c, s)

-- `coro_create` with what `alloc_coro` found
pub create_at : ℕ → Sched → ℕ → Bool → Option ℕ → Option (Option ℕ × Sched)
create_at fuel s prio has_stack none = some (none, s)
create_at fuel s prio has_stack (some c) =
    let s' = alloc_found s c in
    if not has_stack
    then some (none, free_coro s' c)
    else created c (enqueue_coro fuel (fill_in s' c prio) c)

-- `coro_create`: the coroutine or `none` for a null pointer, and the state
pub coro_create : ℕ → Sched → ℕ → Bool → Option (Option ℕ × Sched)
unfolding find_unused
coro_create fuel s prio has_stack =
    create_at fuel s prio has_stack (find_unused s.used max_coroutines 0)

pub coro_init : Sched → Sched
coro_init s = record s {
  links = record { heads = λ p. none; next = upd s.links.next idle none };
  used = λ c. false;
  pool =
      upd s.pool idle (record {
        state = running;
        priority = 0;
        id = s.next_coro_id;
        wake_tick = 0;
        stack = false;
      });
  next_coro_id = (s.next_coro_id + 1) % 2 ^ 32;
  current = idle;
}

-- the loop that reclaims dead coroutines, from index `i` on, with `rounds` left
pub reclaim_from : ℕ → ℕ → Sched → Sched
reclaim_from zero i s = s
reclaim_from (suc rounds) i s =
    reclaim_from rounds (i + 1)
      (if s.used i && same_state (s.pool i).state dead then free_coro s i else s)

-- `if (prev->state == CORO_READY && prev != &idle_coro) enqueue(prev);`
pub requeue_prev : ℕ → Sched → ℕ → Option Sched
requeue_prev fuel s prev =
    if same_state (s.pool prev).state ready && not (prev == idle)
    then enqueue_coro fuel s prev
    else some s

-- the end of a round, where `next` runs
pub run_next : ℕ → ℕ → Option Sched → Option Sched
run_next next prev none = none
run_next next prev (some s) =
    let s' = record (set_state s next running) { current = next } in
    some (if not (next == prev) then record s' { ticks_since_switch = 0 } else s')

-- a round with the coroutine picked
pub run_picked : ℕ → Sched → ℕ × Links → Option Sched
run_picked fuel s (next, q) =
    let s' = record s { links = q } in
    let prev = s.current in
    let s'' = if same_state (s'.pool prev).state running then set_state s' prev ready else s' in
    if (next == idle) && (prev == idle)
    then some s'
    else run_next next prev (requeue_prev fuel s'' prev)

-- a round once the sleepers are awake
pub run_awake : ℕ → Option Sched → Option Sched
unfolding reclaim_from
run_awake fuel none = none
run_awake fuel (some s) =
    let s' = reclaim_from max_coroutines 0 s in run_picked fuel s' (pick_next_coro s'.links)

pub scheduler_round : ℕ → ℕ → Sched → Option Sched
scheduler_round fuel now s = run_awake fuel (wake_sleeping fuel now s)
