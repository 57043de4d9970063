-- ===== src/Kernel/Coroutine/Yield.antt =====
-- `coro_yield`: the coroutine goes behind the others of its priority, and the first of the highest
-- priority runs.
use aev_os.Common.{
  ℕ, zero, suc, ◌+◌, ◌≤◌, ◌≡◌, refl, ap, sym, subst, ◌∙◌, true, false, Option, none, some, List, [],
  ◌∷◌, ◌++◌, ◌==◌, arith, Bool-cases, inl, inr, length, ℕ_discrete,
}
use aev_os.Kernel.Coroutine.{
  ready, running, same_state, Links, Sched, priority_levels, upd, max_coroutines, enqueue,
  pick_next_coro, set_state, with_links, enqueue_coro, is_due, wake_one, wake_from, wake_sleeping,
  requeue, switch_to, coro_yield,
}
use aev_os.Kernel.Coroutine.Chain.{NotIn, upd_self, upd_ne}
use aev_os.Kernel.Coroutine.Queue.{Holds, Gives, enqueue-Holds, pick_list, pick_next_coro-Holds}

-- no sleeping coroutine is due
abbrev pub NoneDue : Sched → ℕ → Type 0
NoneDue s now = (i : ℕ) → is_due s now i ≡ false

wake_from_none :
    (fuel now rounds i : ℕ) (s : Sched) → NoneDue s now → wake_from fuel now rounds i s ≡ some s
unfolding wake_from wake_one
wake_from_none fuel now zero i s h = refl
wake_from_none fuel now (suc rounds) i s h =
    rw (wake_from, h i) (wake_from_none fuel now rounds (i + 1) s h)

-- Making a coroutine ready makes no sleeping one due.
set_state-NoneDue : (s : Sched) (now c : ℕ) → NoneDue s now → NoneDue (set_state s c ready) now
unfolding is_due
set_state-NoneDue s now c h i = elim (ℕ_discrete c i) [
  | yes e ↦
      subst (λ k. is_due (set_state s c ready) now k ≡ false) e
        (rw (upd_self s.pool c (record (s.pool c) { state = ready })) (ground arith))
  | no ne ↦ rw (upd_ne s.pool c i (record (s.pool c) { state = ready }) ne) (h i)
]

-- The coroutine that runs is the one picked from the lists `l`, and the queues hold what is left.
abbrev pub RunsNext : (ℕ → List ℕ) → Option Sched → Type 0
RunsNext l none = ⊥
RunsNext l (some s) =
    (s.current ≡ (pick_list l priority_levels).0)
    × Holds s.links (pick_list l priority_levels).1
    × ((s.pool s.current).state ≡ running)

-- `switch_to` makes the coroutine given the running one, also if it is the one that yields.
switch_to_runs :
    (s : Sched) (n : ℕ) (q : Links)
    → let s' = switch_to s s.current (n, q) in
      (s'.current ≡ n) × (s'.links ≡ q) × ((s'.pool s'.current).state ≡ running)
unfolding switch_to
switch_to_runs s n q = elim (Bool-cases (n == s.current)) [
  | inl e ↦ rw e (
    ground arith,
    refl,
    ap (λ c. c.state) (upd_self s.pool s.current (record (s.pool s.current) { state = running })),
  )
  | inr e ↦
      rw e
        (refl, refl, ap (λ c. c.state) (upd_self s.pool n (record (s.pool n) { state = running })))
]

switch_to-RunsNext :
    (s : Sched) (l : ℕ → List ℕ)
    → Holds s.links l
    → RunsNext l (some (switch_to s s.current (pick_next_coro s.links)))
switch_to-RunsNext s l v =
    let (same, holds) = pick_next_coro-Holds s.links l v in
    let (e, e', e'') = switch_to_runs s (pick_next_coro s.links).0 (pick_next_coro s.links).1 in
    (e ∙ same, subst (λ q. Holds q (pick_list l priority_levels).1) (sym e') holds, e'')

wake_sleeping_none : (fuel now : ℕ) (s : Sched) → NoneDue s now → wake_sleeping fuel now s ≡ some s
unfolding wake_sleeping
wake_sleeping_none fuel now s h = wake_from_none fuel now max_coroutines 0 s h

requeue_ready :
    (fuel : ℕ) (s : Sched) (l : ℕ → List ℕ) (c : ℕ)
    → (s.pool c).state ≡ ready
    → Holds s.links l
    → ((p : ℕ) → NotIn c (l p))
    → length (l (s.pool c).priority) ≤ fuel
    → let p = (s.pool c).priority in
      (q : Links) × (requeue fuel s c ≡ some (record s { links = q }))
      × Holds q (upd l p (l p ++ (c ∷ [])))
unfolding requeue enqueue_coro with_links
requeue_ready fuel s l c st v out h =
    let p = (s.pool c).priority in
    let e : same_state (s.pool c).state ready ≡ true = ap (λ t. same_state t ready) st in
    go e (enqueue fuel s.links p c) refl (enqueue-Holds fuel s.links l p c v out h)
  where
    go :
        same_state (s.pool c).state ready ≡ true
        → (r : Option Links) → enqueue fuel s.links (s.pool c).priority c ≡ r
        → Gives r (upd l (s.pool c).priority (l (s.pool c).priority ++ (c ∷ [])))
        → (q : Links) × (requeue fuel s c ≡ some (record s { links = q }))
          × Holds q (upd l (s.pool c).priority (l (s.pool c).priority ++ (c ∷ [])))
    go e none i g = absurd g
    go e (some q) i g = (q, rw (e, i) refl, g)

-- coro_yield by a running coroutine that is in no queue, while no sleeping one is due, ends: the
-- coroutine is appended to the list of its priority, and the first of the highest priority that has
-- one is taken off its list and runs.
pub coro_yield-RunsNext :
    (fuel now : ℕ) (s : Sched) (l : ℕ → List ℕ)
    → (s.pool s.current).state ≡ running
    → Holds s.links l
    → ((p : ℕ) → NotIn s.current (l p))
    → NoneDue s now
    → length (l (s.pool s.current).priority) ≤ fuel
    → RunsNext
        (upd l (s.pool s.current).priority (l (s.pool s.current).priority ++ (s.current ∷ [])))
        (coro_yield fuel now s)
unfolding coro_yield
coro_yield-RunsNext fuel now s l st v out due h =
    let c = s.current in
    let p = (s.pool c).priority in
    let s0 = record s { preempt_pending = false } in
    let s1 = set_state s0 c ready in
    let runs : same_state (s.pool c).state running ≡ true = ap (λ t. same_state t running) st in
    let due0 : NoneDue s0 now = λ i. unfold is_due in due i in
    let self : s1.pool c ≡ record (s.pool c) { state = ready } =
      upd_self s.pool c (record (s.pool c) { state = ready }) in
    let prio : (s1.pool c).priority ≡ p = ap (λ t. t.priority) self in
    let (q, e, holds) =
      requeue_ready fuel s1 l c (ap (λ t. t.state) self) v out
        (subst (λ k. length (l k) ≤ fuel) (sym prio) h) in
    rw (coro_yield, runs, wake_sleeping_none fuel now s1 (set_state-NoneDue s0 now c due0), e)
      (switch_to-RunsNext (record s1 { links = q }) (upd l p (l p ++ (c ∷ [])))
        (subst (λ k. Holds q (upd l k (l k ++ (c ∷ [])))) prio holds))
