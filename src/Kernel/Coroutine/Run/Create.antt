-- ===== src/Kernel/Coroutine/Run/Create.antt =====
-- `coro_create`: the coroutine that it takes, and the queue that it puts it into.
use aev_os.Common.{
  ℕ, zero, suc, ◌+◌, ◌<◌, ◌≤◌, ◌≡◌, refl, ap, ◌∙◌, Bool, true, false, Option, none, some, List, [],
  ◌∷◌, ◌++◌, arith, length, ℕ_discrete,
}
use aev_os.Kernel.Coroutine.{ready, upd, max_coroutines, Links, Sched, with_links, enqueue_coro}
use aev_os.Kernel.Coroutine.Chain.{NotIn, IsChain-upd, upd_self}
use aev_os.Kernel.Coroutine.Queue.{Holds, Gives, enqueue-Holds}
use aev_os.Kernel.Coroutine.Run.{find_unused, alloc_found, fill_in, created, create_at, coro_create}

find_unused-first :
    (used : ℕ → Bool) (rounds i c : ℕ)
    → i ≤ c
    → c < i + rounds
    → used c ≡ false
    → ((j : ℕ) → j < c → used j ≡ true)
    → find_unused used rounds i ≡ some c
unfolding find_unused
find_unused-first used zero i c lo hi free before = absurd (omega arith)
find_unused-first used (suc rounds) i c lo hi free before = elim (ℕ_discrete i c) [
  | yes e ↦ let f : used i ≡ false = ap used e ∙ free in rw f (ap some e)
  | no ne ↦
      let t : used i ≡ true = before i (omega arith) in
      rw t (find_unused-first used rounds (i + 1) c (omega arith) (omega arith) free before)
]

-- A pointer of a coroutine in no queue does not matter.
Holds-next :
    (q : Links) (l : ℕ → List ℕ) (c : ℕ) (v : Option ℕ)
    → Holds q l
    → ((p : ℕ) → NotIn c (l p))
    → Holds (record q { next = upd q.next c v }) l
Holds-next q l c v h out = record {
  chain = λ p. IsChain-upd q.next (q.heads p) (l p) c v (out p) (h.chain p);
  once = h.once;
  apart = h.apart;
}

-- The call returns `c`, in use, ready and with the id `n`, and the queues hold the lists.
abbrev pub Creates : ℕ → ℕ → (ℕ → List ℕ) → Option (Option ℕ × Sched) → Type 0
Creates c n l none = ⊥
Creates c n l (some (none, s)) = ⊥
Creates c n l (some (some d, s)) =
    (d ≡ c) × (s.used c ≡ true) × ((s.pool c).state ≡ ready) × ((s.pool c).id ≡ n) × Holds s.links l

created-Creates :
    (s : Sched) (c n p : ℕ) (l : ℕ → List ℕ) (r : Option Links)
    → (s.used c ≡ true) × ((s.pool c).state ≡ ready) × ((s.pool c).id ≡ n)
    → Gives r l
    → Creates c n l (created c (with_links s r))
unfolding created with_links
created-Creates s c n p l none h g = absurd g
created-Creates s c n p l (some q) (used, state, id) g = (refl, used, state, id, g)

-- With a stack and with c the first coroutine of the pool that is not in use, in no queue,
-- coro_create ends and returns c, in use, ready and with the next id, appended to the list of its
-- priority.
pub coro_create-Creates :
    (fuel : ℕ) (s : Sched) (prio c : ℕ) (l : ℕ → List ℕ)
    → Holds s.links l
    → c < max_coroutines
    → s.used c ≡ false
    → ((j : ℕ) → j < c → s.used j ≡ true)
    → ((p : ℕ) → NotIn c (l p))
    → length (l prio) ≤ fuel
    → Creates c s.next_coro_id (upd l prio (l prio ++ (c ∷ []))) (coro_create fuel s prio true)
unfolding coro_create create_at enqueue_coro fill_in alloc_found
coro_create-Creates fuel s prio c l v lt free before out h =
    let found =
      find_unused-first s.used max_coroutines 0 c (omega arith) (omega arith) free before in
    let s' = fill_in (alloc_found s c) c prio in
    let self = upd_self (alloc_found s c).pool c (record ((alloc_found s c).pool c) {
      priority = prio;
      state = ready;
      wake_tick = 0;
      stack = true;
    }) in
    let old = upd_self s.pool c (record (s.pool c) { id = s.next_coro_id }) in
    let p : (s'.pool c).priority ≡ prio = ap (λ t. t.priority) self in
    rw (found, p)
      (created-Creates s' c s.next_coro_id prio (upd l prio (l prio ++ (c ∷ []))) _
        (upd_self s.used c true, ap (λ t. t.state) self, ap (λ t. t.id) self ∙ ap (λ t. t.id) old)
        (enqueue-Holds fuel s'.links l prio c (Holds-next s.links l c none v out) out h))
