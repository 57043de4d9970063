-- ===== src/Container/Docker/Ids.antt =====
-- The ids of the containers.
use aev_os.Common.{
  one_if, ℕ, zero, suc, ◌+◌, ◌^◌, ◌≤◌, ◌<◌, ◌≡◌, refl, ap, Option, none, some, List, [], ◌∷◌, ◌==◌,
  arith, Bool-cases, inl, inr, length, get_or, set, replicate,
}
use aev_os.Container.Ifc.{flow_allowed, dom_container, dom_host}
use aev_os.Container.Docker.{
  Docker, ContainerSlot, CtrState, created, running, stopped, Call, call_run, call_stop, call_rm,
  call, calls, docker_init, empty_slot, started, run_in, lc_docker_run, slot_alloc, stop_at,
  lc_docker_stop, rm_at, lc_docker_rm, find_slot, state_at,
}

-- how many slots have the id `k`
unfoldable pub with_id : ℕ → List ContainerSlot → ℕ
with_id k [] = 0
with_id k (s ∷ ss) = one_if (s.id == k) + with_id k ss

with_id-set :
    (k : ℕ) (ss : List ContainerSlot) (i : ℕ) (s : ContainerSlot)
    → with_id k (set ss i s) ≤ with_id k ss + one_if (s.id == k)
unfolding with_id
with_id-set k [] i s = omega arith
with_id-set k (x ∷ ss) zero s = omega arith
with_id-set k (x ∷ ss) (suc i) s = omega (arith, with_id-set k ss i s)

-- A slot that keeps its id.
with_id-set_same :
    (k : ℕ) (ss : List ContainerSlot) (i : ℕ) (s : ContainerSlot)
    → s.id ≡ (get_or ss i empty_slot).id
    → with_id k (set ss i s) ≤ with_id k ss
unfolding with_id
with_id-set_same k [] i s e = omega arith
with_id-set_same k (x ∷ ss) zero s e = omega (arith, ap (λ n. one_if (n == k)) e)
with_id-set_same k (x ∷ ss) (suc i) s e = omega (arith, with_id-set_same k ss i s e)

-- The live ids are below the counter, and no two slots have the same.
record AreFresh (d : Docker) : Type 0 where
  single : (k : ℕ) → 0 < k → with_id k d.slots ≤ 1
  below : (k : ℕ) → d.next_id ≤ k → with_id k d.slots ≡ 0
  began : 1 ≤ d.next_id

record Steps (d d' : Docker) : Type 0 where
  fresh : AreFresh d'
  next : d'.next_id ≤ d.next_id + 1

fewer_Steps :
    (d d' : Docker)
    → AreFresh d
    → ((k : ℕ) → 0 < k → with_id k d'.slots ≤ with_id k d.slots)
    → d'.next_id ≡ d.next_id
    → Steps d d'
fewer_Steps d d' v le n = record {
  fresh = record {
    single = λ k p. omega (arith, le k p, v.single k p);
    below = λ k h.
        omega (arith, le k (omega (arith, v.began, n)), v.below k (omega (arith, n)), n, v.began);
    began = omega (arith, v.began, n);
  };
  next = omega (arith, n);
}

run_in-Steps :
    (d : Docker) (image : List ℕ) (f : Option ℕ)
    → AreFresh d
    → d.next_id + 1 < 2 ^ 64
    → Steps d (run_in d image f).1
unfolding run_in started
run_in-Steps d image none v room = fewer_Steps d d v (λ k p. omega arith) refl
run_in-Steps d image (some i) v room =
    let more = λ (k : ℕ). with_id-set k d.slots i (started d.next_id image) in
    record {
      fresh = record {
        single = λ k p. ground (arith, more k, v.single k p, v.below k);
        below = λ k h. ground (arith, more k, v.below k (omega arith));
        began = omega arith;
      };
      next = omega arith;
    }

stop_at-Steps : (d : Docker) (f : Option ℕ) (s : CtrState) → AreFresh d → Steps d (stop_at d f s).1
unfolding stop_at
stop_at-Steps d none s v = fewer_Steps d d v (λ k p. omega arith) refl
stop_at-Steps d (some i) stopped v = fewer_Steps d d v (λ k p. omega arith) refl
stop_at-Steps d (some i) running v =
    fewer_Steps d _ v (λ k p. with_id-set_same k d.slots i _ refl) refl
stop_at-Steps d (some i) created v =
    fewer_Steps d _ v (λ k p. with_id-set_same k d.slots i _ refl) refl

rm_at-Steps : (d : Docker) (f : Option ℕ) (s : CtrState) → AreFresh d → Steps d (rm_at d f s).1
unfolding rm_at
rm_at-Steps d none s v = fewer_Steps d d v (λ k p. omega arith) refl
rm_at-Steps d (some i) stopped v =
    fewer_Steps d _ v (λ k p. ground (arith, with_id-set k d.slots i empty_slot)) refl
rm_at-Steps d (some i) running v = fewer_Steps d d v (λ k p. omega arith) refl
rm_at-Steps d (some i) created v = fewer_Steps d d v (λ k p. omega arith) refl

call-Steps : (d : Docker) (c : Call) → AreFresh d → d.next_id + 1 < 2 ^ 64 → Steps d (call d c).1
unfolding call lc_docker_run lc_docker_stop lc_docker_rm
call-Steps d (call_run policy []) v room = fewer_Steps d d v (λ k p. omega arith) refl
call-Steps d (call_run policy (c ∷ image)) v room =
    elim (Bool-cases (flow_allowed policy dom_container dom_host 3)) [
      | inl a ↦ rw a (run_in-Steps d (c ∷ image) (slot_alloc d.slots 0) v room)
      | inr a ↦ rw a (fewer_Steps d d v (λ k p. omega arith) refl)
    ]
call-Steps d (call_stop q) v room =
    stop_at-Steps d (find_slot d.slots q) (state_at d (find_slot d.slots q)) v
call-Steps d (call_rm q) v room =
    rm_at-Steps d (find_slot d.slots q) (state_at d (find_slot d.slots q)) v

calls-AreFresh :
    (cs : List Call) (d : Docker)
    → AreFresh d
    → d.next_id + length cs < 2 ^ 64
    → AreFresh (calls d cs)
unfolding calls
calls-AreFresh [] d v room = v
calls-AreFresh (c ∷ cs) d v room =
    let s = call-Steps d c v (omega arith) in
    calls-AreFresh cs (call d c).1 s.fresh (omega (arith, s.next))

no_ids : (k n : ℕ) → 0 < k → with_id k (replicate n empty_slot) ≡ 0
unfolding with_id replicate
no_ids k zero p = refl
no_ids k (suc n) p = ground (arith, no_ids k n p)

-- Behind fewer than 2^63 calls of run, stop and rm, no two slots have the same id other than 0, and
-- none has an id that is still to be given.
pub with_id-calls :
    (cs : List Call) (k : ℕ)
    → length cs < 2 ^ 63
    → 0 < k
    → (with_id k (calls docker_init cs).slots ≤ 1)
      × ((calls docker_init cs).next_id ≤ k → with_id k (calls docker_init cs).slots ≡ 0)
with_id-calls cs k room p =
    let start : AreFresh docker_init =
      unfold docker_init in
      record {
        single = λ j q. omega (arith, no_ids j 16 q);
        below = λ j h. no_ids j 16 (omega arith);
        began = omega arith;
      } in
    let v = calls-AreFresh cs docker_init start (unfold docker_init in omega arith) in
    (v.single k p, v.below k)
