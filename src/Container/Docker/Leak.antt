-- ===== src/Container/Docker/Leak.antt =====
-- The bundles: they are taken and never given back.
use aev_os.Common.{
  ℕ, zero, suc, ◌+◌, ◌-◌, ◌^◌, ◌≤◌, ◌<◌, ◌≡◌, refl, ap, ◌∙◌, sym, subst, Bool, true, false, not,
  Option, none, some, List, [], ◌∷◌, if◌then◌else◌, arith, Bool-cases, inl, inr, length,
  length-replicate, get_or, set, get_or-replicate, get_or-set_self, get_or-set_ne, ℕ_discrete,
}
use aev_os.Container.Ifc.{Policy, flow_allowed, dom_container, dom_host}
use aev_os.Container.Docker.{
  Docker, OciBundle, CtrState, created, running, stopped, Call, call_run, call_stop, call_rm, call,
  calls, docker_init, empty_bundle, bundle_of, register_in, lc_oci_register_bundle,
  lower_path_for_image, run_in, lc_docker_run, slot_alloc, stop_at, lc_docker_stop, rm_at,
  lc_docker_rm, find_slot, state_at,
}

-- the `k`-th bundle is in use, for the container started with the id `k + 1`
abbrev pub IsTaken : List OciBundle → ℕ → Type 0
IsTaken bs k =
    ((get_or bs k empty_bundle).used ≡ true) × ((get_or bs k empty_bundle).ctr_id ≡ k + 1)

length-register_in :
    (new : OciBundle) (bs : List OciBundle) → length (register_in new bs) ≡ length bs
unfolding register_in
length-register_in new [] = refl
length-register_in new (b ∷ bs) = ground (arith, length-register_in new bs)

-- The first bundle that is not in use is taken.
register_in-set :
    (new : OciBundle) (bs : List OciBundle) (m : ℕ)
    → ((k : ℕ) → k < m → k < length bs → (get_or bs k empty_bundle).used ≡ true)
    → (get_or bs m empty_bundle).used ≡ false
    → register_in new bs ≡ set bs m new
unfolding register_in
register_in-set new [] m taken free = refl
register_in-set new (b ∷ bs) zero taken free =
    ap (λ (t : Bool). if not t then new ∷ bs else b ∷ register_in new bs) free
register_in-set new (b ∷ bs) (suc m) taken free =
    ap (λ (t : Bool). if not t then new ∷ bs else b ∷ register_in new bs)
      (taken 0 (omega arith) (omega arith))
    ∙ ap (λ r. b ∷ r)
        (register_in-set new bs m (λ k lt inside. taken (suc k) (omega arith) (omega arith)) free)

-- With every bundle taken, nothing is registered.
register_in_full :
    (new : OciBundle) (bs : List OciBundle)
    → ((k : ℕ) → k < length bs → (get_or bs k empty_bundle).used ≡ true)
    → register_in new bs ≡ bs
unfolding register_in
register_in_full new [] taken = refl
register_in_full new (b ∷ bs) taken =
    ap (λ (t : Bool). if not t then new ∷ bs else b ∷ register_in new bs) (taken 0 (omega arith))
    ∙ ap (λ r. b ∷ r) (register_in_full new bs (λ k inside. taken (suc k) (omega arith)))

-- Of the `next_id - 1` containers started so far, the first 16 have a bundle, in their order.
record Leaks (d : Docker) : Type 0 where
  size : length d.bundles ≡ 16
  taken : (k : ℕ) → k < 16 → k + 1 < d.next_id → IsTaken d.bundles k
  free : (k : ℕ) → d.next_id ≤ k + 1 → (get_or d.bundles k empty_bundle).used ≡ false
  began : 1 ≤ d.next_id

-- A call starts one container at most.
record Steps (d d' : Docker) : Type 0 where
  leaks : Leaks d'
  next : d'.next_id ≤ d.next_id + 1

same_bundles :
    (d d' : Docker) → Leaks d → d'.bundles ≡ d.bundles → d'.next_id ≡ d.next_id → Steps d d'
same_bundles d d' l b n = record {
  leaks = record {
    size = ap length b ∙ l.size;
    taken = λ k lt before. subst (λ bs. IsTaken bs k) (sym b) (l.taken k lt (omega (arith, n)));
    free = λ k behind. ap (λ bs. (get_or bs k empty_bundle).used) b ∙ l.free k (omega (arith, n));
    began = omega (arith, l.began, n);
  };
  next = omega (arith, n);
}

-- A start takes the bundle of its id.
registered :
    (d : Docker) (image : List ℕ)
    → Leaks d
    → register_in (bundle_of d.next_id image (lower_path_for_image image 160)) d.bundles
      ≡ set d.bundles (d.next_id - 1) (bundle_of d.next_id image (lower_path_for_image image 160))
registered d image l =
    register_in-set (bundle_of d.next_id image (lower_path_for_image image 160)) d.bundles
      (d.next_id - 1) (λ k lt inside. (l.taken k (omega (arith, l.size)) (omega arith)).0)
      (l.free (d.next_id - 1) (omega arith))

run_in-Steps :
    (d : Docker) (image : List ℕ) (f : Option ℕ)
    → Leaks d
    → d.next_id + 1 < 2 ^ 64
    → Steps d (run_in d image f).1
unfolding run_in lc_oci_register_bundle
run_in-Steps d image none l room = same_bundles d d l refl refl
run_in-Steps d image (some i) l room =
    let new = bundle_of d.next_id image (lower_path_for_image image 160) in
    let m = d.next_id - 1 in
    let put = registered d image l in
    record {
      leaks = record {
        size = length-register_in new d.bundles ∙ l.size;
        taken = λ k lt before.
            subst (λ bs. IsTaken bs k) (sym put)
              (elim (ℕ_discrete k m) [
                | yes e ↦
                    subst (λ (x : OciBundle). (x.used ≡ true) × (x.ctr_id ≡ k + 1))
                      (sym (
                        ap (λ j. get_or (set d.bundles m new) j empty_bundle) e
                        ∙ get_or-set_self d.bundles m new empty_bundle (omega (arith, l.size, e))))
                      (unfold bundle_of in refl, unfold bundle_of in omega (arith, l.began, e))
                | no ne ↦
                    subst (λ (x : OciBundle). (x.used ≡ true) × (x.ctr_id ≡ k + 1))
                      (sym (get_or-set_ne d.bundles m k new empty_bundle (λ e. ne (sym e))))
                      (l.taken k lt (ground arith))
              ]);
        free = λ k behind.
            ap (λ bs. (get_or bs k empty_bundle).used) put
            ∙ ap (λ (x : OciBundle). x.used)
                (get_or-set_ne d.bundles m k new empty_bundle (λ e. omega (arith, e, l.began)))
            ∙ l.free k (omega arith);
        began = omega arith;
      };
      next = omega arith;
    }

lc_docker_run-Steps :
    (d : Docker) (policy : Policy) (image : List ℕ)
    → Leaks d
    → d.next_id + 1 < 2 ^ 64
    → Steps d (lc_docker_run d policy image).1
unfolding lc_docker_run
lc_docker_run-Steps d policy [] l room = same_bundles d d l refl refl
lc_docker_run-Steps d policy (c ∷ image) l room =
    elim (Bool-cases (flow_allowed policy dom_container dom_host 3)) [
      | inl a ↦ rw a (run_in-Steps d (c ∷ image) (slot_alloc d.slots 0) l room)
      | inr a ↦ rw a (same_bundles d d l refl refl)
    ]

stop_at-Steps : (d : Docker) (f : Option ℕ) (s : CtrState) → Leaks d → Steps d (stop_at d f s).1
unfolding stop_at
stop_at-Steps d none s l = same_bundles d d l refl refl
stop_at-Steps d (some i) stopped l = same_bundles d d l refl refl
stop_at-Steps d (some i) running l = same_bundles d _ l refl refl
stop_at-Steps d (some i) created l = same_bundles d _ l refl refl

rm_at-Steps : (d : Docker) (f : Option ℕ) (s : CtrState) → Leaks d → Steps d (rm_at d f s).1
unfolding rm_at
rm_at-Steps d none s l = same_bundles d d l refl refl
rm_at-Steps d (some i) stopped l = same_bundles d _ l refl refl
rm_at-Steps d (some i) running l = same_bundles d d l refl refl
rm_at-Steps d (some i) created l = same_bundles d d l refl refl

call-Steps : (d : Docker) (c : Call) → Leaks d → d.next_id + 1 < 2 ^ 64 → Steps d (call d c).1
unfolding call lc_docker_stop lc_docker_rm
call-Steps d (call_run policy image) l room = lc_docker_run-Steps d policy image l room
call-Steps d (call_stop q) l room =
    stop_at-Steps d (find_slot d.slots q) (state_at d (find_slot d.slots q)) l
call-Steps d (call_rm q) l room =
    rm_at-Steps d (find_slot d.slots q) (state_at d (find_slot d.slots q)) l

calls-Leaks :
    (cs : List Call) (d : Docker) → Leaks d → d.next_id + length cs < 2 ^ 64 → Leaks (calls d cs)
unfolding calls
calls-Leaks [] d l room = l
calls-Leaks (c ∷ cs) d l room =
    let s = call-Steps d c l (omega arith) in
    calls-Leaks cs (call d c).1 s.leaks (omega (arith, s.next))

docker_init-Leaks : Leaks docker_init
unfolding docker_init
docker_init-Leaks = record {
  size = length-replicate 16 empty_bundle;
  taken = λ k lt before. absurd (omega arith);
  free = λ k behind. ap (λ (x : OciBundle). x.used) (get_or-replicate 16 k empty_bundle);
  began = omega arith;
}

run_in_full :
    (d : Docker) (image : List ℕ) (f : Option ℕ)
    → Leaks d
    → 16 < d.next_id
    → (run_in d image f).1.bundles ≡ d.bundles
unfolding run_in lc_oci_register_bundle
run_in_full d image none l many = refl
run_in_full d image (some i) l many =
    register_in_full (bundle_of d.next_id image (lower_path_for_image image 160)) d.bundles
      (λ k inside. (l.taken k (omega (arith, l.size)) (omega (arith, l.size))).0)

lc_docker_run_full :
    (d : Docker) (policy : Policy) (image : List ℕ)
    → Leaks d
    → 16 < d.next_id
    → (lc_docker_run d policy image).1.bundles ≡ d.bundles
unfolding lc_docker_run
lc_docker_run_full d policy [] l many = refl
lc_docker_run_full d policy (c ∷ image) l many =
    elim (Bool-cases (flow_allowed policy dom_container dom_host 3)) [
      | inr a ↦ rw a refl
      | inl a ↦ rw a (run_in_full d (c ∷ image) (slot_alloc d.slots 0) l many)
    ]

-- Behind any calls of run, stop and rm from the start on, fewer than 2^63, each of the first 16
-- containers started has a bundle, in the order of the starts, also once it was removed; and once
-- 16 containers were started, lc_docker_run changes no bundle.
pub bundles-lc_docker_run :
    (cs : List Call) (policy : Policy) (image : List ℕ)
    → length cs < 2 ^ 63
    → ((k : ℕ)
        → k < 16
        → k + 1 < (calls docker_init cs).next_id
        → IsTaken (calls docker_init cs).bundles k)
      × (16 < (calls docker_init cs).next_id
          → (lc_docker_run (calls docker_init cs) policy image).1.bundles
            ≡ (calls docker_init cs).bundles)
bundles-lc_docker_run cs policy image room =
    let l = calls-Leaks cs docker_init docker_init-Leaks (unfold docker_init in omega arith) in
    (l.taken, lc_docker_run_full (calls docker_init cs) policy image l)
