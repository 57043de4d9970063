-- ===== src/Container/Docker.antt =====
-- src/container/lc_container.c and oci_runtime.c: the slots of the containers and the bundles that
-- belong to them, with run, stop, rm and ps.
-- An array is the list of its elements. The strings of slots and bundles are what lies before the
-- terminator, cut to the arrays' sizes. A call returns whether it succeeds; the messages that it
-- writes, and the calls that only log, are left out. The information-flow policy is an argument, and
-- null arguments are left out.
pub mod Leak
pub mod Ids
mod Tests
use aev_os.Common.{
  ℕ, zero, suc, ◌+◌, ◌-◌, ◌*◌, ◌/◌, ◌%◌, ◌^◌, Bool, true, false, not, ◌&&◌, ◌||◌, Option, none,
  some, List, [], ◌∷◌, ◌++◌, ltb, leb, ◌==◌, if◌then◌else◌, get_or, set, replicate, length, take,
}
use aev_os.Common.Int.{is_zero}
use aev_os.Clib.Str.{strlen, strcmp, strncmp, emit_decimal}
use aev_os.Container.Ifc.{Policy, flow_allowed, dom_container, dom_host}

abbrev pub lc_max_containers : ℕ
lc_max_containers = 16

abbrev pub lc_image_name_len : ℕ
lc_image_name_len = 96

abbrev pub lc_oci_max_bundles : ℕ
lc_oci_max_bundles = 16

pub data CtrState : Type 0 where
  created running stopped : CtrState

pub record ContainerSlot : Type 0 where
  pub id : ℕ
  pub id_str : List ℕ
  pub name : List ℕ
  pub image : List ℕ
  pub state : CtrState

pub record OciBundle : Type 0 where
  pub ctr_id : ℕ
  pub image : List ℕ
  pub lower : List ℕ
  pub upper : List ℕ
  pub work : List ℕ
  pub rootfs : List ℕ
  pub used : Bool

-- `g_slots`, `g_next_id` and `g_bundles`
pub record Docker : Type 0 where
  pub slots : List ContainerSlot
  pub next_id : ℕ
  pub bundles : List OciBundle

abbrev pub empty_slot : ContainerSlot
empty_slot = record { id = 0; id_str = []; name = []; image = []; state = created }

abbrev pub empty_bundle : OciBundle
empty_bundle = record {
  ctr_id = 0;
  image = [];
  lower = [];
  upper = [];
  work = [];
  rootfs = [];
  used = false;
}

-- the globals at the start, and behind `lc_oci_init`
unfoldable pub docker_init : Docker
docker_init = record {
  slots = replicate lc_max_containers empty_slot;
  next_id = 1;
  bundles = replicate lc_oci_max_bundles empty_bundle;
}

-- the index of the first free slot from `i` on
unfoldable pub slot_alloc : List ContainerSlot → ℕ → Option ℕ
slot_alloc [] i = none
slot_alloc (s ∷ ss) i = let rest = slot_alloc ss (i + 1) in if s.id == 0 then some i else rest

-- the loop of `find_slot`, with the last slot whose id begins with `q`, and their number
unfoldable pub find_from : List ℕ → List ContainerSlot → ℕ → Option ℕ → ℕ → Option ℕ
find_from q [] i prefix prefix_hits = if prefix_hits == 1 then prefix else none
find_from q (s ∷ ss) i prefix prefix_hits =
    let skip = find_from q ss (i + 1) prefix prefix_hits in
    let hit = find_from q ss (i + 1) (some i) (prefix_hits + 1) in
    if s.id == 0
    then skip
    else if is_zero (strcmp s.id_str q) || is_zero (strcmp s.name q)
    then some i
    else if leb 4 (strlen q) && is_zero (strncmp s.id_str q (strlen q))
    then hit
    else skip

unfoldable pub find_slot : List ContainerSlot → List ℕ → Option ℕ
unfolding find_from
find_slot slots [] = none
find_slot slots (c ∷ q) = find_from (c ∷ q) slots 0 none 0

-- "aevos_lc_"
abbrev pub id_prefix : List ℕ
id_prefix = 97 ∷ 101 ∷ 118 ∷ 111 ∷ 115 ∷ 95 ∷ 108 ∷ 99 ∷ 95 ∷ []

-- "focused_"
abbrev pub name_prefix : List ℕ
name_prefix = 102 ∷ 111 ∷ 99 ∷ 117 ∷ 115 ∷ 101 ∷ 100 ∷ 95 ∷ []

-- "/lc/images/"
abbrev pub images_dir : List ℕ
images_dir = 47 ∷ 108 ∷ 99 ∷ 47 ∷ 105 ∷ 109 ∷ 97 ∷ 103 ∷ 101 ∷ 115 ∷ 47 ∷ []

-- "/rootfs"
abbrev pub rootfs_dir : List ℕ
rootfs_dir = 47 ∷ 114 ∷ 111 ∷ 111 ∷ 116 ∷ 102 ∷ 115 ∷ []

-- "/lc/overlay/"
abbrev pub overlay_dir : List ℕ
overlay_dir = 47 ∷ 108 ∷ 99 ∷ 47 ∷ 111 ∷ 118 ∷ 101 ∷ 114 ∷ 108 ∷ 97 ∷ 121 ∷ 47 ∷ []

-- "/upper", "/work" and "/merged"
abbrev pub upper_dir : List ℕ
upper_dir = 47 ∷ 117 ∷ 112 ∷ 112 ∷ 101 ∷ 114 ∷ []

abbrev pub work_dir : List ℕ
work_dir = 47 ∷ 119 ∷ 111 ∷ 114 ∷ 107 ∷ []

abbrev pub merged_dir : List ℕ
merged_dir = 47 ∷ 109 ∷ 101 ∷ 114 ∷ 103 ∷ 101 ∷ 100 ∷ []

abbrev pub lower_path_for_image : List ℕ → ℕ → List ℕ
lower_path_for_image image cap = take (cap - 1) (images_dir ++ image ++ rootfs_dir)

unfoldable pub bundle_of : ℕ → List ℕ → List ℕ → OciBundle
bundle_of ctr_id image lower_root = record {
  ctr_id = ctr_id;
  image = take 95 image;
  lower = take 127 lower_root;
  upper = take 127 (overlay_dir ++ emit_decimal ctr_id ++ upper_dir);
  work = take 127 (overlay_dir ++ emit_decimal ctr_id ++ work_dir);
  rootfs = take 127 (overlay_dir ++ emit_decimal ctr_id ++ merged_dir);
  used = true;
}

-- `oci_alloc_slot` and what is written to the bundle found
unfoldable pub register_in : OciBundle → List OciBundle → List OciBundle
register_in new [] = []
register_in new (b ∷ bs) = if not b.used then new ∷ bs else b ∷ register_in new bs

unfoldable pub lc_oci_register_bundle : List OciBundle → ℕ → List ℕ → List ℕ → List OciBundle
unfolding register_in
lc_oci_register_bundle bs ctr_id image lower_root =
    register_in (bundle_of ctr_id image lower_root) bs

unfoldable pub started : ℕ → List ℕ → ContainerSlot
started id image = record {
  id = id;
  id_str = take 23 (id_prefix ++ emit_decimal id);
  name = take 63 (name_prefix ++ emit_decimal id);
  image = take (lc_image_name_len - 1) image;
  state = running;
}

-- `lc_docker_run` with the slot found
unfoldable pub run_in : Docker → List ℕ → Option ℕ → Bool × Docker
run_in d image none = (false, d)
run_in d image (some i) = (
  true,
  record {
    slots = set d.slots i (started d.next_id image);
    next_id = (d.next_id + 1) % 2 ^ 64;
    bundles = lc_oci_register_bundle d.bundles d.next_id image (lower_path_for_image image 160);
  },
)

unfoldable pub lc_docker_run : Docker → Policy → List ℕ → Bool × Docker
unfolding run_in
lc_docker_run d policy [] = (false, d)
lc_docker_run d policy (c ∷ image) =
    if not (flow_allowed policy dom_container dom_host 3)
    then (false, d)
    else run_in d (c ∷ image) (slot_alloc d.slots 0)

abbrev pub slot_at : Docker → ℕ → ContainerSlot
slot_at d i = get_or d.slots i empty_slot

unfoldable pub stop_at : Docker → Option ℕ → CtrState → Bool × Docker
stop_at d none state = (false, d)
stop_at d (some i) stopped = (false, d)
stop_at d (some i) state =
    (true, record d { slots = set d.slots i (record (slot_at d i) { state = stopped }) })

abbrev pub state_at : Docker → Option ℕ → CtrState
state_at d none = created
state_at d (some i) = (slot_at d i).state

unfoldable pub lc_docker_stop : Docker → List ℕ → Bool × Docker
unfolding stop_at find_slot
lc_docker_stop d q = let f = find_slot d.slots q in stop_at d f (state_at d f)

-- `lc_docker_rm` with the slot found and its state; `slot_free` clears the slot
unfoldable pub rm_at : Docker → Option ℕ → CtrState → Bool × Docker
rm_at d none state = (false, d)
rm_at d (some i) stopped = (true, record d { slots = set d.slots i empty_slot })
rm_at d (some i) state = (false, d)

unfoldable pub lc_docker_rm : Docker → List ℕ → Bool × Docker
unfolding rm_at find_slot
lc_docker_rm d q = let f = find_slot d.slots q in rm_at d f (state_at d f)

-- what `lc_docker_ps` writes, at most `max_slots` slots
unfoldable pub lc_docker_ps : List ContainerSlot → ℕ → List ContainerSlot
lc_docker_ps ss zero = []
lc_docker_ps [] (suc n) = []
lc_docker_ps (s ∷ ss) (suc n) = if s.id == 0 then lc_docker_ps ss (suc n) else s ∷ lc_docker_ps ss n

-- a call
pub data Call : Type 0 where
  call_run : Policy → List ℕ → Call
  call_stop call_rm : List ℕ → Call

unfoldable pub call : Docker → Call → Bool × Docker
unfolding lc_docker_run lc_docker_stop lc_docker_rm
call d (call_run policy image) = lc_docker_run d policy image
call d (call_stop q) = lc_docker_stop d q
call d (call_rm q) = lc_docker_rm d q

-- the state behind the calls
unfoldable pub calls : Docker → List Call → Docker
unfolding call
calls d [] = d
calls d (c ∷ cs) = calls (call d c).1 cs
