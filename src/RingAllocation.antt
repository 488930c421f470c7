-- ===== src/RingAllocation.antt =====
-- Which ring a socket uses (src/vma/dev/ring_allocation_logic.cpp, net_device_val.h).
-- What the thread and the environment give is a parameter: pthread_self, sched_getcpu, the id of the
-- internal thread, and whether the control thread of TCP is on.
pub mod Migration
pub mod AtZero
pub mod Stability
pub mod Cpu
pub mod Balance
pub mod Tests
use libvma.Prelude.{ℕ, suc, Bool, true, false, ◌&&◌, ◌||◌, not, ltb, ◌==◌, if◌then◌else◌}
use libvma.Prelude.Int.{ℤ, pos, ltb_ℤ, ◌+ℤ◌}

-- `ring_logic_t`.
pub data RingLogic : Type 0 where
  per_interface per_socket per_user_id per_thread per_core per_core_attach_threads : RingLogic

abbrev pub logic_number : RingLogic → ℕ
logic_number per_interface = 0
logic_number per_socket = 10
logic_number per_user_id = 11
logic_number per_thread = 20
logic_number per_core = 30
logic_number per_core_attach_threads = 31

-- `resource_allocation_key`; the hash and the string are functions of these.
pub record RingKey : Type 0 where
  pub ring_alloc_logic : RingLogic
  pub ring_profile_key : ℤ
  pub user_id_key : ℕ

pub record Environment : Type 0 where
  pub thread : ℕ
  pub cpu : ℕ
  pub internal_thread : ℕ
  pub ctl_thread : Bool

pub record RingAllocationLogic : Type 0 where
  pub ring_migration_ratio : ℤ
  pub fd : ℕ
  pub migration_try_count : ℤ
  pub migration_candidate : ℕ
  pub res_key : RingKey

abbrev pub start_ring_index : ℤ
start_ring_index = pos 1

abbrev pub candidate_stability_rounds : ℕ
candidate_stability_rounds = 20

-- The number that the logic gives.
abbrev pub key_of : RingLogic → Environment → (fd user_id : ℕ) → ℕ
key_of per_interface env fd user_id = if env.ctl_thread then 1 else 0
key_of per_socket env fd user_id = fd
key_of per_user_id env fd user_id = user_id
key_of per_thread env fd user_id = env.thread
key_of per_core env fd user_id = env.cpu
key_of per_core_attach_threads env fd user_id = env.cpu

unfoldable pub calc_res_key_by_logic : Environment → RingAllocationLogic → ℕ
calc_res_key_by_logic env a = key_of a.res_key.ring_alloc_logic env a.fd a.res_key.user_id_key

abbrev pub set_user_id_key : ℕ → RingAllocationLogic → RingAllocationLogic
set_user_id_key id a = record a { res_key = record a.res_key { user_id_key = id } }

-- The caller's profile takes the logic of the environment if it has none of its own.
abbrev pub with_logic : RingLogic → RingKey → RingKey
with_logic logic profile =
    if logic_number profile.ring_alloc_logic == 0 && ltb_ℤ profile.ring_profile_key start_ring_index
    then record profile { ring_alloc_logic = logic }
    else profile

unfoldable pub ring_allocation_logic :
    Environment → RingLogic → ℤ → ℕ → RingKey → RingAllocationLogic
ring_allocation_logic env logic ratio fd profile =
    let a : RingAllocationLogic = record {
      ring_migration_ratio = ratio;
      fd = fd;
      migration_try_count = ratio;
      migration_candidate = 0;
      res_key = with_logic logic profile;
    } in
    set_user_id_key (calc_res_key_by_logic env a) a

abbrev set_candidate : ℕ → RingAllocationLogic → RingAllocationLogic
set_candidate id a = record a { migration_candidate = id }

abbrev set_try_count : ℤ → RingAllocationLogic → RingAllocationLogic
set_try_count n a = record a { migration_try_count = n }

-- After the rounds of `count_max` are over: a candidate is chosen, or the one that there is has stayed.
abbrev pub rounds_over : Environment → RingAllocationLogic → Bool × RingAllocationLogic
rounds_over env a =
    if a.migration_candidate == 0
    then (let curr_id = a.res_key.user_id_key in
        let new_id = calc_res_key_by_logic env a in
        if new_id == curr_id || (env.internal_thread == curr_id)
        then (false, a)
        else (false, set_candidate new_id a))
    else (true, set_candidate 0 a)

abbrev pub count_round : Environment → ℤ → RingAllocationLogic → Bool × RingAllocationLogic
count_round env count_max a =
    if ltb_ℤ a.migration_try_count count_max
    then (false, set_try_count (a.migration_try_count +ℤ pos 1) a)
    else rounds_over env (set_try_count (pos 0) a)

unfoldable pub should_migrate_ring : Environment → RingAllocationLogic → Bool × RingAllocationLogic
should_migrate_ring env a =
    if ltb (logic_number a.res_key.ring_alloc_logic) 20
    then (false, a)
    else if ltb_ℤ a.ring_migration_ratio (pos 0)
    then (false, a)
    else if a.migration_candidate == 0
    then count_round env a.ring_migration_ratio a
    else if a.migration_candidate == calc_res_key_by_logic env a
    then count_round env (pos candidate_stability_rounds) a
    else (false, set_try_count (pos 0) (set_candidate 0 a))
