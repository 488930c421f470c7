-- ===== src/RingAllocation/Cpu.antt =====
-- cpu_manager of src/vma/dev/ring_allocation_logic.cpp: which core a thread is attached to.
-- The size of a cpu_set_t (CPU_SETSIZE) and the calls of the thread library are parameters:
-- `affinity` is what pthread_getaffinity_np gives, if it succeeds, and `set_succeeds` whether
-- pthread_setaffinity_np does. The lock is held over the call.
use libvma.Prelude.{
  ℕ, zero, suc, Bool, ◌&&◌, ◌||◌, not, Option, none, some, ltb, ◌==◌, if◌then◌else◌,
}
use libvma.Prelude.Store.{update}
use libvma.RingAllocation.{
  Environment, RingAllocationLogic, logic_number, calc_res_key_by_logic, set_user_id_key,
}
use libvma.Prelude.Int.{ℤ, pos, negsuc, ltb_ℤ, ◌+ℤ◌}

abbrev pub no_cpu : ℤ
no_cpu = negsuc 0

-- `CPU_COUNT`, from a cpu on.
unfoldable pub cpu_count : (left i : ℕ) → (ℕ → Bool) → ℕ
cpu_count zero i cpu_set = 0
cpu_count (suc left) i cpu_set =
    let rest = cpu_count left (suc i) cpu_set in if cpu_set i then suc rest else rest

-- The loop for a set of one cpu.
unfoldable pub first_cpu : (left i : ℕ) → (ℕ → Bool) → ℕ
first_cpu zero i cpu_set = i
first_cpu (suc left) i cpu_set =
    let rest = first_cpu left (suc i) cpu_set in if cpu_set i then i else rest

abbrev pub is_less_loaded : (min_cpu_count : ℤ) → ℕ → Bool
is_less_loaded min_cpu_count count = ltb_ℤ min_cpu_count (pos 0) || ltb_ℤ (pos count) min_cpu_count

-- The loop over the cpus of the set: the cpu, and `min_cpu_count`.
unfoldable pub choose_cpu :
    (cpu_set : ℕ → Bool) (count : ℕ → ℕ) (avail_cpus left i j : ℕ) (cpu min_cpu_count : ℤ) → ℤ × ℤ
choose_cpu cpu_set count avail_cpus zero i j cpu min_cpu_count = (cpu, min_cpu_count)
choose_cpu cpu_set count avail_cpus (suc left) i j cpu min_cpu_count =
    let better = cpu_set i && is_less_loaded min_cpu_count (count i) in
    let rest =
      choose_cpu cpu_set count avail_cpus left (suc i) (if cpu_set i then suc j else j)
        (if better then pos i else cpu) (if better then pos (count i) else min_cpu_count) in
    if ltb j avail_cpus then rest else (cpu, min_cpu_count)

-- The thread's reservation is `g_n_thread_cpu_core`.
pub record Reserved : Type 0 where
  pub ret : ℤ
  pub thread_cpu_core : ℤ
  pub cpu_thread_count : ℕ → ℕ

module _ (max_cpu : ℕ) where
  -- `CPU_ISSET` with a number that is not negative.
  abbrev pub is_set : (ℕ → Bool) → ℕ → Bool
  is_set cpu_set cpu = ltb cpu max_cpu && cpu_set cpu

  abbrev pub suggested_or : ℤ → (ℕ → Bool) → (ℕ → ℕ) → ℤ × ℤ → ℤ
  suggested_or (negsuc n) cpu_set count chosen = chosen.0
  suggested_or (pos s) cpu_set count chosen =
      if is_set cpu_set s && (not (ltb_ℤ (chosen.1 +ℤ pos 1) (pos (count s))))
      then pos s
      else chosen.0

  abbrev pub take_cpu : ℤ → (ℕ → ℕ) → Reserved
  take_cpu (negsuc n) count = record {
    ret = negsuc n;
    thread_cpu_core = negsuc n;
    cpu_thread_count = count;
  }
  take_cpu (pos cpu) count = record {
    ret = pos cpu;
    thread_cpu_core = pos cpu;
    cpu_thread_count = if ltb cpu max_cpu then update count cpu (suc (count cpu)) else count;
  }

  abbrev pub refused : (ℕ → ℕ) → Reserved
  refused count = record { ret = negsuc 0; thread_cpu_core = no_cpu; cpu_thread_count = count }

  abbrev pub choose_of : ℤ → (set_succeeds : Bool) → (ℕ → ℕ) → (ℕ → Bool) → Reserved
  choose_of suggested_cpu set_succeeds count cpu_set =
      let avail_cpus = cpu_count max_cpu 0 cpu_set in
      let chosen = choose_cpu cpu_set count avail_cpus max_cpu 0 0 no_cpu (negsuc 0) in
      if avail_cpus == 0
      then refused count
      else if avail_cpus == 1
      then take_cpu (pos (first_cpu max_cpu 0 cpu_set)) count
      else if set_succeeds
      then take_cpu (suggested_or suggested_cpu cpu_set count chosen) count
      else refused count

  abbrev pub choose_if : ℤ → (set_succeeds : Bool) → (ℕ → ℕ) → Option (ℕ → Bool) → Reserved
  choose_if suggested_cpu set_succeeds count none = refused count
  choose_if suggested_cpu set_succeeds count (some cpu_set) =
      choose_of suggested_cpu set_succeeds count cpu_set

  unfoldable pub reserve_cpu_for_thread :
      (suggested_cpu : ℤ) (affinity : Option (ℕ → Bool)) (set_succeeds : Bool) (thread_cpu_core : ℤ)
      (cpu_thread_count : ℕ → ℕ)
      → Reserved
  reserve_cpu_for_thread suggested_cpu affinity set_succeeds (pos cpu) count = record {
    ret = pos cpu;
    thread_cpu_core = pos cpu;
    cpu_thread_count = count;
  }
  reserve_cpu_for_thread suggested_cpu affinity set_succeeds (negsuc (suc n)) count = record {
    ret = negsuc (suc n);
    thread_cpu_core = negsuc (suc n);
    cpu_thread_count = count;
  }
  reserve_cpu_for_thread suggested_cpu affinity set_succeeds (negsuc zero) count =
      choose_if suggested_cpu set_succeeds count affinity

-- `create_new_key`, with what the reservation for the thread returns: the ring of the core that the
-- thread is attached to, or of its key.
unfoldable pub create_new_key :
    Environment → (reserved : ℤ) → RingAllocationLogic → RingAllocationLogic
create_new_key env (pos cpu) a =
    if logic_number a.res_key.ring_alloc_logic == 31
    then set_user_id_key cpu a
    else set_user_id_key (calc_res_key_by_logic env a) a
create_new_key env (negsuc n) a = set_user_id_key (calc_res_key_by_logic env a) a
