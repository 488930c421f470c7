-- ===== src/RingAllocation/Tests.antt =====
-- A socket with a ring for each core, on a machine with 8 cores.
use libvma.Prelude.{
  ℕ, zero, suc, ◌≡◌, refl, Bool, true, false, ◌||◌, none, some, List, [], ◌∷◌, arith, ◌==◌,
}
use libvma.Prelude.Int.{pos, negsuc, ◌+ℤ◌}
use libvma.RingAllocation.{
  Environment, RingAllocationLogic, RingKey, per_core, per_interface, calc_res_key_by_logic,
  ring_allocation_logic, should_migrate_ring,
}
use libvma.RingAllocation.Migration.{first_migration, first_migration_lem}
use libvma.RingAllocation.AtZero.{first_migration-IsAtZero}
use libvma.RingAllocation.Stability.{Calls, no_call, call, Steady, should_migrate_ring-Steady}
use libvma.RingAllocation.Cpu.{cpu_count, first_cpu, choose_cpu, reserve_cpu_for_thread}
use libvma.RingAllocation.Balance.{Taken, reserve_cpu_for_thread-Taken}

abbrev on_core : ℕ → Environment
on_core cpu = record { thread = 140000; cpu = cpu; internal_thread = 99; ctl_thread = false }

abbrev profile : RingKey
profile = record { ring_alloc_logic = per_interface; ring_profile_key = pos 0; user_id_key = 0 }

abbrev socket : RingAllocationLogic
socket = record {
  ring_migration_ratio = pos 2;
  fd = 5;
  migration_try_count = pos 2;
  migration_candidate = 0;
  res_key = record { ring_alloc_logic = per_core; ring_profile_key = pos 0; user_id_key = 3 };
}

-- It is made on core 3.
socket_made : ring_allocation_logic (on_core 3) per_core (pos 2) 5 profile ≡ socket
unfolding ring_allocation_logic calc_res_key_by_logic
socket_made = refl

first_migration_lem_example : first_migration (on_core 6) 22 socket ≡ some 21
unfolding calc_res_key_by_logic
first_migration_lem_example =
    first_migration_lem (on_core 6) socket 2 2 (omega arith)
      (record { by_thread = omega arith; ratio = refl })
      (record { new = refl; not_internal = refl; not_zero = refl })

first_migration-IsAtZero_example : first_migration (on_core 0) 1000 socket ≡ none
unfolding calc_res_key_by_logic
first_migration-IsAtZero_example =
    first_migration-IsAtZero (on_core 0) 1000 socket (record { candidate = refl; key = refl })

abbrev repeated : ℕ → List Environment
repeated zero = []
repeated (suc n) = on_core 6 ∷ repeated n

abbrev after : ℕ → RingAllocationLogic
after zero = socket
after (suc n) = (should_migrate_ring (on_core 6) (after n)).1

after-Calls : (n : ℕ) → Calls socket (repeated n) (after n)
after-Calls zero = no_call
after-Calls (suc n) = call (on_core 6) (repeated n) (after n) (after-Calls n)

should_migrate_ring-Steady_example : Steady (on_core 6) (repeated 21) (after 21)
unfolding should_migrate_ring calc_res_key_by_logic ◌+ℤ◌
should_migrate_ring-Steady_example =
    should_migrate_ring-Steady socket (on_core 6) (repeated 21) (after 21) refl (after-Calls 21)
      refl

-- The thread may run on the cores 2, 4 and 5.
abbrev cpu_set : ℕ → Bool
cpu_set i = i == 2 || (i == 4) || (i == 5)

abbrev count : ℕ → ℕ
count i = if_two (i == 2)
  where
    if_two : Bool → ℕ
    if_two true = 2
    if_two false = 1

reserve_cpu_for_thread-Taken_example :
    Taken cpu_set count 8 (reserve_cpu_for_thread 8 (pos 2) (some cpu_set) true (negsuc 0) count)
unfolding cpu_count
reserve_cpu_for_thread-Taken_example =
    reserve_cpu_for_thread-Taken cpu_set count 8 (pos 2) (omega arith)

-- The suggested core 2 has just one thread more; without it the core 4 is the first with the fewest.
suggested_taken :
    ((reserve_cpu_for_thread 8 (pos 2) (some cpu_set) true (negsuc 0) count).ret ≡ pos 2)
    × ((reserve_cpu_for_thread 8 (negsuc 0) (some cpu_set) true (negsuc 0) count).ret ≡ pos 4)
unfolding reserve_cpu_for_thread cpu_count choose_cpu ◌+ℤ◌ first_cpu
suggested_taken = (refl, refl)
