-- ===== src/CacheTable/Tests.antt =====
-- A table with the keys 10 and 20, whose users come and go.
use libvma.Prelude.{◌≡◌, ◌≢◌, ◌↔◌, ◌⊎◌, refl, Bool, true, false, none, some, List, [], ◌∷◌, ltb}
use libvma.Prelude.Store.{Ptr}
use libvma.CacheTable.Observers
use libvma.CacheTable.Observers.{count, erase}
use libvma.CacheTable.{
  find, change, get_entry, erase_key, try_to_remove_cache_entry, collect_each,
  run_garbage_collector, register_observer, unregister_observer,
}
use libvma.CacheTable.Calls.{Op, register, unregister, collect, run, notified, run-get_entry}
use libvma.CacheTable.Kept.{run_garbage_collector_lem}

abbrev all_deletable : Ptr → Bool
all_deletable e = true

abbrev calls_before : List Op
calls_before = register (some 100) 10 1 ∷ register (some 200) 20 1 ∷ []

abbrev calls_after : List Op
calls_after =
    unregister all_deletable 10 1
    ∷ unregister all_deletable 20 1
    ∷ register (some 300) 10 2
    ∷ collect all_deletable
    ∷ []

run-get_entry_example :
    (get_entry 10 (run calls_after (register_observer (some 101) 10 2 (run calls_before [])).1)
      ≡ some 100)
    × (count 2 (
          notified 10 (run calls_after (register_observer (some 101) 10 2 (run calls_before [])).1))
        ≡ 1)
unfolding run register_observer find change Observers.register_observer count
run-get_entry_example =
    run-get_entry calls_before calls_after (some 101) 10 2 100 refl (refl, (refl, tt))

run_garbage_collector_lem_example :
    (get_entry 10 (run_garbage_collector (λ e. ltb e 150) (run calls_before [])) ≡ some 100) ↔ (
      (get_entry 10 (run calls_before []) ≡ some 100)
      × (((o : Ptr) × (count o (notified 10 (run calls_before [])) ≢ 0)) ⊎ (ltb 100 150 ≡ false)))
run_garbage_collector_lem_example = run_garbage_collector_lem calls_before (λ e. ltb e 150) 10 100

unused_entry_gone : get_entry 20 (run calls_after (run calls_before [])) ≡ none
unfolding run register_observer find change Observers.register_observer count get_entry
    unregister_observer Observers.unregister_observer erase try_to_remove_cache_entry erase_key
    run_garbage_collector collect_each
unused_entry_gone = refl
