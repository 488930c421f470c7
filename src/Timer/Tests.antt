-- ===== src/Timer/Tests.antt =====
-- Three timers of two handlers: a periodic one that is due, a one-shot one 5 ms later, and a periodic
-- one 10 ms later.
use libvma.Prelude.{ℕ, ◌≡◌, refl, List, [], ◌∷◌, some, arith, ltb, if◌then◌else◌}
use libvma.Timer.Clock.{ts}
use libvma.Timer.Nodes.{
  Node, ReqType, periodic_timer, one_shot_timer, insert_to_list, add_new_timer, remove_all_timers,
}
use libvma.Timer.Nodes.Due.{due, place}
use libvma.Timer.Nodes.Valid.{IsValid}
use libvma.Timer.Nodes.Calls.{without, new_node, add_new_timer_lem}
use libvma.Timer.Nodes.RemoveAll.{remove_all_timers_lem}
use libvma.Timer.Update.{update_timeout, process_registered_timers}
use libvma.Timer.Update.Elapse.{later, first_time, update_timeout-due}
use libvma.Timer.Update.Round.{NoneDue, put_back_all, calls_of}
use libvma.Timer.Update.Expire.{due_now, not_yet, process_registered_timers_lem}

abbrev node : ℕ → ℕ → ℕ → ℕ → ReqType → Node
node id delta orig handler req_type = record {
  id = id;
  delta_time_msec = delta;
  orig_time_msec = orig;
  handler = handler;
  user_data = 0;
  req_type = req_type;
}

abbrev three : List Node
three =
    node 1 0 7 100 periodic_timer
    ∷ node 2 5 5 200 one_shot_timer
    ∷ node 3 5 10 100 periodic_timer
    ∷ []

three-IsValid : IsValid three
three-IsValid = record {
  fits = omega arith;
  distinct = omega arith;
  sound = ((refl, omega arith), ((refl, omega arith), ((refl, omega arith), tt)));
}

-- One more at 7 ms goes between the last two, which is then 3 ms behind it.
inserts :
    insert_to_list (node 4 0 7 300 one_shot_timer) three
    ≡ node 1 0 7 100 periodic_timer
      ∷ node 2 5 5 200 one_shot_timer
      ∷ node 4 2 7 300 one_shot_timer
      ∷ node 3 3 10 100 periodic_timer
      ∷ []
unfolding insert_to_list
inserts = refl

add_new_timer_lem_example :
    IsValid (add_new_timer 7 4 300 0 one_shot_timer three)
    × (due (add_new_timer 7 4 300 0 one_shot_timer three)
        ≡ place 7 (new_node 7 4 300 0 one_shot_timer) (due three))
add_new_timer_lem_example =
    add_new_timer_lem 7 4 300 0 one_shot_timer three three-IsValid (omega arith) (omega arith)

remove_all_timers_lem_example :
    IsValid (remove_all_timers 100 three)
    × (due (remove_all_timers 100 three) ≡ without 100 (due three))
remove_all_timers_lem_example = remove_all_timers_lem 100 three three-IsValid

-- From 1.9 s to 2.004 s: 104 ms, and all is due.
update_timeout-due_example :
    let (timeout, t) =
      update_timeout (ts 2 4_000_000) (record { nodes = three; ts_last = ts 1 900_000_000 }) in
    (due t.nodes ≡ later 104 (due three))
    × (timeout ≡ first_time (later 104 (due three)))
    × (t.ts_last ≡ (if ltb 0 104 then ts 2 4_000_000 else ts 1 900_000_000))
update_timeout-due_example =
    update_timeout-due 1 900_000_000 2 4_000_000 three (omega arith) (omega arith) (omega arith)
      (omega arith) (omega arith)

process_registered_timers_lem_example :
    (process_registered_timers 9 three
      ≡ some (put_back_all (due_now three) (not_yet three), calls_of (due_now three)))
    × IsValid (put_back_all (due_now three) (not_yet three))
    × NoneDue (put_back_all (due_now three) (not_yet three))
process_registered_timers_lem_example =
    process_registered_timers_lem 9 three three-IsValid
      ((λ e. omega arith), ((λ e. omega arith), ((λ e. omega arith), tt))) (omega arith)

-- The periodic timer that was due stands 7 ms from now.
processes :
    process_registered_timers 9 three
    ≡ some (
      node 2 5 5 200 one_shot_timer
          ∷ node 1 2 7 100 periodic_timer
          ∷ node 3 3 10 100 periodic_timer
          ∷ [],
      (100, 0) ∷ [],
    )
unfolding process_registered_timers
processes = refl
