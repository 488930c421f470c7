-- ===== src/StateMachine/Tests.antt =====
-- The machine of src/state_machine/main.cpp: three states in a circle, and a client whose first callback
-- posts another event.
use libvma.Prelude.{
  ◌≡◌, refl, true, false, List, [], ◌∷◌, Option, some, none, arith, length, All, ◌≤◌,
}
use libvma.Prelude.Int.{ℤ, pos}
use libvma.StateMachine.Fifo.{Ptr, Entry}
use libvma.StateMachine.Table.{
  TableLine, Table, Defaults, process_sparse_table, sm_no_st, sm_state_entry, sm_state_leave, error,
  sm_st_stay,
}
use libvma.StateMachine.Table.Shape.{line_ok}
use libvma.StateMachine.Table.Lookup.{Holds, process_sparse_table-Holds}
use libvma.StateMachine.Process.{
  Client, Callback, Machine, fresh, state_machine, made, Run, returns, fault, out_of_fuel,
  process_event, lock_in_process, transition, unlock_in_process,
}
use libvma.StateMachine.Process.Valid.{IsValid, IsTame, Served, budget, is_below}
use libvma.StateMachine.Process.Safety.{
  state_machine-IsValid, state_machine-IsValid, process_event-Served, process_event-max_events,
}

abbrev line : ℤ → ℤ → ℤ → Ptr → TableLine
line st ev next f = record { state = st; event = ev; next_state = next; action_func = f }

abbrev circle : List TableLine
circle =
    line (pos 0) sm_state_entry sm_no_st 5
    ∷ line (pos 0) (pos 0) (pos 1) 6
    ∷ line (pos 1) (pos 0) (pos 2) 7
    ∷ line (pos 2) (pos 0) (pos 0) 0
    ∷ line (pos 2) sm_state_leave sm_no_st 8
    ∷ line sm_no_st sm_no_st sm_no_st 0
    ∷ []

abbrev dims : Defaults
dims = record { max_states = 3; max_events = 2; entry_func = 9; leave_func = 0; trans_func = 0 }

abbrev circle_table : Table
circle_table =
    record {
      entry_func = 5;
      leave_func = 0;
      event_info =
          record { next_state = pos 1; trans_func = 6 }
          ∷ record { next_state = sm_st_stay; trans_func = 0 }
          ∷ [];
    }
    ∷ record {
      entry_func = 9;
      leave_func = 0;
      event_info =
          record { next_state = pos 2; trans_func = 7 }
          ∷ record { next_state = sm_st_stay; trans_func = 0 }
          ∷ [];
    }
    ∷ record {
      entry_func = 9;
      leave_func = 8;
      event_info =
          record { next_state = pos 0; trans_func = 0 }
          ∷ record { next_state = sm_st_stay; trans_func = 0 }
          ∷ [];
    }
    ∷ []

circle_ok : All (λ l. line_ok l ≡ true) circle
circle_ok = (refl, (refl, (refl, (refl, (refl, (refl, tt))))))

circle_fills : process_sparse_table dims circle ≡ some (pos 0, circle_table)
unfolding process_sparse_table
circle_fills = refl

abbrev ret_of : Option (ℤ × Table) → Option ℤ
ret_of none = none
ret_of (some (ret, t)) = some ret

-- The second line for a state and an event is refused.
reuse : ret_of (process_sparse_table dims (line (pos 0) (pos 0) (pos 1) 6 ∷ circle)) ≡ some error
unfolding process_sparse_table
reuse = refl

process_sparse_table-Holds_example :
    Holds circle_table 1 0 (record { next_state = pos 2; trans_func = 7 }) 9 0
process_sparse_table-Holds_example =
    process_sparse_table-Holds dims circle circle_table 1 0 circle_fills (omega arith) (omega arith)

abbrev start : Machine
start = fresh 1 (pos 0) dims 3 circle_table

starts : state_machine 1 (pos 0) dims circle 3 ≡ made start
unfolding state_machine process_sparse_table
starts = refl

start-IsValid :
    IsValid dims start
    × (start.in_process ≡ false)
    × (start.fifo ≡ [])
    × (start.info.old_state ≡ pos 0)
start-IsValid = state_machine-IsValid dims 1 (pos 0) circle 3 start circle_ok (omega arith) starts

-- The first callback posts the event 0 again.
abbrev chatty : Client
chatty [] = []
chatty (c ∷ []) = record { event = pos 0; ev_data = 42 } ∷ []
chatty (c ∷ (c' ∷ h)) = []

chatty_width : (h : List Callback) → length (chatty h) ≤ 1
chatty_width [] = omega arith
chatty_width (c ∷ []) = omega arith
chatty_width (c ∷ (c' ∷ h)) = omega arith

chatty_ends : (h : List Callback) → 2 ≤ length h → chatty h ≡ []
chatty_ends [] p = absurd (omega arith)
chatty_ends (c ∷ []) p = absurd (omega arith)
chatty_ends (c ∷ (c' ∷ h)) p = refl

chatty_legal : (h : List Callback) → All (λ (e : Entry). is_below 2 e.event ≡ true) (chatty h)
chatty_legal [] = tt
chatty_legal (c ∷ []) = (refl, tt)
chatty_legal (c ∷ (c' ∷ h)) = tt

chatty-IsTame : IsTame dims 1 2 chatty
chatty-IsTame = record { per_call = chatty_width; ends = chatty_ends; legal = chatty_legal }

process_event-Served_example :
    (m : Machine) × (process_event 5 chatty start (pos 0) 77 ≡ returns (pos 0) m)
    × Served dims chatty start (pos 0) m
unfolding budget
process_event-Served_example =
    process_event-Served dims chatty 1 2 5 start (pos 0) 77 chatty-IsTame start-IsValid.0 refl refl
      tt (omega arith)

abbrev state_of : Run → Option ℤ
state_of (returns ret m) = some m.info.old_state
state_of fault = none
state_of out_of_fuel = none

-- Two events are served, the second one posted by the first one's notify call.
chatty_runs : state_of (process_event 5 chatty start (pos 0) 77) ≡ some (pos 2)
unfolding process_event lock_in_process transition unlock_in_process
chatty_runs = refl

abbrev busy_start : Machine
busy_start = record start { in_process = true }

process_event-max_events_example : process_event 1 chatty start (pos 2) 0 ≡ fault
process_event-max_events_example =
    process_event-max_events dims chatty 0 start 0 start-IsValid.0 refl
