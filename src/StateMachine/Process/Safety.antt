-- ===== src/StateMachine/Process/Safety.antt =====
-- What the constructor of src/state_machine/sm.cpp promises, what `process_event` does with events that
-- the table has no column for, and its result for the others.
use libvma.Prelude.{
  ℕ, suc, ◌+◌, ◌<◌, ◌≡◌, refl, sym, ap, get_elem?-ge, subst, ◌∙◌, inl, inr, true, false, List, [],
  arith, length, Bool-cases, Option-cases, none, All, ◌≢◌,
}
use libvma.Prelude.Int.{ℤ, pos, negsuc}
use libvma.StateMachine.Fifo.{Ptr, null}
use libvma.StateMachine.Table.{Defaults, TableLine, process_sparse_table, error}
use libvma.StateMachine.Table.Shape.{line_ok, process_sparse_table-TableOk, TableOk}
use libvma.StateMachine.Process.{
  Client, Machine, made, fresh, start_ok, state_machine, returns, fault, process_event, transition,
  transition_from, transition_to, is_illegal,
}
use libvma.StateMachine.Process.Calls.{lock_in_process-idle}
use libvma.StateMachine.Process.Valid.{
  IsValid, IsTame, is_below, Served, budget, IsLegal, row_at, rows_ok,
}
use libvma.StateMachine.Process.Order.{serves, unlock_in_process-idle}

start_ok-is_below : (n : ℕ) (start : ℤ) → start_ok n start ≡ true → is_below n start ≡ true
start_ok-is_below n (pos k) h = h
start_ok-is_below n (negsuc k) h = h

-- The constructor accepts only a start state of the table, and whatever it made of the short table,
-- the machine is valid, idle and in the start state.
pub state_machine-IsValid :
    (d : Defaults) (app_hndl : Ptr) (start : ℤ) (ls : List TableLine) (notify_func : Ptr)
    (m : Machine)
    → All (λ l. line_ok l ≡ true) ls
    → notify_func ≢ null
    → state_machine app_hndl start d ls notify_func ≡ made m
    → IsValid d m × (m.in_process ≡ false) × (m.fifo ≡ []) × (m.info.old_state ≡ start)
unfolding state_machine
state_machine-IsValid d app_hndl start ls notify_func m ok nn e =
    elim (Bool-cases (start_ok d.max_states start)) [
      | inr h ↦ absurd (ground arith)
      | inl h ↦ elim (Option-cases (process_sparse_table d ls)) [
        | inl f ↦ absurd (ground arith)
        | inr ((ret, t), f) ↦
            let p : fresh app_hndl start d notify_func t ≡ m = ground arith in
            subst
              (λ x.
                IsValid d x × (x.in_process ≡ false) × (x.fifo ≡ []) × (x.info.old_state ≡ start))
              p
              (
                record {
                  table_ok = process_sparse_table-TableOk d ls t ret ok f;
                  events = refl;
                  here = start_ok-is_below d.max_states start h;
                  notified = nn;
                },
                refl,
                refl,
                refl,
              )
      ]
    ]

-- `process_event` of a valid idle machine terminates, reads no table out of bounds, and returns 0 in
-- an idle and valid machine. Each event that was in the queue or that a callback posted is served
-- once, after `event`, in the order of arrival, and the state that is left is the one that the table
-- leads to by the events served. Conditions: the events are those of the table (0 to max_events - 1)
-- and callbacks post boundedly many of them.
pub process_event-Served :
    (d : Defaults) (client : Client) (width depth : ℕ) (fuel : ℕ) (m : Machine) (event : ℤ)
    (ev_data : Ptr)
    → IsTame d width depth client
    → IsValid d m
    → m.in_process ≡ false
    → is_below d.max_events event ≡ true
    → IsLegal d m.fifo
    → length m.fifo + budget width depth (length m.history) < fuel
    → (m' : Machine) × (process_event fuel client m event ev_data ≡ returns (pos 0) m')
      × Served d client m event m'
process_event-Served d client width depth fuel m event ev_data tame v idle legal queued room =
    serves d client width depth tame fuel m event ev_data v idle legal queued room

-- An event that `process_event` takes for illegal (negative, or above max_events) is refused with
-- -1 on an idle machine with an empty queue, which stays as it was.
pub process_event-illegal :
    (client : Client) (fuel : ℕ) (m : Machine) (event : ℤ) (ev_data : Ptr)
    → m.in_process ≡ false
    → m.fifo ≡ []
    → is_illegal m.max_events event ≡ true
    → process_event (suc fuel) client m event ev_data ≡ returns error m
unfolding process_event
process_event-illegal client fuel m event ev_data idle empty bad =
    rw (lock_in_process-idle m event ev_data idle, bad)
      (unlock_in_process-idle (process_event fuel client) error (record m { in_process = true })
          empty
        ∙ sym (λ i. returns error (record m { fifo = empty i; in_process = idle i })))

-- Past the end of the row there is nothing to read.
transition-fault :
    (d : Defaults) (client : Client) (m : Machine) (ev_data : Ptr)
    → TableOk d m.table
    → is_below d.max_states m.info.old_state ≡ true
    → transition client m (pos d.max_events) ev_data ≡ none
unfolding transition transition_from transition_to
transition-fault d client m ev_data ok here =
    let (row, at_row) = row_at d m.table m.info.old_state ok here in
    let width = (rows_ok d m.table m.info.old_state row ok at_row).width in
    ap (transition_from client m (pos d.max_events) ev_data) at_row
    ∙ ap (transition_to client m (pos d.max_events) ev_data row)
        (get_elem?-ge row.event_info d.max_events (omega (arith, width)))

not-illegal : (n : ℕ) → is_illegal n (pos n) ≡ false
not-illegal n = ground arith

-- On a valid idle machine the event max_events is let through by the range test, and the table is read
-- one past the end of the state's row, whatever the client and the table are.
pub process_event-max_events :
    (d : Defaults) (client : Client) (fuel : ℕ) (m : Machine) (ev_data : Ptr)
    → IsValid d m
    → m.in_process ≡ false
    → process_event (suc fuel) client m (pos d.max_events) ev_data ≡ fault
unfolding process_event
process_event-max_events d client fuel m ev_data v idle =
    let passes : is_illegal m.max_events (pos d.max_events) ≡ false =
      rw v.events (not-illegal d.max_events) in
    rw (
      lock_in_process-idle m (pos d.max_events) ev_data idle,
      passes,
      transition-fault d client (record m { in_process = true }) ev_data v.table_ok v.here,
    )
