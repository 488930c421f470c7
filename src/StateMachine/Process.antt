-- ===== src/StateMachine/Process.antt =====
-- src/state_machine/sm.cpp: the machine itself, `process_event` and the lock that makes an event which
-- arrives while another is in process wait in the queue.
-- Callbacks belong to the client. What one does to the machine is to call `process_event`; the
-- client is a function from the history of the callbacks made so far, the one that runs now first,
-- to the events that this one posts. A callback runs while `in_process` is set, so each of its calls
-- of `process_event` ends at `lock_in_process`, and is that (`Order.process_event-busy`).
pub mod Calls
pub mod Step
pub mod Valid
pub mod Order
pub mod Safety
use libvma.Prelude.{
  ℕ, zero, suc, Bool, true, false, ◌&&◌, ◌||◌, not, Option, none, some, List, [], ◌∷◌, ltb, ◌==◌,
  if◌then◌else◌, get_elem?,
}
use libvma.Prelude.Int.{ℤ, pos, negsuc}
use libvma.StateMachine.Fifo.{Ptr, null, Entry, Fifo, is_empty, push_back, pop_front}
use libvma.StateMachine.Table.{
  Table, TableLine, StateInfo, EventInfo, Defaults, process_sparse_table, eq_int, error, sm_st_stay,
}

-- `sm_info_t`
pub record SmInfo : Type 0 where
  pub old_state : ℤ
  pub new_state : ℤ
  pub event : ℤ
  pub ev_data : Ptr
  pub app_hndl : Ptr

-- A call of `m_new_event_notify_func`, or of an entry, leave or transition function.
pub data Callback : Type 0 where
  notify : ℤ → ℤ → Ptr → Callback
  action : Ptr → SmInfo → Callback

abbrev pub Client : Type 0
Client = List Callback → List Entry

-- `history` is not the machine's: it records the callbacks made, the last one first.
pub record Machine : Type 0 where
  pub max_states : ℕ
  pub max_events : ℕ
  pub table : Table
  pub notify_func : Ptr
  pub fifo : Fifo
  pub in_process : Bool
  pub info : SmInfo
  pub history : List Callback

-- `panics` is the exception of a bad start state, `overruns` the read behind a short table.
pub data Made : Type 0 where
  made : Machine → Made
  panics overruns : Made

-- The members as the constructor leaves them, around the table that was made.
abbrev pub fresh : Ptr → ℤ → Defaults → Ptr → Table → Machine
fresh app_hndl start_state d notify_func t = record {
  max_states = d.max_states;
  max_events = d.max_events;
  table = t;
  notify_func = notify_func;
  fifo = [];
  in_process = false;
  info = record {
    old_state = start_state;
    new_state = negsuc 0;
    event = negsuc 0;
    ev_data = null;
    app_hndl = app_hndl;
  };
  history = [];
}

-- `!(start_state < 0 || start_state >= m_max_states)`
abbrev pub start_ok : ℕ → ℤ → Bool
start_ok n (pos k) = ltb k n
start_ok n (negsuc k) = false

-- The constructor. It does not look at what `process_sparse_table` returns.
unfoldable pub state_machine : Ptr → ℤ → Defaults → List TableLine → Ptr → Made
state_machine app_hndl start_state d short_table notify_func =
    if start_ok d.max_states start_state
    then elim (process_sparse_table d short_table) [
      | none ↦ overruns
      | some (ret, t) ↦ made (fresh app_hndl start_state d notify_func t)
    ]
    else panics

abbrev pub get_curr_state : Machine → ℤ
get_curr_state m = m.info.old_state

unfoldable pub lock_in_process : Machine → ℤ → Ptr → ℤ × Machine
lock_in_process m event ev_data =
    if not m.in_process
    then (pos 0, record m { in_process = true })
    else (error, record m { fifo = push_back m.fifo event ev_data })

-- The events that a callback posts, each by a call that ends at the lock.
pub post_all : List Entry → Machine → Machine
unfolding lock_in_process
post_all [] m = m
post_all (e ∷ es) m = post_all es (lock_in_process m e.event e.ev_data).1

pub run_callback : Client → Callback → Machine → Machine
unfolding post_all
run_callback client c m = post_all (client (c ∷ m.history)) (record m { history = c ∷ m.history })

-- Each function pointer is called if it is not NULL.
pub run_action : Client → Ptr → Machine → Machine
unfolding run_callback
run_action client f m = if f == null then m else run_callback client (action f m.info) m

pub run_notify : Client → ℤ → Machine → Machine
unfolding run_callback
run_notify client event m =
    if m.notify_func == null
    then m
    else run_callback client (notify (get_curr_state m) event m.info.app_hndl) m

-- The test for a transition to another state.
abbrev pub moves_to : Machine → ℤ → Bool
moves_to m next = not (eq_int next (get_curr_state m)) && not (eq_int next sm_st_stay)

-- `a[i]` of a C array with an int index; `none` is out of bounds.
abbrev pub at_int {ℓ} : {A : Type ℓ} → List A → ℤ → Option A
at_int xs (pos i) = get_elem? xs i
at_int xs (negsuc i) = none

abbrev pub set_info : Machine → ℤ → ℤ → Ptr → Machine
set_info m next event ev_data = record m {
  info = record m.info { new_state = next; event = event; ev_data = ev_data };
}

-- The entry function of the next state, and the move to it.
pub enter : Client → ℤ → Machine → Option Machine
unfolding run_action
enter client next m =
    if moves_to m next
    then elim (at_int m.table next) [
      | none ↦ none
      | some dst ↦
          let m' = run_action client dst.entry_func m in
          some (record m' { info = record m'.info { old_state = next } })
    ]
    else some m

-- From the table lookup to the new state: notify, leave, transition, entry. `none` is a read of the
-- table out of bounds.
pub transition_to : Client → Machine → ℤ → Ptr → StateInfo → Option EventInfo → Option Machine
unfolding run_action run_notify enter
transition_to client m event ev_data row none = none
transition_to client m event ev_data row (some e) =
    let m1 = run_notify client event (set_info m e.next_state event ev_data) in
    let m2 = if moves_to m1 e.next_state then run_action client row.leave_func m1 else m1 in
    let m3 = run_action client e.trans_func m2 in enter client e.next_state m3

pub transition_from : Client → Machine → ℤ → Ptr → Option StateInfo → Option Machine
unfolding transition_to
transition_from client m event ev_data none = none
transition_from client m event ev_data (some row) =
    transition_to client m event ev_data row (at_int row.event_info event)

unfoldable pub transition : Client → Machine → ℤ → Ptr → Option Machine
unfolding transition_from
transition client m event ev_data =
    transition_from client m event ev_data (at_int m.table (get_curr_state m))

pub data Run : Type 0 where
  returns : ℤ → Machine → Run
  fault out_of_fuel : Run

abbrev pub returning : ℤ → Run → Run
returning ret (returns r m) = returns ret m
returning ret fault = fault
returning ret out_of_fuel = out_of_fuel

-- `process` is the recursive call. Its result is not looked at.
unfoldable pub unlock_in_process : (Machine → ℤ → Ptr → Run) → ℤ → Machine → Run
unlock_in_process process ret m =
    if is_empty m.fifo
    then returns ret (record m { in_process = false })
    else let (e, rest) = pop_front m.fifo in
      returning ret (process (record m { fifo = rest; in_process = false }) e.event e.ev_data)

-- `(event > m_max_events) || (event < 0)`
abbrev pub is_illegal : ℕ → ℤ → Bool
is_illegal max_events (pos e) = ltb max_events e
is_illegal max_events (negsuc e) = true

unfoldable pub process_event : ℕ → Client → Machine → ℤ → Ptr → Run
process_event zero client m event ev_data = out_of_fuel
process_event (suc fuel) client m event ev_data =
    let process = process_event fuel client in
    let (ret, m') = lock_in_process m event ev_data in
    if eq_int ret error
    then returns (pos 0) m'
    else if is_illegal m'.max_events event
    then unlock_in_process process error m'
    else elim (transition client m' event ev_data) [
      | none ↦ fault
      | some m'' ↦ unlock_in_process process (pos 0) m''
    ]
