-- ===== src/StateMachine/Table.antt =====
-- src/state_machine/sm.h and `process_sparse_table` of sm.cpp: a client's short table of
-- transitions is spread out over an array of states, each with an array of events.
pub mod Cases
pub mod Shape
pub mod Lookup
use libvma.Prelude.{
  ℕ, Bool, false, Option, none, some, List, [], ◌∷◌, ltb, leb, ◌==◌, if◌then◌else◌, get_elem?,
  modify, replicate,
}
use libvma.Prelude.Int.{ℤ, pos, negsuc}
use libvma.StateMachine.Fifo.{Ptr}

abbrev pub error : ℤ
error = negsuc 0

abbrev pub sm_no_st : ℤ
sm_no_st = negsuc 1

abbrev pub sm_st_stay : ℤ
sm_st_stay = negsuc 2

abbrev pub sm_state_entry : ℤ
sm_state_entry = negsuc 3

abbrev pub sm_state_leave : ℤ
sm_state_leave = negsuc 4

-- `==` of two C ints
abbrev pub eq_int : ℤ → ℤ → Bool
eq_int (pos a) (pos b) = a == b
eq_int (negsuc a) (negsuc b) = a == b
eq_int (pos a) (negsuc b) = false
eq_int (negsuc a) (pos b) = false

-- The test `i >= 0 && i < n`, with the array index that it admits.
abbrev pub index : ℤ → ℕ → Option ℕ
index (pos i) n = if ltb i n then some i else none
index (negsuc i) n = none

-- `i >= n`
abbrev pub at_least : ℤ → ℕ → Bool
at_least (pos i) n = leb n i
at_least (negsuc i) n = false

-- `sm_short_table_line_t`
pub record TableLine : Type 0 where
  pub state : ℤ
  pub event : ℤ
  pub next_state : ℤ
  pub action_func : Ptr

-- `sm_event_info_t`
pub record EventInfo : Type 0 where
  pub next_state : ℤ
  pub trans_func : Ptr

-- `sm_state_info_t`
pub record StateInfo : Type 0 where
  pub entry_func : Ptr
  pub leave_func : Ptr
  pub event_info : List EventInfo

abbrev pub Table : Type 0
Table = List StateInfo

-- The dimensions and the default actions that the constructor is given.
pub record Defaults : Type 0 where
  pub max_states : ℕ
  pub max_events : ℕ
  pub entry_func : Ptr
  pub leave_func : Ptr
  pub trans_func : Ptr

-- `event_info[ev]` of one state, and `m_p_sm_table[st].event_info[ev]`; `none` is out of bounds.
abbrev pub event_at : Option StateInfo → ℕ → Option EventInfo
event_at none ev = none
event_at (some s) ev = get_elem? s.event_info ev

abbrev pub cell : Table → ℕ → ℕ → Option EventInfo
cell t st ev = event_at (get_elem? t st) ev

abbrev pub set_event : ℕ → EventInfo → StateInfo → StateInfo
set_event ev info s = record s { event_info = modify s.event_info ev (λ _. info) }

-- The two nested loops that fill the table with its default values.
pub default_table : Defaults → Table
default_table d = replicate d.max_states (record {
  entry_func = d.entry_func;
  leave_func = d.leave_func;
  event_info =
      replicate d.max_events (record { next_state = sm_st_stay; trans_func = d.trans_func });
})

-- The write of a transition, if the cell still has the default action.
fill_cell : Defaults → ℕ → ℕ → TableLine → Table → Option EventInfo → Option Table
fill_cell d st ev l t none = none
fill_cell d st ev l t (some old) =
    if old.trans_func == d.trans_func
    then some (
        modify t st
          (set_event ev (record { next_state = l.next_state; trans_func = l.action_func })))
    else none

fill_event : Defaults → ℕ → TableLine → Table → Option ℕ → Option Table
unfolding fill_cell
fill_event d st l t none = none
fill_event d st l t (some ev) =
    if at_least l.next_state d.max_states then none else fill_cell d st ev l t (cell t st ev)

fill_state : Defaults → TableLine → Table → Option ℕ → Option Table
unfolding fill_event
fill_state d l t none = none
fill_state d l t (some st) =
    if eq_int l.event sm_state_entry
    then some (modify t st (λ s. record s { entry_func = l.action_func }))
    else if eq_int l.event sm_state_leave
    then some (modify t st (λ s. record s { leave_func = l.action_func }))
    else fill_event d st l t (index l.event d.max_events)

-- One round of the loop over the short table; `none` is the return of ERROR.
pub fill_line : Defaults → TableLine → Table → Option Table
unfolding fill_state
fill_line d l t = fill_state d l t (index l.state d.max_states)

-- The loop, which the line with SM_NO_ST ends. A bad line leaves the table as it is by then.
-- `none` is a short table without its last line, which is read out of bounds.
pub fill : Defaults → List TableLine → Table → Option (ℤ × Table)
fill d [] t = none
fill d (l ∷ ls) t =
    if eq_int l.state sm_no_st
    then some (pos 0, t)
    else elim (fill_line d l t) [ none ↦ some (error, t) | some t' ↦ fill d ls t' ]

unfoldable pub process_sparse_table : Defaults → List TableLine → Option (ℤ × Table)
unfolding fill default_table fill_line
process_sparse_table d short_table = fill d short_table (default_table d)
