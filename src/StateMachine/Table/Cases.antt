-- ===== src/StateMachine/Table/Cases.antt =====
-- The three ways in which a line of the short table of src/state_machine/sm.cpp is taken in.
use libvma.Prelude.{ℕ, ◌≡◌, true, false, some, arith, modify, Bool-cases, Option-cases, inl, inr}
use libvma.StateMachine.Table.{
  Table, TableLine, EventInfo, Defaults, fill_cell, fill_event, fill_state, fill_line, eq_int,
  index, at_least, cell, set_event, sm_state_entry, sm_state_leave,
}

abbrev pub line_info : TableLine → EventInfo
line_info l = record { next_state = l.next_state; trans_func = l.action_func }

pub data Filled (d : Defaults) (l : TableLine) (t t' : Table) : Type 0 where
  on_entry :
      (st : ℕ)
      → index l.state d.max_states ≡ some st
      → eq_int l.event sm_state_entry ≡ true
      → t' ≡ modify t st (λ s. record s { entry_func = l.action_func })
      → Filled d l t t'
  on_leave :
      (st : ℕ)
      → index l.state d.max_states ≡ some st
      → eq_int l.event sm_state_entry ≡ false
      → eq_int l.event sm_state_leave ≡ true
      → t' ≡ modify t st (λ s. record s { leave_func = l.action_func })
      → Filled d l t t'
  on_event :
      (st ev : ℕ) (old : EventInfo)
      → index l.state d.max_states ≡ some st
      → eq_int l.event sm_state_entry ≡ false
      → eq_int l.event sm_state_leave ≡ false
      → index l.event d.max_events ≡ some ev
      → at_least l.next_state d.max_states ≡ false
      → cell t st ev ≡ some old
      → t' ≡ modify t st (set_event ev (line_info l))
      → Filled d l t t'

fill_event-Filled :
    (d : Defaults) (l : TableLine) (t t' : Table) (st : ℕ)
    → index l.state d.max_states ≡ some st
    → eq_int l.event sm_state_entry ≡ false
    → eq_int l.event sm_state_leave ≡ false
    → fill_event d st l t (index l.event d.max_events) ≡ some t'
    → Filled d l t t'
unfolding fill_event fill_cell
fill_event-Filled d l t t' st a b c h = elim (Option-cases (index l.event d.max_events)) [
  | inl e ↦ absurd (ground arith)
  | inr (ev, e) ↦ elim (Option-cases (cell t st ev)) [
    | inl f ↦ absurd (ground arith)
    | inr (old, f) ↦ on_event st ev old a b c e (ground arith) f (ground arith)
  ]
]

pub fill_line-Filled :
    (d : Defaults) (l : TableLine) (t t' : Table) → fill_line d l t ≡ some t' → Filled d l t t'
unfolding fill_line fill_state
fill_line-Filled d l t t' h = elim (Option-cases (index l.state d.max_states)) [
  | inl e ↦ absurd (ground arith)
  | inr (st, e) ↦ elim (Bool-cases (eq_int l.event sm_state_entry)) [
    | inl a ↦ on_entry st e a (ground arith)
    | inr a ↦ elim (Bool-cases (eq_int l.event sm_state_leave)) [
      | inl b ↦ on_leave st e a b (ground arith)
      | inr b ↦ fill_event-Filled d l t t' st e a b (ground arith)
    ]
  ]
]
