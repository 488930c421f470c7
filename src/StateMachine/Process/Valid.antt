-- ===== src/StateMachine/Process/Valid.antt =====
-- Machines of src/state_machine/sm.cpp that can serve an event, clients whose posts come to an end, and
-- what is to be shown of `process_event`.
use libvma.Prelude.{
  ℕ, suc, ◌+◌, ◌-◌, ◌*◌, ◌≤◌, ◌≡◌, refl, ap, ◌∙◌, inl, inr, Bool, true, false, not, ◌&&◌, some,
  List, [], ◌∷◌, ◌++◌, map, arith, ltb, length, length-append, Bool-cases, ◌≢◌, All, All-get_elem?,
  get_elem?-lt, All-append,
}
use native.Mathlib.Decide.{dec_le}
use libvma.Prelude.Int.{ℤ, pos, negsuc}
use libvma.StateMachine.Fifo.{Ptr, null, Entry, Fifo}
use libvma.StateMachine.Table.{Table, StateInfo, EventInfo, Defaults, eq_int, sm_st_stay}
use libvma.StateMachine.Table.Shape.{reaches, RowOk, TableOk}
use libvma.StateMachine.Process.{Client, Callback, Machine, at_int, transition}
use libvma.StateMachine.Process.Calls.{posted}
use libvma.StateMachine.Process.Step.{handled, delta, Moved, transition-Moved, target, delta-eq}

-- Within the table: a state, and an event that is not the one past the end.
abbrev pub is_below : ℕ → ℤ → Bool
is_below n (pos k) = ltb k n
is_below n (negsuc k) = false

pub record IsValid (d : Defaults) (m : Machine) : Type 0 where
  pub table_ok : TableOk d m.table
  pub events : m.max_events ≡ d.max_events
  pub here : is_below d.max_states m.info.old_state ≡ true
  pub notified : m.notify_func ≢ null

-- The client's callbacks post at most `width` events each, none once `depth` calls are made, and
-- events of the table only.
pub record IsTame (d : Defaults) (width depth : ℕ) (client : Client) : Type 0 where
  pub per_call : (h : List Callback) → length (client h) ≤ width
  pub ends : (h : List Callback) → depth ≤ length h → client h ≡ []
  pub legal :
      (h : List Callback) → All (λ (e : Entry). is_below d.max_events e.event ≡ true) (client h)

-- How many events callbacks may still post, after `calls` of them.
unfoldable pub budget : ℕ → ℕ → ℕ → ℕ
budget width depth calls = width * (depth - calls)

abbrev pub IsLegal : Defaults → Fifo → Type 0
IsLegal d = All (λ (e : Entry). is_below d.max_events e.event ≡ true)

-- The states that a table runs through.
abbrev pub run_table : Table → ℤ → List ℤ → ℤ
run_table t st [] = st
run_table t st (e ∷ es) = run_table t (delta t st e) es

abbrev pub events_of : Fifo → List ℤ
events_of = map (λ (e : Entry). e.event)

pub run_table-append :
    (t : Table) (st : ℤ) (xs ys : List ℤ)
    → run_table t st (xs ++ ys) ≡ run_table t (run_table t st xs) ys
run_table-append t st [] ys = refl
run_table-append t st (x ∷ xs) ys = run_table-append t (delta t st x) xs ys

-- `m'` is idle, with every event served that was posted since, in the order of arrival.
pub record Served (d : Defaults) (client : Client) (m : Machine) (event : ℤ) (m' : Machine)
    : Type 0 where
  pub new : List Callback
  pub history : m'.history ≡ new ++ m.history
  pub order : handled new ≡ event ∷ (events_of m.fifo ++ events_of (posted client new m.history))
  pub drained : m'.fifo ≡ []
  pub idle : m'.in_process ≡ false
  pub state : m'.info.old_state ≡ run_table m.table m.info.old_state (handled new)
  pub table : m'.table ≡ m.table
  pub valid : IsValid d m'

module _ (d : Defaults) where
  pub row_at :
      (t : Table) (st : ℤ)
      → TableOk d t
      → is_below d.max_states st ≡ true
      → (row : StateInfo) × (at_int t st ≡ some row)
  row_at t (pos k) ok h = get_elem?-lt t k (rw ok.height (ground arith))
  row_at t (negsuc k) ok h = cc

  cell_at :
      (row : StateInfo) (event : ℤ)
      → RowOk d row
      → is_below d.max_events event ≡ true
      → (e : EventInfo) × (at_int row.event_info event ≡ some e)
  cell_at row (pos k) ok h = get_elem?-lt row.event_info k (rw ok.width (ground arith))
  cell_at row (negsuc k) ok h = cc

  pub rows_ok :
      (t : Table) (st : ℤ) (row : StateInfo) → TableOk d t → at_int t st ≡ some row → RowOk d row
  rows_ok t (pos k) row ok h = All-get_elem? (RowOk d) t k row ok.rows h
  rows_ok t (negsuc k) row ok h = absurd (ground arith)

  next_reaches :
      (row : StateInfo) (event : ℤ) (e : EventInfo)
      → RowOk d row
      → at_int row.event_info event ≡ some e
      → reaches d.max_states e.next_state ≡ true
  next_reaches row (pos k) e ok h = All-get_elem? _ row.event_info k e ok.next h
  next_reaches row (negsuc k) e ok h = absurd (ground arith)

  moves-is_below :
      (st next : ℤ)
      → reaches d.max_states next ≡ true
      → (not (eq_int next st) && not (eq_int next sm_st_stay)) ≡ true
      → is_below d.max_states next ≡ true
  moves-is_below st (pos k) r h = r
  moves-is_below st (negsuc k) r h = absurd (ground arith)

  target-is_below :
      (st next : ℤ)
      → reaches d.max_states next ≡ true
      → is_below d.max_states st ≡ true
      → is_below d.max_states (target st next) ≡ true
  target-is_below st next r h =
      elim (Bool-cases (not (eq_int next st) && not (eq_int next sm_st_stay))) [
        | inl e ↦ rw e (moves-is_below st next r e)
        | inr e ↦ rw e h
      ]

  -- One event of the table moves a valid machine to a valid machine, by the table's transition.
  pub transition-IsValid :
      (client : Client) (m : Machine) (event : ℤ) (data_ptr : Ptr)
      → IsValid d m
      → m.in_process ≡ true
      → is_below d.max_events event ≡ true
      → (m' : Machine) × (new : List Callback) × (transition client m event data_ptr ≡ some m')
        × Moved client m m' new
        × (handled new ≡ event ∷ [])
        × (m'.info.old_state ≡ delta m.table m.info.old_state event)
        × IsValid d m'
  transition-IsValid client m event data_ptr v b legal =
      let st = m.info.old_state in
      let (row, at_row) = row_at m.table st v.table_ok v.here in
      let row_ok = rows_ok m.table st row v.table_ok at_row in
      let (e, at_event) = cell_at row event row_ok legal in
      let r = next_reaches row event e row_ok at_event in
      let (m', new, done, mv, h, state) =
        transition-Moved client m event data_ptr row e b v.notified at_row at_event
          (λ mt. row_at m.table e.next_state v.table_ok (moves-is_below st e.next_state r mt)) in
      let below : is_below d.max_states m'.info.old_state ≡ true =
        ap (is_below d.max_states) (state ∙ delta-eq m.table st event row e at_row at_event)
        ∙ target-is_below st e.next_state r v.here in
      (
        m',
        new,
        done,
        mv,
        h,
        state,
        record {
          table_ok = rw mv.same v.table_ok;
          events = rw mv.same v.events;
          here = below;
          notified = rw mv.same v.notified;
        },
      )

  module _ (client : Client) (width depth : ℕ) (tame : IsTame d width depth client) where
    pub client-budget :
        (h : List Callback) (calls : ℕ)
        → length h ≡ suc calls
        → length (client h) + budget width depth (suc calls) ≤ budget width depth calls
    unfolding budget
    client-budget h calls e = elim (dec_le depth (length h)) [
      | yes over ↦ rw (tame.ends h over) (grind arith)
      | no under ↦
          let p : depth - calls ≡ suc (depth - suc calls) = omega arith in
          rw p (omega (arith, tame.per_call h))
    ]

    pub posted-budget :
        (new old : List Callback)
        → length (posted client new old) + budget width depth (length (new ++ old))
          ≤ budget width depth (length old)
    posted-budget [] old = omega arith
    posted-budget (c ∷ new) old = omega (
      arith,
      length-append (posted client new old) (client (c ∷ (new ++ old))),
      client-budget (c ∷ (new ++ old)) (length (new ++ old)) refl,
      posted-budget new old,
    )

    pub posted-IsLegal : (new old : List Callback) → IsLegal d (posted client new old)
    posted-IsLegal [] old = tt
    posted-IsLegal (c ∷ new) old =
        All-append (λ (e : Entry). is_below d.max_events e.event ≡ true) (posted client new old)
          (client (c ∷ (new ++ old))) (posted-IsLegal new old) (tame.legal (c ∷ (new ++ old)))
