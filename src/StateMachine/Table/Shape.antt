-- ===== src/StateMachine/Table/Shape.antt =====
-- What `process_sparse_table` of src/state_machine/sm.cpp leaves in memory: the array keeps its
-- dimensions, and every next state in it can be used as an index.
use libvma.Prelude.{
  ℕ, ◌≡◌, refl, subst, inl, inr, Bool, true, false, ◌||◌, some, List, [], ◌∷◌, arith, ltb, ◌==◌,
  length, modify, length-modify, All, All-modify, All-replicate, length-replicate, Bool-cases,
  Option-cases,
}
use libvma.Prelude.Int.{ℤ, pos, negsuc}
use libvma.StateMachine.Table.Cases.{
  Filled, on_entry, on_leave, on_event, line_info, fill_line-Filled,
}
use libvma.StateMachine.Table.{
  at_least, Table, TableLine, StateInfo, EventInfo, Defaults, default_table, fill_line, fill,
  process_sparse_table, eq_int, set_event, sm_state_entry, sm_state_leave, sm_no_st,
}

-- A next state that the machine can follow: a state of the table, or SM_ST_STAY.
abbrev pub reaches : ℕ → ℤ → Bool
reaches n (pos k) = ltb k n
reaches n (negsuc k) = k == 2

-- What a client has to see to: no negative next state but SM_ST_STAY on a transition's line.
abbrev pub next_ok : ℤ → Bool
next_ok (pos k) = true
next_ok (negsuc k) = k == 2

abbrev pub line_ok : TableLine → Bool
line_ok l =
    eq_int l.state sm_no_st
    || (eq_int l.event sm_state_entry || (eq_int l.event sm_state_leave || next_ok l.next_state))

pub record RowOk (d : Defaults) (s : StateInfo) : Type 0 where
  pub width : length s.event_info ≡ d.max_events
  pub next : All (λ (e : EventInfo). reaches d.max_states e.next_state ≡ true) s.event_info

pub record TableOk (d : Defaults) (t : Table) : Type 0 where
  pub height : length t ≡ d.max_states
  pub rows : All (RowOk d) t

default_table-TableOk : (d : Defaults) → TableOk d (default_table d)
unfolding default_table
default_table-TableOk d = record {
  height = length-replicate d.max_states _;
  rows = All-replicate (RowOk d) d.max_states _ (record {
    width = length-replicate d.max_events _;
    next = All-replicate _ d.max_events _ refl;
  });
}

module _ (d : Defaults) where
  modify-TableOk :
      (t : Table) (st : ℕ) (f : StateInfo → StateInfo)
      → ((s : StateInfo) → RowOk d s → RowOk d (f s))
      → TableOk d t
      → TableOk d (modify t st f)
  modify-TableOk t st f keep v = record {
    height = rw (length-modify t st f) v.height;
    rows = All-modify (RowOk d) t st f keep v.rows;
  }

  set_event-RowOk :
      (ev : ℕ) (info : EventInfo) (s : StateInfo)
      → reaches d.max_states info.next_state ≡ true
      → RowOk d s
      → RowOk d (set_event ev info s)
  set_event-RowOk ev info s ok r = record {
    width = rw (length-modify s.event_info ev (λ _. info)) r.width;
    next = All-modify _ s.event_info ev (λ _. info) (λ a _. ok) r.next;
  }

  reaches_of : (n : ℕ) (x : ℤ) → next_ok x ≡ true → at_least x n ≡ false → reaches n x ≡ true
  reaches_of n (pos k) ok h = ground arith
  reaches_of n (negsuc k) ok h = ok

  line_ok-next_ok :
      (l : TableLine)
      → line_ok l ≡ true
      → eq_int l.state sm_no_st ≡ false
      → eq_int l.event sm_state_entry ≡ false
      → eq_int l.event sm_state_leave ≡ false
      → next_ok l.next_state ≡ true
  line_ok-next_ok l ok n a b = ground arith

  Filled-TableOk :
      (l : TableLine) (t t' : Table)
      → line_ok l ≡ true
      → eq_int l.state sm_no_st ≡ false
      → TableOk d t
      → Filled d l t t'
      → TableOk d t'
  Filled-TableOk l t t' ok n v (on_entry st a b e) =
      rw e (modify-TableOk t st _ (λ s r. record { width = r.width; next = r.next }) v)
  Filled-TableOk l t t' ok n v (on_leave st a b c e) =
      rw e (modify-TableOk t st _ (λ s r. record { width = r.width; next = r.next }) v)
  Filled-TableOk l t t' ok n v (on_event st ev old a b c f g i e) = rw e (
      modify-TableOk t st _
        (λ s.
          set_event-RowOk ev (line_info l) s
            (reaches_of d.max_states l.next_state (line_ok-next_ok l ok n b c) g))
        v)

  fill-TableOk :
      (ls : List TableLine) (t t' : Table) (ret : ℤ)
      → All (λ l. line_ok l ≡ true) ls
      → TableOk d t
      → fill d ls t ≡ some (ret, t')
      → TableOk d t'
  unfolding fill
  fill-TableOk [] t t' ret ok v e = absurd (ground arith)
  fill-TableOk (l ∷ ls) t t' ret ok v e = elim (Bool-cases (eq_int l.state sm_no_st)) [
    | inl h ↦ let p : t ≡ t' = ground arith in subst (TableOk d) p v
    | inr h ↦ elim (Option-cases (fill_line d l t)) [
      | inl f ↦ let p : t ≡ t' = ground arith in subst (TableOk d) p v
      | inr (u, f) ↦
          fill-TableOk ls u t' ret ok.1 (Filled-TableOk l t u ok.0 h v (fill_line-Filled d l t u f))
            (ground arith)
    ]
  ]

  -- Whatever the short table holds, and also where it is refused half-way, the array has a row for
  -- each state and a cell for each event, and each next state in it is a row or SM_ST_STAY, if no
  -- transition's line names another negative state.
  pub process_sparse_table-TableOk :
      (ls : List TableLine) (t : Table) (ret : ℤ)
      → All (λ l. line_ok l ≡ true) ls
      → process_sparse_table d ls ≡ some (ret, t)
      → TableOk d t
  unfolding process_sparse_table
  process_sparse_table-TableOk ls t ret ok e =
      fill-TableOk ls (default_table d) t ret ok (default_table-TableOk d) e
