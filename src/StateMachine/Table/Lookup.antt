-- ===== src/StateMachine/Table/Lookup.antt =====
-- What a lookup in the full table of src/state_machine/sm.cpp finds, against the short table's lines.
use libvma.Prelude.{
  ℕ, ◌≡◌, refl, subst, inl, inr, Bool, true, ◌&&◌, some, List, [], ◌∷◌, arith, ◌<◌, ◌∙◌, ◌==◌,
  if◌then◌else◌, get_elem?, get_elem?-modify_ne, get_elem?-modify_self, get_elem?-replicate,
  Bool-cases, Option-cases, ==_iff,
}
use native.Mathlib.Decide.{ℕ_discrete}
use libvma.Prelude.Int.{ℤ, pos, negsuc}
use libvma.StateMachine.Fifo.{Ptr}
use libvma.StateMachine.Table.Cases.{
  Filled, on_entry, on_leave, on_event, line_info, fill_line-Filled,
}
use libvma.StateMachine.Table.{
  Table, TableLine, StateInfo, EventInfo, Defaults, default_table, fill_line, fill,
  process_sparse_table, eq_int, index, set_event, sm_state_entry, sm_state_leave, sm_no_st,
  sm_st_stay,
}

-- The line is about the state `st` and the event `ev`.
abbrev pub is_for : ℕ → ℤ → TableLine → Bool
is_for st ev l = eq_int l.state (pos st) && eq_int l.event ev

-- The last line before the SM_NO_ST line that is about `st` and `ev`, or else `old`.
abbrev pub last_info : ℕ → ℕ → EventInfo → List TableLine → EventInfo
last_info st ev old [] = old
last_info st ev old (l ∷ ls) =
    if eq_int l.state sm_no_st
    then old
    else last_info st ev (if is_for st (pos ev) l then line_info l else old) ls

-- The same for the action of the pseudo events SM_STATE_ENTRY and SM_STATE_LEAVE.
abbrev pub last_action : ℕ → ℤ → Ptr → List TableLine → Ptr
last_action st pseudo old [] = old
last_action st pseudo old (l ∷ ls) =
    if eq_int l.state sm_no_st
    then old
    else last_action st pseudo (if is_for st pseudo l then l.action_func else old) ls

-- What the table holds for one state and one event.
pub record Holds (t : Table) (st ev : ℕ) (info : EventInfo) (entry leave : Ptr) : Type 0 where
  pub row : StateInfo
  pub at : get_elem? t st ≡ some row
  pub info_at : get_elem? row.event_info ev ≡ some info
  pub entry_at : row.entry_func ≡ entry
  pub leave_at : row.leave_func ≡ leave

eq_int→eq : (a b : ℤ) → eq_int a b ≡ true → a ≡ b
eq_int→eq (pos a) (pos b) h = ground arith
eq_int→eq (negsuc a) (negsuc b) h = ground arith
eq_int→eq (pos a) (negsuc b) h = absurd (ground arith)
eq_int→eq (negsuc a) (pos b) h = absurd (ground arith)

index-eq : (x : ℤ) (n st : ℕ) → index x n ≡ some st → x ≡ pos st
index-eq (pos k) n st h = ground arith
index-eq (negsuc k) n st h = ground arith

module _ (d : Defaults) (st ev : ℕ) where
  abbrev next_info : TableLine → EventInfo → EventInfo
  next_info l info = if is_for st (pos ev) l then line_info l else info

  abbrev next_action : ℤ → TableLine → Ptr → Ptr
  next_action pseudo l f = if is_for st pseudo l then l.action_func else f

  info_at-set_event :
      (v : ℕ) (l : TableLine) (s : StateInfo) (info : EventInfo)
      → get_elem? s.event_info ev ≡ some info
      → get_elem? (set_event v (line_info l) s).event_info ev
        ≡ some (if v == ev then line_info l else info)
  info_at-set_event v l s info h = elim (ℕ_discrete v ev) [
    | yes same ↦ rw (same, (==_iff ev ev).1 refl) (get_elem?-modify_self s.event_info ev _ info h)
    | no other ↦
        ground (arith, get_elem?-modify_ne s.event_info v ev (λ (i : EventInfo). line_info l) other)
  ]

  Filled-Holds :
      (l : TableLine) (t t' : Table) (info : EventInfo) (entry leave : Ptr)
      → Filled d l t t'
      → Holds t st ev info entry leave
      → Holds t' st ev
          (next_info l info)
          (next_action sm_state_entry l entry)
          (next_action sm_state_leave l leave)
  Filled-Holds l t t' info entry leave (on_entry k a b e) h =
      let p = index-eq l.state d.max_states k a in
      let q = eq_int→eq l.event sm_state_entry b in
      elim (ℕ_discrete k st) [
        | yes same ↦
            rw (e, p, q, same)
              (record {
                row = record h.row { entry_func = l.action_func };
                at = get_elem?-modify_self t st _ h.row h.at;
                info_at = ground arith;
                entry_at = ground arith;
                leave_at = ground arith;
              })
        | no other ↦
            rw (e, p, q)
              (record {
                row = h.row;
                at = get_elem?-modify_ne t k st _ other ∙ h.at;
                info_at = ground arith;
                entry_at = ground arith;
                leave_at = ground arith;
              })
      ]
  Filled-Holds l t t' info entry leave (on_leave k a b c e) h =
      let p = index-eq l.state d.max_states k a in
      let q = eq_int→eq l.event sm_state_leave c in
      elim (ℕ_discrete k st) [
        | yes same ↦
            rw (e, p, q, same)
              (record {
                row = record h.row { leave_func = l.action_func };
                at = get_elem?-modify_self t st _ h.row h.at;
                info_at = ground arith;
                entry_at = ground arith;
                leave_at = ground arith;
              })
        | no other ↦
            rw (e, p, q)
              (record {
                row = h.row;
                at = get_elem?-modify_ne t k st _ other ∙ h.at;
                info_at = ground arith;
                entry_at = ground arith;
                leave_at = ground arith;
              })
      ]
  Filled-Holds l t t' info entry leave (on_event k v old a b c f g i e) h =
      let p = index-eq l.state d.max_states k a in
      let q = index-eq l.event d.max_events v f in
      elim (ℕ_discrete k st) [
        | yes same ↦
            rw (e, p, q, same)
              (record {
                row = set_event v (line_info l) h.row;
                at = get_elem?-modify_self t st _ h.row h.at;
                info_at = rw ((==_iff st st).1 refl) (info_at-set_event v l h.row info h.info_at);
                entry_at = ground arith;
                leave_at = ground arith;
              })
        | no other ↦
            rw (e, p, q)
              (record {
                row = h.row;
                at = get_elem?-modify_ne t k st _ other ∙ h.at;
                info_at = ground arith;
                entry_at = ground arith;
                leave_at = ground arith;
              })
      ]

  fill-Holds :
      (ls : List TableLine) (t t' : Table) (info : EventInfo) (entry leave : Ptr)
      → fill d ls t ≡ some (pos 0, t')
      → Holds t st ev info entry leave
      → Holds t' st ev
          (last_info st ev info ls)
          (last_action st sm_state_entry entry ls)
          (last_action st sm_state_leave leave ls)
  unfolding fill
  fill-Holds [] t t' info entry leave e h = absurd (ground arith)
  fill-Holds (l ∷ ls) t t' info entry leave e h = elim (Bool-cases (eq_int l.state sm_no_st)) [
    | inl a ↦
        let p : t ≡ t' = ground arith in rw a (subst (λ u. Holds u st ev info entry leave) p h)
    | inr a ↦ elim (Option-cases (fill_line d l t)) [
      | inl f ↦ absurd (ground arith)
      | inr (u, f) ↦ rw a (
          fill-Holds ls u t' _ _ _ (ground arith)
            (Filled-Holds l t u info entry leave (fill_line-Filled d l t u f) h))
    ]
  ]

-- A short table that is taken in with no error is found again: for each state and event the full
-- table has the next state and the action of the line about them (SM_ST_STAY and the default action
-- if there is none), and for each state the actions of its entry and leave lines, or the defaults.
pub process_sparse_table-Holds :
    (d : Defaults) (ls : List TableLine) (t : Table) (st ev : ℕ)
    → process_sparse_table d ls ≡ some (pos 0, t)
    → st < d.max_states
    → ev < d.max_events
    → Holds t st ev
        (last_info st ev (record { next_state = sm_st_stay; trans_func = d.trans_func }) ls)
        (last_action st sm_state_entry d.entry_func ls)
        (last_action st sm_state_leave d.leave_func ls)
unfolding process_sparse_table default_table
process_sparse_table-Holds d ls t st ev e hs he =
    fill-Holds d st ev ls (default_table d) t _ _ _ e (record {
      row = _;
      at = get_elem?-replicate d.max_states st _ hs;
      info_at = get_elem?-replicate d.max_events ev _ he;
      entry_at = refl;
      leave_at = refl;
    })
