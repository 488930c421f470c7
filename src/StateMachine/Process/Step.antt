-- ===== src/StateMachine/Process/Step.antt =====
-- One event of src/state_machine/sm.cpp, from the lookup to the new state: it is the table's transition.
use mathlib.Core.List.{append-nil, append_assoc}
use libvma.Prelude.{
  ◌≡◌, refl, sym, ap, ◌∙◌, inl, inr, true, not, ◌&&◌, Option, none, some, List, [], ◌∷◌, ◌++◌,
  arith, if◌then◌else◌, Bool-cases, ◌≢◌,
}
use libvma.Prelude.Int.{ℤ}
use libvma.StateMachine.Fifo.{Ptr, null}
use libvma.StateMachine.Table.{Table, StateInfo, EventInfo, eq_int, sm_st_stay}
use libvma.StateMachine.Process.{
  SmInfo, Client, Callback, Machine, run_action, run_notify, action, notify, at_int, moves_to,
  set_info, enter, transition, transition_from, transition_to, get_curr_state,
}
use libvma.StateMachine.Process.Calls.{
  posted, posted-append, Called, Called-none, Called-trans, called_if, run_action-Called,
  run_notify-Called,
}

-- The events that the notify function was told of, oldest first.
abbrev pub handled : List Callback → List ℤ
handled [] = []
handled (notify state event app ∷ h) = handled h ++ (event ∷ [])
handled (action f info ∷ h) = handled h

pub handled-append : (xs ys : List Callback) → handled (xs ++ ys) ≡ handled ys ++ handled xs
handled-append [] ys = sym (append-nil (handled ys))
handled-append (notify s e a ∷ xs) ys =
    rw (handled-append xs ys) (append_assoc (handled ys) (handled xs) (e ∷ []))
handled-append (action f i ∷ xs) ys = handled-append xs ys

-- The state that follows `st` where the table says `next`.
abbrev pub target : ℤ → ℤ → ℤ
target st next = if not (eq_int next st) && not (eq_int next sm_st_stay) then next else st

abbrev pub target_of : ℤ → Option EventInfo → ℤ
target_of st none = st
target_of st (some e) = target st e.next_state

abbrev pub event_of : Option StateInfo → ℤ → Option EventInfo
event_of none event = none
event_of (some row) event = at_int row.event_info event

-- The transition function that a table stands for.
abbrev pub delta : Table → ℤ → ℤ → ℤ
delta t st event = target_of st (event_of (at_int t st) event)

-- `m'` is `m` after the callbacks `new`, with some other `info`.
pub record Moved (client : Client) (m : Machine) (m' : Machine) (new : List Callback) : Type 0 where
  pub info : SmInfo
  pub same : m' ≡ record m {
    history = new ++ m.history;
    fifo = m.fifo ++ posted client new m.history;
    info = info;
  }

handled-called_if : (f : Ptr) (i : SmInfo) → handled (called_if f (action f i)) ≡ []
handled-called_if f i = ground arith

enter-Moved :
    (client : Client) (next : ℤ) (m : Machine)
    → m.in_process ≡ true
    → (moves_to m next ≡ true → (dst : StateInfo) × (at_int m.table next ≡ some dst))
    → (m' : Machine) × (new : List Callback) × (enter client next m ≡ some m')
      × Moved client m m' new
      × (handled new ≡ [])
      × (m'.info.old_state ≡ target m.info.old_state next)
unfolding enter
enter-Moved client next m b there = elim (Bool-cases (moves_to m next)) [
  | inl e ↦
      let (dst, at) = there e in
      let r = run_action client dst.entry_func m in
      let called = run_action-Called client dst.entry_func m b in
      (
        record r { info = record r.info { old_state = next } },
        called_if dst.entry_func (action dst.entry_func m.info),
        rw (e, at),
        record { info = record m.info { old_state = next }; same = rw called.same },
        handled-called_if dst.entry_func m.info,
        rw e,
      )
  | inr e ↦ (m, [], rw e, record { info = m.info; same = (Called-none client m).same }, refl, rw e)
]

Called-Moved :
    (client : Client) (a b c : Machine) (n1 n2 : List Callback)
    → Called client a b n1
    → Moved client b c n2
    → Moved client a c (n2 ++ n1)
Called-Moved client a b c n1 n2 p q = record {
  info = q.info;
  same =
      rw (q.same, p.same, posted-append client n2 n1 a.history, append_assoc n2 n1 a.history)
        (ap (λ f. record a { history = n2 ++ (n1 ++ a.history); fifo = f; info = q.info })
          (append_assoc a.fifo (posted client n1 a.history) (posted client n2 (n1 ++ a.history))));
}

-- The leave function, called if the state is left.
leave : Client → ℤ → Ptr → Machine → Machine
leave client next f m = if moves_to m next then run_action client f m else m

leave-Called :
    (client : Client) (next : ℤ) (f : Ptr) (m : Machine)
    → m.in_process ≡ true
    → (new : List Callback) × Called client m (leave client next f m) new × (handled new ≡ [])
unfolding leave
leave-Called client next f m b = elim (Bool-cases (moves_to m next)) [
  | inl e ↦ (
    called_if f (action f m.info),
    rw e (run_action-Called client f m b),
    handled-called_if f m.info,
  )
  | inr e ↦ ([], rw e (Called-none client m), refl)
]

-- What the leave, transition and entry functions do, from the machine that the notify call leaves.
acts-Moved :
    (client : Client) (next : ℤ) (f g : Ptr) (m : Machine)
    → m.in_process ≡ true
    → (moves_to m next ≡ true → (dst : StateInfo) × (at_int m.table next ≡ some dst))
    → (m' : Machine) × (new : List Callback) × (enter client next
          (run_action client g (leave client next f m))
        ≡ some m')
      × Moved client m m' new
      × (handled new ≡ [])
      × (m'.info.old_state ≡ target m.info.old_state next)
acts-Moved client next f g m b there =
    let (n2, c2, h2) = leave-Called client next f m b in
    let m2 = leave client next f m in
    let b2 : m2.in_process ≡ true = rw c2.same b in
    let c3 = run_action-Called client g m2 b2 in
    let m3 = run_action client g m2 in
    let n3 = called_if g (action g m2.info) in
    let c = Called-trans client m m2 m3 n2 n3 c2 c3 in
    let b3 : m3.in_process ≡ true = rw c.same b in
    let there3 : moves_to m3 next ≡ true → (dst : StateInfo) × (at_int m3.table next ≡ some dst) =
      rw c.same there in
    let (m', n4, e, mv, h4, st) = enter-Moved client next m3 b3 there3 in
    (
      m',
      n4 ++ (n3 ++ n2),
      e,
      Called-Moved client m m3 m' (n3 ++ n2) n4 c mv,
      rw (handled-append n4 (n3 ++ n2), handled-append n3 n2, h2, h4, handled-called_if g m2.info),
      st ∙ rw c.same,
    )

transition-eq :
    (client : Client) (m : Machine) (event : ℤ) (d : Ptr) (row : StateInfo) (e : EventInfo)
    → at_int m.table (get_curr_state m) ≡ some row
    → at_int row.event_info event ≡ some e
    → transition client m event d
      ≡ enter client e.next_state (
          run_action client e.trans_func (
            leave client e.next_state row.leave_func
              (run_notify client event (set_info m e.next_state event d))))
unfolding transition leave
transition-eq client m event d row e at_row at_event =
    ap (transition_from client m event d) at_row ∙ ap (transition_to client m event d row) at_event

pub delta-eq :
    (t : Table) (st event : ℤ) (row : StateInfo) (e : EventInfo)
    → at_int t st ≡ some row
    → at_int row.event_info event ≡ some e
    → delta t st event ≡ target st e.next_state
delta-eq t st event row e at_row at_event =
    ap (λ r. target_of st (event_of r event)) at_row ∙ ap (target_of st) at_event

handled-notify :
    (f : Ptr) (state event : ℤ) (app : Ptr)
    → f ≢ null
    → handled (called_if f (notify state event app)) ≡ event ∷ []
handled-notify f state event app h = ground arith

pub transition-Moved :
    (client : Client) (m : Machine) (event : ℤ) (d : Ptr) (row : StateInfo) (e : EventInfo)
    → m.in_process ≡ true
    → m.notify_func ≢ null
    → at_int m.table (get_curr_state m) ≡ some row
    → at_int row.event_info event ≡ some e
    → (moves_to m e.next_state ≡ true
        → (dst : StateInfo) × (at_int m.table e.next_state ≡ some dst))
    → (m' : Machine) × (new : List Callback) × (transition client m event d ≡ some m')
      × Moved client m m' new
      × (handled new ≡ event ∷ [])
      × (m'.info.old_state ≡ delta m.table m.info.old_state event)
transition-Moved client m event d row e b notified at_row at_event there =
    let m0 = set_info m e.next_state event d in
    let n1 = called_if m.notify_func (notify (get_curr_state m) event m.info.app_hndl) in
    let m1 = run_notify client event m0 in
    let c1 = run_notify-Called client event m0 b in
    let b1 : m1.in_process ≡ true = rw c1.same b in
    let there1 : moves_to m1 e.next_state ≡ true
        → (dst : StateInfo) × (at_int m1.table e.next_state ≡ some dst) =
      rw c1.same there in
    let (m', n2, done, mv, h2, st) =
      acts-Moved client e.next_state row.leave_func e.trans_func m1 b1 there1 in
    let mv' = Called-Moved client m0 m1 m' n1 n2 c1 mv in
    (
      m',
      n2 ++ n1,
      transition-eq client m event d row e at_row at_event ∙ done,
      record { info = mv'.info; same = mv'.same },
      rw (handled-append n2 n1, h2)
          (append-nil (handled n1)
            ∙ handled-notify m.notify_func (get_curr_state m) event m.info.app_hndl notified),
      st
          ∙ (ap (λ (x : Machine). target x.info.old_state e.next_state) c1.same
              ∙ sym (delta-eq m.table (get_curr_state m) event row e at_row at_event)),
    )
