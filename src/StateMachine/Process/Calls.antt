-- ===== src/StateMachine/Process/Calls.antt =====
-- Callbacks of src/state_machine/sm.cpp: what a run of them does to the machine, and how many events
-- they can leave in the queue.
use mathlib.Core.List.{append-nil, append_assoc}
use libvma.Prelude.{
  ◌≡◌, sym, ap, ◌∙◌, inl, inr, true, false, List, [], ◌∷◌, ◌++◌, arith, ◌==◌, if◌then◌else◌,
  Bool-cases,
}
use libvma.Prelude.Int.{ℤ, pos}
use libvma.StateMachine.Fifo.{Ptr, null, Entry, push_back}
use libvma.StateMachine.Table.{error}
use libvma.StateMachine.Process.{
  Client, Callback, Machine, lock_in_process, post_all, run_callback, run_action, run_notify,
  action, notify, get_curr_state,
}

-- The events that the callbacks `new` posted, oldest first, where `old` was the history before.
abbrev pub posted : Client → List Callback → List Callback → List Entry
posted client [] old = []
posted client (c ∷ new) old = posted client new old ++ client (c ∷ (new ++ old))

pub posted-append :
    (client : Client) (n2 n1 old : List Callback)
    → posted client (n2 ++ n1) old ≡ posted client n1 old ++ posted client n2 (n1 ++ old)
posted-append client [] n1 old = sym (append-nil _)
posted-append client (c ∷ n2) n1 old =
    rw (posted-append client n2 n1 old, append_assoc n2 n1 old)
      (append_assoc (posted client n1 old) (posted client n2 (n1 ++ old))
        (client (c ∷ (n2 ++ (n1 ++ old)))))

-- Callbacks only add to the history and to the queue.
pub record Called (client : Client) (m m' : Machine) (new : List Callback) : Type 0 where
  pub same :
      m' ≡ record m { history = new ++ m.history; fifo = m.fifo ++ posted client new m.history }

pub Called-none : (client : Client) (m : Machine) → Called client m m []
Called-none client m = record { same = rw (append-nil m.fifo) }

pub Called-trans :
    (client : Client) (a b c : Machine) (n1 n2 : List Callback)
    → Called client a b n1
    → Called client b c n2
    → Called client a c (n2 ++ n1)
Called-trans client a b c n1 n2 p q = record {
  same =
      rw (q.same, p.same, posted-append client n2 n1 a.history, append_assoc n2 n1 a.history)
        (ap (λ f. record a { history = n2 ++ (n1 ++ a.history); fifo = f })
          (append_assoc a.fifo _ _));
}

-- What arrives while an event is in process waits at the end of the queue.
pub lock_in_process-busy :
    (m : Machine) (event : ℤ) (ev_data : Ptr)
    → m.in_process ≡ true
    → lock_in_process m event ev_data ≡ (error, record m { fifo = push_back m.fifo event ev_data })
unfolding lock_in_process
lock_in_process-busy m event ev_data b = ground arith

pub lock_in_process-idle :
    (m : Machine) (event : ℤ) (ev_data : Ptr)
    → m.in_process ≡ false
    → lock_in_process m event ev_data ≡ (pos 0, record m { in_process = true })
unfolding lock_in_process
lock_in_process-idle m event ev_data b = ground arith

post_all-busy :
    (es : List Entry) (m : Machine)
    → m.in_process ≡ true
    → post_all es m ≡ record m { fifo = m.fifo ++ es }
unfolding post_all
post_all-busy [] m b = rw (append-nil m.fifo)
post_all-busy (e ∷ es) m b = rw (lock_in_process-busy m e.event e.ev_data b) (
    post_all-busy es (record m { fifo = m.fifo ++ (e ∷ []) }) b
    ∙ ap (λ f. record m { fifo = f }) (append_assoc m.fifo (e ∷ []) es))

run_callback-Called :
    (client : Client) (c : Callback) (m : Machine)
    → m.in_process ≡ true
    → Called client m (run_callback client c m) (c ∷ [])
unfolding run_callback
run_callback-Called client c m b = record {
  same = post_all-busy (client (c ∷ m.history)) (record m { history = c ∷ m.history }) b;
}

-- The callback that a function pointer stands for, if it is not NULL.
abbrev pub called_if : Ptr → Callback → List Callback
called_if f c = if f == null then [] else c ∷ []

pub run_action-Called :
    (client : Client) (f : Ptr) (m : Machine)
    → m.in_process ≡ true
    → Called client m (run_action client f m) (called_if f (action f m.info))
unfolding run_action
run_action-Called client f m b = elim (Bool-cases (f == null)) [
  | inl e ↦ rw e (Called-none client m)
  | inr e ↦ rw e (run_callback-Called client (action f m.info) m b)
]

pub run_notify-Called :
    (client : Client) (event : ℤ) (m : Machine)
    → m.in_process ≡ true
    → Called client m
        (run_notify client event m)
        (called_if m.notify_func (notify (get_curr_state m) event m.info.app_hndl))
unfolding run_notify
run_notify-Called client event m b = elim (Bool-cases (m.notify_func == null)) [
  | inl e ↦ rw e (Called-none client m)
  | inr e ↦ rw e (run_callback-Called client (notify (get_curr_state m) event m.info.app_hndl) m b)
]
