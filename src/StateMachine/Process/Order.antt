-- ===== src/StateMachine/Process/Order.antt =====
-- `process_event` of src/state_machine/sm.cpp as a whole: run to completion, in order of arrival.
use mathlib.Core.List.{append_assoc, map-append}
use libvma.Prelude.{
  ℕ, zero, suc, ◌+◌, ◌<◌, ◌≡◌, refl, sym, ap, ◌∙◌, true, false, List, [], ◌∷◌, ◌++◌, arith, length,
  length-append, All-append, some,
}
use libvma.Prelude.Int.{ℤ, pos, negsuc}
use libvma.StateMachine.Fifo.{Ptr, Entry, Fifo, push_back}
use libvma.StateMachine.Table.{Defaults}
use libvma.StateMachine.Process.{
  Client, Callback, Machine, transition, Run, returns, returning, unlock_in_process, is_illegal,
  process_event,
}
use libvma.StateMachine.Process.Calls.{
  posted, posted-append, lock_in_process-busy, lock_in_process-idle,
}
use libvma.StateMachine.Process.Step.{handled, handled-append, Moved, delta}
use libvma.StateMachine.Process.Valid.{
  IsValid, IsTame, is_below, Served, events_of, run_table, transition-IsValid, budget,
  posted-budget, IsLegal, posted-IsLegal,
}

-- A call that comes while an event is in process, as each call from a callback does, returns 0 with
-- its event behind those that wait, and changes nothing else.
pub process_event-busy :
    (fuel : ℕ) (client : Client) (m : Machine) (event : ℤ) (ev_data : Ptr)
    → m.in_process ≡ true
    → process_event (suc fuel) client m event ev_data
      ≡ returns (pos 0) (record m { fifo = push_back m.fifo event ev_data })
unfolding process_event
process_event-busy fuel client m event ev_data b = rw (lock_in_process-busy m event ev_data b)

legal-not-illegal : (n : ℕ) (event : ℤ) → is_below n event ≡ true → is_illegal n event ≡ false
legal-not-illegal n (pos k) h = ground arith
legal-not-illegal n (negsuc k) h = absurd (ground arith)

process_event-idle :
    (fuel : ℕ) (client : Client) (m m' : Machine) (event : ℤ) (ev_data : Ptr)
    → m.in_process ≡ false
    → is_illegal m.max_events event ≡ false
    → transition client (record m { in_process = true }) event ev_data ≡ some m'
    → process_event (suc fuel) client m event ev_data
      ≡ unlock_in_process (process_event fuel client) (pos 0) m'
unfolding process_event
process_event-idle fuel client m m' event ev_data b legal done =
    rw (lock_in_process-idle m event ev_data b, legal, done)

unlock_in_process-pops :
    (process : Machine → ℤ → Ptr → Run) (ret : ℤ) (m : Machine) (e : Entry) (rest : Fifo)
    → m.fifo ≡ e ∷ rest
    → unlock_in_process process ret m
      ≡ returning ret (process (record m { fifo = rest; in_process = false }) e.event e.ev_data)
unfolding unlock_in_process
unlock_in_process-pops process ret m e rest h = rw h

pub unlock_in_process-idle :
    (process : Machine → ℤ → Ptr → Run) (ret : ℤ) (m : Machine)
    → m.fifo ≡ []
    → unlock_in_process process ret m ≡ returns ret (record m { fifo = []; in_process = false })
unfolding unlock_in_process
unlock_in_process-idle process ret m h = rw h

module _ (d : Defaults) (client : Client) where
  -- The machine `m2` has served `event`, and `m3` is it with the next event taken off the queue.
  Served-join :
      (m m2 m4 : Machine) (event : ℤ) (new : List Callback) (e : Entry) (rest : Fifo)
      → Moved client (record m { in_process = true }) m2 new
      → handled new ≡ event ∷ []
      → m2.info.old_state ≡ delta m.table m.info.old_state event
      → m2.fifo ≡ e ∷ rest
      → Served d client (record m2 { fifo = rest; in_process = false }) e.event m4
      → Served d client m event m4
  Served-join m m2 m4 event new e rest mv h st q s = record {
    new = s.new ++ new;
    history =
        s.history
        ∙ (ap (λ (x : Machine). s.new ++ x.history) mv.same
            ∙ sym (append_assoc s.new new m.history));
    order =
        handled-append s.new new
        ∙ (ap (λ x. x ++ handled s.new) h ∙ ap (◌∷◌ event) (s.order ∙ tail_order));
    drained = s.drained;
    idle = s.idle;
    state =
        s.state
        ∙ (ap (λ t. run_table t m2.info.old_state (handled s.new))
              (ap (λ (x : Machine). x.table) mv.same)
            ∙ (ap (λ x. run_table m.table x (handled s.new)) st
                ∙ ap (run_table m.table m.info.old_state)
                    (sym (handled-append s.new new ∙ ap (λ x. x ++ handled s.new) h))));
    table = s.table ∙ rw mv.same;
    valid = s.valid;
  }
    where
      queue : e ∷ rest ≡ m.fifo ++ posted client new m.history
      queue = sym q ∙ ap (λ (x : Machine). x.fifo) mv.same

      tail_order :
          e.event ∷ (events_of rest ++ events_of (posted client s.new m2.history))
          ≡ events_of m.fifo ++ events_of (posted client (s.new ++ new) m.history)
      tail_order =
          ap (λ (x : Fifo). events_of x ++ events_of (posted client s.new m2.history)) queue
          ∙ (ap (λ (x : List ℤ). x ++ events_of (posted client s.new m2.history))
                (map-append (λ (x : Entry). x.event) m.fifo (posted client new m.history))
              ∙ (append_assoc (events_of m.fifo) (events_of (posted client new m.history))
                    (events_of (posted client s.new m2.history))
                  ∙ ap (λ (x : List ℤ). events_of m.fifo ++ x)
                      (ap
                          (λ (x : Machine).
                            events_of (posted client new m.history)
                            ++ events_of (posted client s.new x.history))
                          mv.same
                        ∙ sym (
                            ap events_of (posted-append client s.new new m.history)
                            ∙ map-append (λ (x : Entry). x.event) (posted client new m.history)
                                (posted client s.new (new ++ m.history))))))

  Served-last :
      (m m2 : Machine) (event : ℤ) (new : List Callback)
      → Moved client (record m { in_process = true }) m2 new
      → handled new ≡ event ∷ []
      → m2.info.old_state ≡ delta m.table m.info.old_state event
      → m2.fifo ≡ []
      → IsValid d m2
      → Served d client m event (record m2 { fifo = []; in_process = false })
  Served-last m m2 event new mv h st q v = record {
    new = new;
    history = ap (λ (x : Machine). x.history) mv.same;
    order =
        h
        ∙ ap (λ (x : List ℤ). event ∷ x)
            (ap events_of (sym q ∙ ap (λ (x : Machine). x.fifo) mv.same)
              ∙ map-append (λ (x : Entry). x.event) m.fifo (posted client new m.history));
    drained = refl;
    idle = refl;
    state = st ∙ ap (run_table m.table m.info.old_state) (sym h);
    table = ap (λ (x : Machine). x.table) mv.same;
    valid = record {
      table_ok = v.table_ok;
      events = v.events;
      here = v.here;
      notified = v.notified;
    };
  }

module _ (d : Defaults) (client : Client) (width depth : ℕ)
    (tame : IsTame d width depth client) where
  -- What `fuel` rounds are to be shown to do.
  abbrev pub Serves : ℕ → Type 0
  Serves fuel =
      (m : Machine) (event : ℤ) (ev_data : Ptr)
      → IsValid d m
      → m.in_process ≡ false
      → is_below d.max_events event ≡ true
      → IsLegal d m.fifo
      → length m.fifo + budget width depth (length m.history) < fuel
      → (m' : Machine) × (process_event fuel client m event ev_data ≡ returns (pos 0) m')
        × Served d client m event m'

  serve_rest :
      (fuel : ℕ) (m m2 : Machine) (event : ℤ) (ev_data : Ptr) (new : List Callback) (q : Fifo)
      → Serves fuel
      → m.in_process ≡ false
      → is_illegal m.max_events event ≡ false
      → transition client (record m { in_process = true }) event ev_data ≡ some m2
      → Moved client (record m { in_process = true }) m2 new
      → handled new ≡ event ∷ []
      → m2.info.old_state ≡ delta m.table m.info.old_state event
      → IsValid d m2
      → m2.fifo ≡ q
      → IsLegal d q
      → length q + budget width depth (length m2.history) < suc fuel
      → (m' : Machine) × (process_event (suc fuel) client m event ev_data ≡ returns (pos 0) m')
        × Served d client m event m'
  serve_rest fuel m m2 event ev_data new [] ih idle legal done mv h st v q lq room = (
    record m2 { fifo = []; in_process = false },
    process_event-idle fuel client m m2 event ev_data idle legal done
        ∙ unlock_in_process-idle (process_event fuel client) (pos 0) m2 q,
    Served-last d client m m2 event new mv h st q v,
  )
  serve_rest fuel m m2 event ev_data new (e ∷ rest) ih idle legal done mv h st v q lq room =
      let m3 = record m2 { fifo = rest; in_process = false } in
      let v3 : IsValid d m3 = record {
        table_ok = v.table_ok;
        events = v.events;
        here = v.here;
        notified = v.notified;
      } in
      let (m4, run, s) = ih m3 e.event e.ev_data v3 refl lq.0 lq.1 (omega arith) in
      (
        m4,
        process_event-idle fuel client m m2 event ev_data idle legal done
            ∙ (unlock_in_process-pops (process_event fuel client) (pos 0) m2 e rest q
                ∙ ap (returning (pos 0)) run),
        Served-join d client m m2 m4 event new e rest mv h st q s,
      )

  pub serves : (fuel : ℕ) → Serves fuel
  serves zero m event ev_data v idle legal lq room = absurd (omega arith)
  serves (suc fuel) m event ev_data v idle legal lq room =
      let v1 : IsValid d (record m { in_process = true }) = record {
        table_ok = v.table_ok;
        events = v.events;
        here = v.here;
        notified = v.notified;
      } in
      let (m2, new, done, mv, h, st, v2) =
        transition-IsValid d client (record m { in_process = true }) event ev_data v1 refl legal in
      let q : m2.fifo ≡ m.fifo ++ posted client new m.history =
        ap (λ (x : Machine). x.fifo) mv.same in
      let hist : m2.history ≡ new ++ m.history = ap (λ (x : Machine). x.history) mv.same in
      serve_rest fuel m m2 event ev_data new (m.fifo ++ posted client new m.history) (serves fuel)
        idle (rw v.events (legal-not-illegal d.max_events event legal)) done mv h st v2 q
        (All-append (λ (e : Entry). is_below d.max_events e.event ≡ true) m.fifo
          (posted client new m.history) lq (posted-IsLegal d client width depth tame new m.history))
        (rw hist (
          omega (
            arith,
            length-append m.fifo (posted client new m.history),
            posted-budget d client width depth tame new m.history,
          )))
