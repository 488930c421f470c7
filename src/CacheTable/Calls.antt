-- ===== src/CacheTable/Calls.antt =====
-- Calls of src/vma/infra/cache_subject_observer.h in any order.
use libvma.Prelude.{
  ℕ, ◌≤◌, ◌≡◌, refl, sym, ap, subst, Bool, false, Option, none, some, List, [], ◌∷◌, ◌==◌, ◌&&◌,
  arith, if_cases,
}
use libvma.Prelude.Store.{Ptr, null}
use libvma.CacheTable.Observers
use libvma.CacheTable.Observers.{Subject, count, notify_observers}
use libvma.CacheTable.{
  Slot, find, change, get_entry, run_garbage_collector, register_at, register_observer,
  unregister_observer,
}
use libvma.CacheTable.Slots.{find-change, count-append}
use libvma.CacheTable.Valid.{
  Valid, register_observer-Valid, unregister_observer-Valid, collect_each-Valid, find-Once,
}
use libvma.CacheTable.Registered.{
  Registered, register_observer-Registered, unregister_observer-Registered,
  run_garbage_collector-Registered,
}

-- With what create_new_entry returns, and what is_deletable says of each entry.
pub data Op : Type 0 where
  register : (created : Option Ptr) (k : ℕ) (o : Ptr) → Op
  unregister : (deletable : Ptr → Bool) (k : ℕ) (o : Ptr) → Op
  collect : (deletable : Ptr → Bool) → Op

unfoldable pub run : List Op → List Slot → List Slot
run [] tbl = tbl
run (register created k o ∷ ops) tbl = run ops (register_observer created k o tbl).1
run (unregister d k o ∷ ops) tbl = run ops (unregister_observer d k o tbl).1
run (collect d ∷ ops) tbl = run ops (run_garbage_collector d tbl)

-- No call takes the observer off the key.
abbrev pub Stays : (k : ℕ) (o : Ptr) → List Op → Type 0
Stays k o [] = Unit
Stays k o (register created k' p ∷ ops) = Stays k o ops
Stays k o (unregister d k' p ∷ ops) = (((k' == k) && (p == o)) ≡ false) × Stays k o ops
Stays k o (collect d ∷ ops) = Stays k o ops

pub run-Valid : (ops : List Op) (tbl : List Slot) → Valid tbl → Valid (run ops tbl)
unfolding run run_garbage_collector
run-Valid [] tbl v = v
run-Valid (register created k o ∷ ops) tbl v =
    run-Valid ops _ (register_observer-Valid created k o tbl v)
run-Valid (unregister d k o ∷ ops) tbl v = run-Valid ops _ (unregister_observer-Valid d k o tbl v)
run-Valid (collect d ∷ ops) tbl v = run-Valid ops _ (collect_each-Valid d tbl tbl v)

run-Registered :
    (k : ℕ) (o e : Ptr) (ops : List Op) (tbl : List Slot)
    → Stays k o ops
    → Valid tbl
    → Registered k o e tbl
    → Registered k o e (run ops tbl)
unfolding run
run-Registered k o e [] tbl s v r = r
run-Registered k o e (register created k' p ∷ ops) tbl s v r =
    run-Registered k o e ops _ s (register_observer-Valid created k' p tbl v)
      (register_observer-Registered k o e created k' p tbl r)
run-Registered k o e (unregister d k' p ∷ ops) tbl s v r =
    run-Registered k o e ops _ s.1 (unregister_observer-Valid d k' p tbl v)
      (unregister_observer-Registered k o e d k' p tbl s.0 r)
run-Registered k o e (collect d ∷ ops) tbl s v r =
    run-Registered k o e ops _ s (unfold run_garbage_collector in collect_each-Valid d tbl tbl v)
      (run_garbage_collector-Registered k o e d tbl v r)

-- A call that gives out an entry registers with it.
register_once :
    (o : Ptr) (s : Subject)
    → (o == null) ≡ false
    → count o s.observers ≤ 1
    → count o (Observers.register_observer o s).1.observers ≡ 1
unfolding Observers.register_observer
register_once o s n h = ground (arith, n, h, count-append o s.observers o)

register_entry : (o : Ptr) (s : Subject) → (Observers.register_observer o s).1.entry ≡ s.entry
unfolding Observers.register_observer
register_entry o s = ground arith

added-Registered :
    (k : ℕ) (o : Ptr) (s : Subject) (tbl : List Slot)
    → (o == null) ≡ false
    → Registered k o s.entry (
        record {
          key = k;
          subject = (Observers.register_observer o (record s { observers = [] })).1;
        }
        ∷ tbl)
unfolding find count
added-Registered k o s tbl n =
    let t : Subject = record s { observers = [] } in
    record {
      subject = (Observers.register_observer o t).1;
      found = ground arith;
      at = register_entry o t;
      once = register_once o t n (omega arith);
    }

changed-Joined :
    (k : ℕ) (o : Ptr) (s : Subject) (tbl : List Slot)
    → find tbl k ≡ some s
    → count o (Observers.register_observer o s).1.observers ≡ 1
    → Registered k o s.entry (change k (Observers.register_observer o s).1 tbl)
changed-Joined k o s tbl f w =
    let t = (Observers.register_observer o s).1 in
    record {
      subject = t;
      found = ground (arith, find-change k t tbl k, f);
      at = register_entry o s;
      once = w;
    }

register_at-Joined :
    (created : Option Ptr) (k : ℕ) (o e : Ptr) (tbl : List Slot) (f : Option Subject)
    → f ≡ find tbl k
    → (o == null) ≡ false
    → Valid tbl
    → (register_at created k o tbl f).0 ≡ some e
    → Registered k o e (register_at created k o tbl f).1
register_at-Joined none k o e tbl none f n v r = absurd cc
register_at-Joined (some c) k o e tbl none f n v r =
    let s : Subject = record { entry = c; observers = [] } in
    subst (λ z. Registered k o z (register_at (some c) k o tbl none).1) (cc)
      (added-Registered k o s tbl n)
register_at-Joined (some c) k o e tbl (some s) f n v r =
    let g = register_entry o s in
    let w = register_once o s n (find-Once tbl k s v (sym f) o) in
    subst (λ z. Registered k o z (change k (Observers.register_observer o s).1 tbl)) (cc)
      (changed-Joined k o s tbl (sym f) w)
register_at-Joined none k o e tbl (some s) f n v r =
    let g = register_entry o s in
    let w = register_once o s n (find-Once tbl k s v (sym f) o) in
    subst (λ z. Registered k o z (change k (Observers.register_observer o s).1 tbl)) (cc)
      (changed-Joined k o s tbl (sym f) w)

register_observer-Joined :
    (created : Option Ptr) (k : ℕ) (o e : Ptr) (tbl : List Slot)
    → Valid tbl
    → (register_observer created k o tbl).0 ≡ some e
    → Registered k o e (register_observer created k o tbl).1
unfolding register_observer
register_observer-Joined created k o e tbl v =
    let P : Option Ptr × List Slot → Type 0 = λ r. r.0 ≡ some e → Registered k o e r.1 in
    if_cases P (o == null) _ _ (λ n r. absurd cc)
      (λ n r. register_at-Joined created k o e tbl (find tbl k) refl n v r)

-- Those whom a change of the entry calls.
abbrev pub notified_by : Option Subject → List Ptr
notified_by none = []
notified_by (some s) = notify_observers s

abbrev pub notified : ℕ → List Slot → List Ptr
notified k tbl = notified_by (find tbl k)

-- After any calls on a new table, one who registers with a key and gets an entry keeps it: as long as no
-- call takes him off this key, whatever calls of others and collections follow, get_entry returns this
-- entry, and a change of it calls him exactly once.
pub run-get_entry :
    (before after : List Op) (created : Option Ptr) (k : ℕ) (o e : Ptr)
    → (register_observer created k o (run before [])).0 ≡ some e
    → Stays k o after
    → (get_entry k (run after (register_observer created k o (run before [])).1) ≡ some e)
      × (count o (notified k (run after (register_observer created k o (run before [])).1)) ≡ 1)
unfolding get_entry
run-get_entry before after created k o e r s =
    let v = run-Valid before [] tt in
    let j = register_observer-Joined created k o e (run before []) v r in
    let z =
      run-Registered k o e after _ s (register_observer-Valid created k o (run before []) v) j in
    (rw z.found (ap some z.at), rw z.found z.once)
