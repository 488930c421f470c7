-- ===== src/CacheTable.antt =====
-- src/vma/infra/cache_subject_observer.h, the table of shared entries (routes, neighbours, net devices), and
-- subject_observer.cpp, the set of those who use an entry. A key is a number. create_new_entry and
-- is_deletable are the client's: what they return is an argument. An entry that is taken out of the table
-- is given to clean_obj, which destroys it.
pub mod Observers
pub mod Slots
pub mod Valid
pub mod Collect
pub mod Registered
pub mod Calls
pub mod Kept
mod Tests
use libvma.Prelude.{
  ℕ, Bool, true, false, ◌&&◌, Option, none, some, List, [], ◌∷◌, ◌==◌, if◌then◌else◌,
}
use libvma.Prelude.Store.{Ptr, null}
use libvma.CacheTable.Observers
use libvma.CacheTable.Observers.{Subject}

pub record Slot : Type 0 where
  pub key : ℕ
  pub subject : Subject

unfoldable pub find : List Slot → ℕ → Option Subject
find [] k = none
find (x ∷ xs) k = let rest = find xs k in if x.key == k then some x.subject else rest

unfoldable pub change : ℕ → Subject → List Slot → List Slot
change k s [] = []
change k s (x ∷ xs) =
    let rest = change k s xs in if x.key == k then record x { subject = s } ∷ rest else x ∷ rest

unfoldable pub erase_key : ℕ → List Slot → List Slot
erase_key k [] = []
erase_key k (x ∷ xs) = let rest = erase_key k xs in if x.key == k then rest else x ∷ rest

abbrev pub entry_of : Option Subject → Option Ptr
entry_of none = none
entry_of (some s) = some s.entry

unfoldable pub get_entry : ℕ → List Slot → Option Ptr
get_entry k tbl = entry_of (find tbl k)

abbrev pub is_empty : List Ptr → Bool
is_empty [] = true
is_empty (p ∷ ps) = false

abbrev pub removable : (deletable : Ptr → Bool) → Subject → Bool
removable deletable s = is_empty s.observers && deletable s.entry

unfoldable pub try_to_remove_cache_entry : (Ptr → Bool) → Slot → List Slot → List Slot
try_to_remove_cache_entry deletable x tbl =
    if removable deletable x.subject then erase_key x.key tbl else tbl

-- The loop over the slots: the iterator goes on before a slot is taken out.
unfoldable pub collect_each : (Ptr → Bool) → List Slot → List Slot → List Slot
collect_each deletable [] tbl = tbl
collect_each deletable (x ∷ xs) tbl =
    collect_each deletable xs (try_to_remove_cache_entry deletable x tbl)

unfoldable pub run_garbage_collector : (Ptr → Bool) → List Slot → List Slot
run_garbage_collector deletable tbl = collect_each deletable tbl tbl

abbrev pub register_at :
    (created : Option Ptr) (k : ℕ) (o : Ptr) → List Slot → Option Subject → Option Ptr × List Slot
register_at none k o tbl none = (none, tbl)
register_at (some e) k o tbl none =
    let s : Subject = record { entry = e; observers = [] } in
    (some e, record { key = k; subject = (Observers.register_observer o s).1 } ∷ tbl)
register_at created k o tbl (some s) =
    (some s.entry, change k (Observers.register_observer o s).1 tbl)

-- The entry, where the call succeeds.
unfoldable pub register_observer :
    (created : Option Ptr) (k : ℕ) (o : Ptr) → List Slot → Option Ptr × List Slot
register_observer created k o tbl =
    if o == null then (none, tbl) else register_at created k o tbl (find tbl k)

abbrev pub unregister_at : (Ptr → Bool) → ℕ → Ptr → List Slot → Option Subject → Bool × List Slot
unregister_at deletable k o tbl none = (false, tbl)
unregister_at deletable k o tbl (some s) =
    let t = (Observers.unregister_observer o s).1 in
    (true, try_to_remove_cache_entry deletable (record { key = k; subject = t }) (change k t tbl))

unfoldable pub unregister_observer : (Ptr → Bool) → ℕ → Ptr → List Slot → Bool × List Slot
unregister_observer deletable k o tbl =
    if o == null then (false, tbl) else unregister_at deletable k o tbl (find tbl k)
