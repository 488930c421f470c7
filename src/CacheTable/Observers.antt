-- ===== src/CacheTable/Observers.antt =====
-- src/vma/infra/subject_observer.cpp: the set of the observers of a subject.
use libvma.Prelude.{ℕ, suc, Bool, true, false, List, [], ◌∷◌, ◌++◌, ◌==◌, if◌then◌else◌}
use libvma.Prelude.Store.{Ptr, null}

-- A subject at its address, with its observers.
pub record Subject : Type 0 where
  pub entry : Ptr
  pub observers : List Ptr

unfoldable pub count : Ptr → List Ptr → ℕ
count o [] = 0
count o (p ∷ ps) = let rest = count o ps in if p == o then suc rest else rest

abbrev pub insert : Ptr → List Ptr → List Ptr
insert o ps = if count o ps == 0 then ps ++ (o ∷ []) else ps

unfoldable pub erase : Ptr → List Ptr → List Ptr
erase o [] = []
erase o (p ∷ ps) = let rest = erase o ps in if p == o then rest else p ∷ rest

unfoldable pub register_observer : Ptr → Subject → Bool × Subject
register_observer o s =
    if o == null
    then (false, s)
    else (count o s.observers == 0, record s { observers = insert o s.observers })

unfoldable pub unregister_observer : Ptr → Subject → Bool × Subject
unregister_observer o s =
    if o == null then (false, s) else (true, record s { observers = erase o s.observers })

-- The observers in the order in which they are called.
abbrev pub notify_observers : Subject → List Ptr
notify_observers s = s.observers
