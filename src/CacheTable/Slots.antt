-- ===== src/CacheTable/Slots.antt =====
-- What is found in the table after a change of a slot.
use libvma.Prelude.{
  ℕ, suc, ◌≡◌, Option, none, some, List, [], ◌∷◌, ◌++◌, ◌==◌, if◌then◌else◌, arith,
}
use libvma.Prelude.Store.{Ptr}
use libvma.CacheTable.Observers.{Subject, count, erase}
use libvma.CacheTable.{Slot, find, change, erase_key}

pub count-append :
    (o : Ptr) (ps : List Ptr) (p : Ptr)
    → count o (ps ++ (p ∷ [])) ≡ (if p == o then suc (count o ps) else count o ps)
unfolding count
count-append o [] p = ground arith
count-append o (q ∷ ps) p = ground (arith, count-append o ps p)

pub count-erase :
    (o : Ptr) (ps : List Ptr) (p : Ptr) → count o (erase p ps) ≡ (if p == o then 0 else count o ps)
unfolding count erase
count-erase o [] p = ground arith
count-erase o (q ∷ ps) p = ground (arith, count-erase o ps p)

abbrev pub changed : Subject → Option Subject → Option Subject
changed s none = none
changed s (some t) = some s

pub find-change :
    (k : ℕ) (s : Subject) (tbl : List Slot) (k' : ℕ)
    → find (change k s tbl) k' ≡ (if k == k' then changed s (find tbl k) else find tbl k')
unfolding find change
find-change k s [] k' = ground arith
find-change k s (x ∷ xs) k' = ground (arith, find-change k s xs k')

pub find-erase_key :
    (k : ℕ) (tbl : List Slot) (k' : ℕ)
    → find (erase_key k tbl) k' ≡ (if k == k' then none else find tbl k')
unfolding find erase_key
find-erase_key k [] k' = ground arith
find-erase_key k (x ∷ xs) k' = ground (arith, find-erase_key k xs k')
