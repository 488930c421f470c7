-- ===== src/CacheTable/Valid.antt =====
-- The table of src/vma/infra/cache_subject_observer.h has every key once, and an entry every observer once.
use libvma.Prelude.{
  ℕ, ◌≤◌, ◌≡◌, refl, sym, subst, Bool, Option, none, some, List, [], ◌∷◌, ◌==◌, arith, if_elim,
  Bool-cases, inl, inr,
}
use libvma.Prelude.Store.{Ptr, null}
use libvma.CacheTable.Observers
use libvma.CacheTable.Observers.{Subject, count, erase, insert}
use libvma.CacheTable.{
  Slot, find, change, erase_key, removable, try_to_remove_cache_entry, collect_each, register_at,
  register_observer, unregister_at, unregister_observer,
}
use libvma.CacheTable.Slots.{count-append, count-erase, find-change, find-erase_key}

abbrev pub Once : Subject → Type 0
Once s = (o : Ptr) → count o s.observers ≤ 1

abbrev pub Valid : List Slot → Type 0
Valid [] = Unit
Valid (x ∷ xs) = (find xs x.key ≡ none) × Once x.subject × Valid xs

pub insert-Once :
    (s : Subject) (p : Ptr) → Once s → Once (record s { observers = insert p s.observers })
insert-Once s p h o = ground (arith, h o, count-append o s.observers p)

pub erase-Once :
    (s : Subject) (p : Ptr) → Once s → Once (record s { observers = erase p s.observers })
erase-Once s p h o = ground (arith, h o, count-erase o s.observers p)

pub register_observer-Once :
    (s : Subject) (p : Ptr) → Once s → Once (Observers.register_observer p s).1
unfolding Observers.register_observer
register_observer-Once s p h =
    let P : Bool × Subject → Type 0 = λ r. Once r.1 in
    if_elim P (p == null) _ _ h (insert-Once s p h)

pub unregister_observer-Once :
    (s : Subject) (p : Ptr) → Once s → Once (Observers.unregister_observer p s).1
unfolding Observers.unregister_observer
unregister_observer-Once s p h =
    let P : Bool × Subject → Type 0 = λ r. Once r.1 in
    if_elim P (p == null) _ _ h (erase-Once s p h)

pub find-Once : (tbl : List Slot) (k : ℕ) (s : Subject) → Valid tbl → find tbl k ≡ some s → Once s
unfolding find
find-Once [] k s v e = absurd cc
find-Once (x ∷ xs) k s v e =
    let ih = find-Once xs k s v.2 in
    elim (Bool-cases (x.key == k)) [
      | inl t ↦ let g : x.subject ≡ s = ground (arith, e, t) in subst Once g v.1
      | inr f ↦ let g : find xs k ≡ some s = ground (arith, e, f) in ih g
    ]

change-none :
    (k : ℕ) (s : Subject) (tbl : List Slot) (k' : ℕ)
    → find tbl k' ≡ none
    → find (change k s tbl) k' ≡ none
change-none k s tbl k' e = ground (arith, find-change k s tbl k')

pub change-Valid :
    (k : ℕ) (s : Subject) (tbl : List Slot) → Once s → Valid tbl → Valid (change k s tbl)
unfolding change
change-Valid k s [] o v = v
change-Valid k s (x ∷ xs) o v =
    let P : List Slot → Type 0 = Valid in
    let c = change-none k s xs x.key v.0 in
    if_elim P (x.key == k) _ _ (c, o, change-Valid k s xs o v.2) (c, v.1, change-Valid k s xs o v.2)

erase-none :
    (k : ℕ) (tbl : List Slot) (k' : ℕ) → find tbl k' ≡ none → find (erase_key k tbl) k' ≡ none
erase-none k tbl k' e = ground (arith, find-erase_key k tbl k')

pub erase_key-Valid : (k : ℕ) (tbl : List Slot) → Valid tbl → Valid (erase_key k tbl)
unfolding erase_key
erase_key-Valid k [] v = v
erase_key-Valid k (x ∷ xs) v =
    let P : List Slot → Type 0 = Valid in
    if_elim P (x.key == k) _ _ (erase_key-Valid k xs v.2)
      (erase-none k xs x.key v.0, v.1, erase_key-Valid k xs v.2)

pub try_to_remove_cache_entry-Valid :
    (d : Ptr → Bool) (x : Slot) (tbl : List Slot)
    → Valid tbl
    → Valid (try_to_remove_cache_entry d x tbl)
unfolding try_to_remove_cache_entry
try_to_remove_cache_entry-Valid d x tbl v =
    let P : List Slot → Type 0 = Valid in
    if_elim P (removable d x.subject) _ _ (erase_key-Valid x.key tbl v) v

pub collect_each-Valid :
    (d : Ptr → Bool) (xs tbl : List Slot) → Valid tbl → Valid (collect_each d xs tbl)
unfolding collect_each
collect_each-Valid d [] tbl v = v
collect_each-Valid d (x ∷ xs) tbl v =
    collect_each-Valid d xs (try_to_remove_cache_entry d x tbl)
      (try_to_remove_cache_entry-Valid d x tbl v)

empty-Once : (e : Ptr) → Once (record { entry = e; observers = [] })
unfolding count
empty-Once e o = omega arith

register_at-Valid :
    (created : Option Ptr) (k : ℕ) (o : Ptr) (tbl : List Slot) (f : Option Subject)
    → f ≡ find tbl k
    → Valid tbl
    → Valid (register_at created k o tbl f).1
register_at-Valid none k o tbl none e v = v
register_at-Valid (some p) k o tbl none e v =
    let s : Subject = record { entry = p; observers = [] } in
    (sym e, register_observer-Once s o (empty-Once p), v)
register_at-Valid none k o tbl (some s) e v =
    change-Valid k _ tbl (register_observer-Once s o (find-Once tbl k s v (sym e))) v
register_at-Valid (some p) k o tbl (some s) e v =
    change-Valid k _ tbl (register_observer-Once s o (find-Once tbl k s v (sym e))) v

pub register_observer-Valid :
    (created : Option Ptr) (k : ℕ) (o : Ptr) (tbl : List Slot)
    → Valid tbl
    → Valid (register_observer created k o tbl).1
unfolding register_observer
register_observer-Valid created k o tbl v =
    let P : Option Ptr × List Slot → Type 0 = λ r. Valid r.1 in
    if_elim P (o == null) _ _ v (register_at-Valid created k o tbl (find tbl k) refl v)

unregister_at-Valid :
    (d : Ptr → Bool) (k : ℕ) (o : Ptr) (tbl : List Slot) (f : Option Subject)
    → f ≡ find tbl k
    → Valid tbl
    → Valid (unregister_at d k o tbl f).1
unregister_at-Valid d k o tbl none e v = v
unregister_at-Valid d k o tbl (some s) e v =
    try_to_remove_cache_entry-Valid d _ _
      (change-Valid k _ tbl (unregister_observer-Once s o (find-Once tbl k s v (sym e))) v)

pub unregister_observer-Valid :
    (d : Ptr → Bool) (k : ℕ) (o : Ptr) (tbl : List Slot)
    → Valid tbl
    → Valid (unregister_observer d k o tbl).1
unfolding unregister_observer
unregister_observer-Valid d k o tbl v =
    let P : Bool × List Slot → Type 0 = λ r. Valid r.1 in
    if_elim P (o == null) _ _ v (unregister_at-Valid d k o tbl (find tbl k) refl v)
