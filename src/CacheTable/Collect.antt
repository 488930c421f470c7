-- ===== src/CacheTable/Collect.antt =====
-- What the garbage collector of src/vma/infra/cache_subject_observer.h leaves.
use libvma.Prelude.{
  ℕ, ◌≡◌, refl, ap, ◌∙◌, Bool, false, Option, none, some, List, [], ◌∷◌, ◌==◌, ◌&&◌, ◌||◌,
  if◌then◌else◌, arith,
}
use libvma.Prelude.Store.{Ptr}
use libvma.CacheTable.Observers.{Subject}
use libvma.CacheTable.{
  Slot, find, removable, try_to_remove_cache_entry, collect_each, run_garbage_collector,
}
use libvma.CacheTable.Slots.{find-erase_key}
use libvma.CacheTable.Valid.{Valid}

pub find-try_to_remove :
    (d : Ptr → Bool) (x : Slot) (tbl : List Slot) (k : ℕ)
    → find (try_to_remove_cache_entry d x tbl) k
      ≡ (if (x.key == k) && removable d x.subject then none else find tbl k)
unfolding try_to_remove_cache_entry
find-try_to_remove d x tbl k = ground (arith, find-erase_key x.key tbl k)

-- A slot of the key is removed on the way.
gone : (Ptr → Bool) → List Slot → ℕ → Bool
gone d [] k = false
gone d (x ∷ xs) k = ((x.key == k) && removable d x.subject) || gone d xs k

find-collect_each :
    (d : Ptr → Bool) (xs tbl : List Slot) (k : ℕ)
    → find (collect_each d xs tbl) k ≡ (if gone d xs k then none else find tbl k)
unfolding collect_each gone
find-collect_each d [] tbl k = refl
find-collect_each d (x ∷ xs) tbl k =
    find-collect_each d xs (try_to_remove_cache_entry d x tbl) k
    ∙ ap (λ f. if gone d xs k then none else f) (find-try_to_remove d x tbl k)
    ∙ ground arith

abbrev pub kept : (Ptr → Bool) → Option Subject → Option Subject
kept d none = none
kept d (some s) = if removable d s then none else some s

abbrev removed : (Ptr → Bool) → Option Subject → Bool
removed d none = false
removed d (some s) = removable d s

gone-find :
    (d : Ptr → Bool) (tbl : List Slot) (k : ℕ) → Valid tbl → gone d tbl k ≡ removed d (find tbl k)
unfolding gone find
gone-find d [] k v = refl
gone-find d (x ∷ xs) k v = ground (arith, gone-find d xs k v.2, v.0)

pub find-run_garbage_collector :
    (d : Ptr → Bool) (tbl : List Slot) (k : ℕ)
    → Valid tbl
    → find (run_garbage_collector d tbl) k ≡ kept d (find tbl k)
unfolding run_garbage_collector
find-run_garbage_collector d tbl k v =
    find-collect_each d tbl tbl k ∙ ground (arith, gone-find d tbl k v)
