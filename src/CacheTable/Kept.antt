-- ===== src/CacheTable/Kept.antt =====
-- What a collection of src/vma/infra/cache_subject_observer.h leaves, from the outside.
use libvma.Prelude.{
  ℕ, ◌≡◌, ◌≢◌, ◌↔◌, ◌⊎◌, inl, inr, refl, sym, ap, subst, Bool, false, Option, none, some, List, [],
  ◌∷◌, arith,
}
use libvma.Prelude.Store.{Ptr}
use libvma.CacheTable.Observers.{Subject, count}
use libvma.CacheTable.{find, entry_of, get_entry, run_garbage_collector}
use libvma.CacheTable.Collect.{kept, find-run_garbage_collector}
use libvma.CacheTable.Calls.{Op, run, run-Valid, notified_by, notified}

abbrev Needed : (Ptr → Bool) → Ptr → List Ptr → Type 0
Needed d e ps = ((o : Ptr) × (count o ps ≢ 0)) ⊎ (d e ≡ false)

abbrev KeptIff : (Ptr → Bool) → Ptr → Option Subject → Type 0
KeptIff d e f =
    (entry_of (kept d f) ≡ some e) ↔ ((entry_of f ≡ some e) × Needed d e (notified_by f))

no_observers : (d : Ptr → Bool) (e : Ptr) → Needed d e [] → d e ≡ false
unfolding count
no_observers d e (inl n) = absurd (n.1 refl)
no_observers d e (inr n) = n

kept-empty :
    (d : Ptr → Bool) (e c : Ptr) → KeptIff d e (some (record { entry = c; observers = [] }))
kept-empty d e c = (
  λ h.
      let g : c ≡ e = ground (arith, h) in
      let z : d c ≡ false = ground (arith, h) in (ap some g, inr (subst (λ q. d q ≡ false) g z)),
  λ h.
      let g : c ≡ e = ground (arith, h.0) in
      let z : d c ≡ false = subst (λ q. d q ≡ false) (sym g) (no_observers d e h.1) in
      ground (arith, z, g),
)

kept-observed :
    (d : Ptr → Bool) (e c p : Ptr) (ps : List Ptr)
    → KeptIff d e (some (record { entry = c; observers = p ∷ ps }))
unfolding count
kept-observed d e c p ps = (λ h. (h, inl (p, ground arith)), λ h. h.0)

kept_iff : (d : Ptr → Bool) (e : Ptr) (f : Option Subject) → KeptIff d e f
kept_iff d e none = (λ h. absurd cc, λ h. absurd cc)
kept_iff d e (some s) =
    elim s.observers as (λ ps. KeptIff d e (some (record s { observers = ps }))) [
      | [] ↦ kept-empty d e s.entry
      | p ∷ ps ↦ kept-observed d e s.entry p ps
    ]

-- After any calls on a new table, a collection leaves exactly the entries that are observed or that
-- is_deletable does not let go.
pub run_garbage_collector_lem :
    (ops : List Op) (d : Ptr → Bool) (k : ℕ) (e : Ptr)
    → (get_entry k (run_garbage_collector d (run ops [])) ≡ some e) ↔ (
        (get_entry k (run ops []) ≡ some e)
        × (((o : Ptr) × (count o (notified k (run ops [])) ≢ 0)) ⊎ (d e ≡ false)))
unfolding get_entry
run_garbage_collector_lem ops d k e =
    let f = find-run_garbage_collector d (run ops []) k (run-Valid ops [] tt) in
    rw f (kept_iff d e (find (run ops []) k))
