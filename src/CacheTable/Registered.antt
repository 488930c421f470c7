-- ===== src/CacheTable/Registered.antt =====
-- What a call of src/vma/infra/cache_subject_observer.h does to the entry of someone who is registered.
use libvma.Prelude.{
  ℕ, ◌≡◌, refl, sym, subst, Bool, true, false, Option, none, some, List, ◌==◌, arith, if_elim,
  Bool-cases, inl, inr, ◌&&◌, ◌∙◌,
}
use libvma.Prelude.Store.{Ptr, null}
use libvma.CacheTable.Observers
use libvma.CacheTable.Observers.{Subject, count, erase, insert}
use libvma.CacheTable.{
  Slot, find, change, removable, try_to_remove_cache_entry, run_garbage_collector, register_at,
  register_observer, unregister_at, unregister_observer,
}
use libvma.CacheTable.Slots.{count-append, count-erase, find-change}
use libvma.CacheTable.Valid.{Valid}
use libvma.CacheTable.Collect.{find-try_to_remove, find-run_garbage_collector}

-- The entry `e` is in the table under the key, and calls the observer once.
pub record Registered (k : ℕ) (o e : Ptr) (tbl : List Slot) : Type 0 where
  pub subject : Subject
  pub found : find tbl k ≡ some subject
  pub at : subject.entry ≡ e
  pub once : count o subject.observers ≡ 1

observed_stays :
    (d : Ptr → Bool) (o : Ptr) (s : Subject) → count o s.observers ≡ 1 → removable d s ≡ false
unfolding count
observed_stays d o s e = ground (arith, e)

module _ (k : ℕ) (o e : Ptr) where
  same-Registered :
      (tbl tbl' : List Slot) (r : Registered k o e tbl)
      → find tbl' k ≡ find tbl k
      → Registered k o e tbl'
  same-Registered tbl tbl' r f = record {
    subject = r.subject;
    found = f ∙ r.found;
    at = r.at;
    once = r.once;
  }

  removed-Registered :
      (d : Ptr → Bool) (x : Slot) (tbl : List Slot)
      → ((x.key == k) ≡ true → find tbl k ≡ some x.subject)
      → Registered k o e tbl
      → Registered k o e (try_to_remove_cache_entry d x tbl)
  removed-Registered d x tbl f r =
      let g = find-try_to_remove d x tbl k in
      same-Registered tbl _ r (elim (Bool-cases (x.key == k)) [
        | inl q ↦
            let z : r.subject ≡ x.subject = ground (arith, f q, r.found) in
            let n : removable d x.subject ≡ false =
              subst (λ s. removable d s ≡ false) z (observed_stays d o r.subject r.once) in
            ground (arith, g, n)
        | inr q ↦ ground (arith, g, q)
      ])

  changed-Registered :
      (k' : ℕ) (s t : Subject) (tbl : List Slot)
      → find tbl k' ≡ some t
      → s.entry ≡ t.entry
      → ((k' == k) ≡ true → count o t.observers ≡ 1 → count o s.observers ≡ 1)
      → Registered k o e tbl
      → Registered k o e (change k' s tbl)
  changed-Registered k' s t tbl f g h r = elim (Bool-cases (k' == k)) [
    | inl q ↦
        let z : find tbl k ≡ some t = ground (arith, f, q) in
        let y : r.subject ≡ t = ground (arith, z, r.found) in
        record {
          subject = s;
          found = ground (arith, find-change k' s tbl k, f, q);
          at = g ∙ subst (λ u. u.entry ≡ e) y r.at;
          once = h q (subst (λ u. count o u.observers ≡ 1) y r.once);
        }
    | inr q ↦ same-Registered tbl _ r (ground (arith, find-change k' s tbl k, q))
  ]

  pub run_garbage_collector-Registered :
      (d : Ptr → Bool) (tbl : List Slot)
      → Valid tbl
      → Registered k o e tbl
      → Registered k o e (run_garbage_collector d tbl)
  run_garbage_collector-Registered d tbl v r = same-Registered tbl _ r (
      ground
        (arith, find-run_garbage_collector d tbl k v, r.found, observed_stays d o r.subject r.once))

  joined :
      (s : Subject) (p : Ptr)
      → count o s.observers ≡ 1
      → count o (Observers.register_observer p s).1.observers ≡ 1
  unfolding Observers.register_observer
  joined s p h =
      let P : Bool × Subject → Type 0 = λ r. count o r.1.observers ≡ 1 in
      if_elim P (p == null) _ _ h (ground (arith, h, count-append o s.observers p))

  register_entry : (s : Subject) (p : Ptr) → (Observers.register_observer p s).1.entry ≡ s.entry
  unfolding Observers.register_observer
  register_entry s p =
      let P : Bool × Subject → Type 0 = λ r. r.1.entry ≡ s.entry in
      if_elim P (p == null) _ _ refl refl

  register_at-Registered :
      (created : Option Ptr) (k' : ℕ) (p : Ptr) (tbl : List Slot) (f : Option Subject)
      → f ≡ find tbl k'
      → Registered k o e tbl
      → Registered k o e (register_at created k' p tbl f).1
  unfolding find
  register_at-Registered none k' p tbl none f r = r
  register_at-Registered (some c) k' p tbl none f r =
      same-Registered tbl _ r (ground (arith, f, r.found))
  register_at-Registered none k' p tbl (some s) f r =
      changed-Registered k' _ s tbl (sym f) (register_entry s p) (λ q h. joined s p h) r
  register_at-Registered (some c) k' p tbl (some s) f r =
      changed-Registered k' _ s tbl (sym f) (register_entry s p) (λ q h. joined s p h) r

  pub register_observer-Registered :
      (created : Option Ptr) (k' : ℕ) (p : Ptr) (tbl : List Slot)
      → Registered k o e tbl
      → Registered k o e (register_observer created k' p tbl).1
  unfolding register_observer
  register_observer-Registered created k' p tbl r =
      let P : Option Ptr × List Slot → Type 0 = λ z. Registered k o e z.1 in
      if_elim P (p == null) _ _ r (register_at-Registered created k' p tbl (find tbl k') refl r)

  left :
      (s : Subject) (p : Ptr)
      → (p == o) ≡ false
      → count o s.observers ≡ 1
      → count o (Observers.unregister_observer p s).1.observers ≡ 1
  unfolding Observers.unregister_observer
  left s p n h =
      let P : Bool × Subject → Type 0 = λ r. count o r.1.observers ≡ 1 in
      if_elim P (p == null) _ _ h (ground (arith, h, n, count-erase o s.observers p))

  unregister_entry : (s : Subject) (p : Ptr) → (Observers.unregister_observer p s).1.entry ≡ s.entry
  unfolding Observers.unregister_observer
  unregister_entry s p =
      let P : Bool × Subject → Type 0 = λ r. r.1.entry ≡ s.entry in
      if_elim P (p == null) _ _ refl refl

  unregister_at-Registered :
      (d : Ptr → Bool) (k' : ℕ) (p : Ptr) (tbl : List Slot) (f : Option Subject)
      → f ≡ find tbl k'
      → ((k' == k) && (p == o)) ≡ false
      → Registered k o e tbl
      → Registered k o e (unregister_at d k' p tbl f).1
  unregister_at-Registered d k' p tbl none f n r = r
  unregister_at-Registered d k' p tbl (some s) f n r =
      let t = (Observers.unregister_observer p s).1 in
      let x : Slot = record { key = k'; subject = t } in
      removed-Registered d x (change k' t tbl) (λ q. ground (arith, find-change k' t tbl k, f, q))
        (changed-Registered k' t s tbl (sym f) (unregister_entry s p)
          (λ q h. left s p (ground (arith, n, q)) h) r)

  pub unregister_observer-Registered :
      (d : Ptr → Bool) (k' : ℕ) (p : Ptr) (tbl : List Slot)
      → ((k' == k) && (p == o)) ≡ false
      → Registered k o e tbl
      → Registered k o e (unregister_observer d k' p tbl).1
  unfolding unregister_observer
  unregister_observer-Registered d k' p tbl n r =
      let P : Bool × List Slot → Type 0 = λ z. Registered k o e z.1 in
      if_elim P (p == null) _ _ r (unregister_at-Registered d k' p tbl (find tbl k') refl n r)
