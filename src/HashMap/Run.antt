-- ===== src/HashMap/Run.antt =====
-- Calls of src/vma/util/hash_map.inl in any order, against a function from keys to values.
use libvma.Prelude.{
  ℕ, ◌≡◌, refl, sym, subst, if_cases, Bool, true, false, Option, none, some, List, [], ◌∷◌, ◌==◌,
  arith, Option-cases, inl, inr,
}
use libvma.Prelude.Store.{Ptr, update}
use libvma.HashMap.{HashMap, hash_map, found_or, get, get_from, set, set_node, del, del_node}
use libvma.HashMap.Holds.{
  node_of, Holds, hash_map-Holds, last-Holds, missing-Holds, value-Holds, added-Holds,
  deleted-Holds,
}

pub data Op : Type 0 where
  get_op : ℕ → ℕ → Op
  set_op : ℕ → ℕ → Op
  del_op : ℕ → Op

pub data Answer : Type 0 where
  value : ℕ → Answer
  deleted : Bool → Answer

abbrev value_or : Option ℕ → ℕ → ℕ
value_or none d = d
value_or (some v) d = v

abbrev is_some : Option ℕ → Bool
is_some none = false
is_some (some v) = true

-- What the calls of get and del return.
unfoldable pub run : (bytes : ℕ → List ℕ) → List Op → HashMap → List Answer
run bytes [] m = []
run bytes (get_op k d ∷ ops) m =
    let r : ℕ × HashMap = get bytes k d m in value r.0 ∷ run bytes ops r.1
run bytes (set_op k v ∷ ops) m = run bytes ops (set bytes k v m)
run bytes (del_op k ∷ ops) m =
    let r : Bool × HashMap = del bytes k m in deleted r.0 ∷ run bytes ops r.1

unfoldable pub run_map : List Op → (ℕ → Option ℕ) → List Answer
run_map [] a = []
run_map (get_op k d ∷ ops) a = value (value_or (a k) d) ∷ run_map ops a
run_map (set_op k v ∷ ops) a = run_map ops (update a k (some v))
run_map (del_op k ∷ ops) a = deleted (is_some (a k)) ∷ run_map ops (update a k none)

module _ (bytes : ℕ → List ℕ) where
  -- What a call that returns something leaves.
  abbrev pub Returned {ℓ} : {A : Type ℓ} → A → (ℕ → Option ℕ) → A × HashMap → Type ℓ
  Returned x a r = (r.0 ≡ x) × Holds bytes r.1 a

  found_or-Holds :
      (m : HashMap) (a : ℕ → Option ℕ) (k d : ℕ)
      → Holds bytes m a
      → Returned (value_or (a k) d) a (found_or m d (node_of bytes m k))
  found_or-Holds m a k d h =
      let P : Option Ptr → Type 0 = λ o. Returned (value_or (a k) d) a (found_or m d o) in
      elim (Option-cases (node_of bytes m k)) [
        | inl e ↦ subst P (sym e) (ground (arith, h.finds k, e), h)
        | inr (p, e) ↦ subst P (sym e) (ground (arith, h.finds k, e), last-Holds bytes m a k p h e)
      ]

  get_from-Holds :
      (m : HashMap) (a : ℕ → Option ℕ) (k d : ℕ) (o : Option Ptr)
      → o ≡ m.last
      → Holds bytes m a
      → Returned (value_or (a k) d) a (get_from bytes o k d m)
  get_from-Holds m a k d none e h = found_or-Holds m a k d h
  get_from-Holds m a k d (some p) e h =
      let P : ℕ × HashMap → Type 0 = λ r. Returned (value_or (a k) d) a r in
      if_cases P (m.key p == k) _ _ (λ f. (ground (arith, h.finds k, h.last_found p (sym e), f), h))
        (λ f. found_or-Holds m a k d h)

  get-Holds :
      (m : HashMap) (a : ℕ → Option ℕ) (k d : ℕ)
      → Holds bytes m a
      → Returned (value_or (a k) d) a (get bytes k d m)
  unfolding get
  get-Holds m a k d h = get_from-Holds m a k d m.last refl h

  set-Holds :
      (m : HashMap) (a : ℕ → Option ℕ) (k v : ℕ)
      → Holds bytes m a
      → Holds bytes (set bytes k v m) (update a k (some v))
  unfolding set
  set-Holds m a k v h =
      let P : Option Ptr → Type 0 =
        λ o. Holds bytes (set_node bytes k v m o) (update a k (some v)) in
      elim (Option-cases (node_of bytes m k)) [
        | inl e ↦ subst P (sym e) (added-Holds bytes m a k v h e)
        | inr (p, e) ↦ subst P (sym e) (value-Holds bytes m a k v p h e)
      ]

  del-Holds :
      (m : HashMap) (a : ℕ → Option ℕ) (k : ℕ)
      → Holds bytes m a
      → Returned (is_some (a k)) (update a k none) (del bytes k m)
  unfolding del
  del-Holds m a k h =
      let P : Option Ptr → Type 0 =
        λ o. Returned (is_some (a k)) (update a k none) (del_node bytes k m o) in
      elim (Option-cases (node_of bytes m k)) [
        | inl e ↦ subst P (sym e) (ground (arith, h.finds k, e), missing-Holds bytes m a k h e)
        | inr (p, e) ↦
            subst P (sym e) (ground (arith, h.finds k, e), deleted-Holds bytes m a k p h e)
      ]

  run-Holds :
      (ops : List Op) (m : HashMap) (a : ℕ → Option ℕ)
      → Holds bytes m a
      → run bytes ops m ≡ run_map ops a
  unfolding run run_map
  run-Holds [] m a h = refl
  run-Holds (get_op k d ∷ ops) m a h =
      let r = get-Holds m a k d h in λ i. value (r.0 i) ∷ run-Holds ops (get bytes k d m).1 a r.1 i
  run-Holds (set_op k v ∷ ops) m a h =
      run-Holds ops (set bytes k v m) (update a k (some v)) (set-Holds m a k v h)
  run-Holds (del_op k ∷ ops) m a h =
      let r = del-Holds m a k h in
      λ i. deleted (r.0 i) ∷ run-Holds ops (del bytes k m).1 (update a k none) r.1 i

-- From the constructor on, any calls of get, set and del on a hash map return what they return on a
-- function from keys to values that has no value at first: get the value last set and not deleted, or the
-- default, and del whether there was a value. The way in which the keys lie in memory is any function.
pub run-hash_map :
    (bytes : ℕ → List ℕ) (ops : List Op) → run bytes ops hash_map ≡ run_map ops (λ k. none)
run-hash_map bytes ops = run-Holds bytes ops hash_map (λ k. none) (hash_map-Holds bytes)
