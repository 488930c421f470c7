-- ===== src/HashMap/Table.antt =====
-- The buckets of src/vma/util/hash_map.inl after one chain has changed. `h` is the index of a key's bucket.
use native.Mathlib.Decide.{ℕ_discrete}
use libvma.Prelude.{ℕ, ◌≡◌, none, some, List, [], ◌∷◌, ◌++◌, ◌==◌, arith, if◌then◌else◌}
use libvma.Prelude.Store.{Ptr, update}
use libvma.HashMap.{find_node, without}
use libvma.HashMap.Chain.{
  find_node-append, find_node-without-append, find_node-without, without_comm, without-none,
}

module _ (h : ℕ → ℕ) (key : Ptr → ℕ) (table : ℕ → List Ptr) (k : ℕ) where
  abbrev pub with_node : Ptr → ℕ → List Ptr
  with_node n = update table (h k) (table (h k) ++ (n ∷ []))

  abbrev pub without_key : ℕ → List Ptr
  without_key = update table (h k) (without key (table (h k)) k)

  pub find_node-with_node :
      (n : Ptr) (k' : ℕ)
      → key n ≡ k
      → find_node key (table (h k)) k ≡ none
      → find_node key (with_node n (h k')) k'
        ≡ (if k' == k then some n else find_node key (table (h k')) k')
  find_node-with_node n k' e f = elim (ℕ_discrete (h k') (h k)) [
    | yes s ↦ ground (arith, s, find_node-append key (table (h k)) k' n)
    | no s ↦ ground (arith, s, f)
  ]

  pub no_second-with_node :
      (n : Ptr) (k' : ℕ)
      → key n ≡ k
      → find_node key (table (h k)) k ≡ none
      → find_node key (without key (table (h k')) k') k' ≡ none
      → find_node key (without key (with_node n (h k')) k') k' ≡ none
  no_second-with_node n k' e f g = elim (ℕ_discrete (h k') (h k)) [
    | yes s ↦ ground (arith, s, find_node-without-append key (table (h k)) k' n)
    | no s ↦ ground (arith, s)
  ]

  pub find_node-without_key :
      (k' : ℕ)
      → find_node key (without key (table (h k)) k) k ≡ none
      → find_node key (without_key (h k')) k'
        ≡ (if k' == k then none else find_node key (table (h k')) k')
  find_node-without_key k' e = elim (ℕ_discrete (h k') (h k)) [
    | yes s ↦ ground (arith, s, find_node-without key (table (h k)) k k')
    | no s ↦ ground (arith, s)
  ]

  pub no_second-without_key :
      (k' : ℕ)
      → find_node key (without key (table (h k)) k) k ≡ none
      → find_node key (without key (table (h k')) k') k' ≡ none
      → find_node key (without key (without_key (h k')) k') k' ≡ none
  no_second-without_key k' e f =
      let ps : List Ptr = table (h k) in
      elim (ℕ_discrete (h k') (h k)) [
        | yes s ↦ ground (
          arith,
          s,
          without-none key (without key ps k) k,
          without_comm key ps k k',
          find_node-without key (without key ps k') k k',
        )
        | no s ↦ ground (arith, s)
      ]
