-- ===== src/HashMap/Chain.antt =====
-- The chain of a bucket of src/vma/util/hash_map.inl: what its walk finds after a change.
use native.Mathlib.Decide.{ℕ_discrete}
use libvma.Prelude.{
  ℕ, suc, ◌<◌, ◌≡◌, refl, true, false, Option, none, some, List, [], ◌∷◌, ◌++◌, ◌==◌, arith,
  if◌then◌else◌,
}
use libvma.Prelude.Store.{Ptr, update}
use libvma.HashMap.{find_node, without}

-- Every node is older than the address.
abbrev pub Below : ℕ → List Ptr → Type 0
Below n [] = Unit
Below n (p ∷ ps) = (p < n) × Below n ps

pub find_node-key :
    (key : Ptr → ℕ) (ps : List Ptr) (k : ℕ) (p : Ptr) → find_node key ps k ≡ some p → key p ≡ k
unfolding find_node
find_node-key key [] k p e = absurd cc
find_node-key key (q ∷ ps) k p e = ground (arith, find_node-key key ps k p)

pub find_node-lt :
    (key : Ptr → ℕ) (ps : List Ptr) (k n : ℕ) (p : Ptr)
    → Below n ps
    → find_node key ps k ≡ some p
    → p < n
unfolding find_node
find_node-lt key [] k n p b e = absurd cc
find_node-lt key (q ∷ ps) k n p b e = ground (arith, b.0, find_node-lt key ps k n p b.1)

pub find_node-update :
    (key : Ptr → ℕ) (ps : List Ptr) (k n v : ℕ)
    → Below n ps
    → find_node (update key n v) ps k ≡ find_node key ps k
unfolding find_node
find_node-update key [] k n v b = refl
find_node-update key (q ∷ ps) k n v b = ground (arith, b.0, find_node-update key ps k n v b.1)

pub without-update :
    (key : Ptr → ℕ) (ps : List Ptr) (k n v : ℕ)
    → Below n ps
    → without (update key n v) ps k ≡ without key ps k
unfolding without
without-update key [] k n v b = refl
without-update key (q ∷ ps) k n v b = ground (arith, b.0, without-update key ps k n v b.1)

pub without-Below :
    (key : Ptr → ℕ) (ps : List Ptr) (k n : ℕ) → Below n ps → Below n (without key ps k)
unfolding without
without-Below key [] k n b = b
without-Below key (q ∷ ps) k n b =
    elim (key q == k) as (λ c. Below n (if c then ps else q ∷ without key ps k)) [
      | true ↦ b.1
      | false ↦ (b.0, without-Below key ps k n b.1)
    ]

pub append-Below : (ps : List Ptr) (n : ℕ) → Below n ps → Below (suc n) (ps ++ (n ∷ []))
append-Below [] n b = (omega arith, tt)
append-Below (q ∷ ps) n b = (ground (arith, b.0), append-Below ps n b.1)

pub Below-suc : (ps : List Ptr) (n : ℕ) → Below n ps → Below (suc n) ps
Below-suc [] n b = tt
Below-suc (q ∷ ps) n b = (ground (arith, b.0), Below-suc ps n b.1)

-- Another key is found as before.
pub find_node-without :
    (key : Ptr → ℕ) (ps : List Ptr) (k k' : ℕ)
    → (k == k') ≡ false
    → find_node key (without key ps k) k' ≡ find_node key ps k'
unfolding find_node without
find_node-without key [] k k' d = refl
find_node-without key (q ∷ ps) k k' d = ground (arith, find_node-without key ps k k' d)

pub without_comm :
    (key : Ptr → ℕ) (ps : List Ptr) (k k' : ℕ)
    → (k == k') ≡ false
    → without key (without key ps k) k' ≡ without key (without key ps k') k
unfolding without
without_comm key [] k k' d = refl
without_comm key (q ∷ ps) k k' d = ground (arith, without_comm key ps k k' d)

pub without-none :
    (key : Ptr → ℕ) (ps : List Ptr) (k : ℕ) → find_node key ps k ≡ none → without key ps k ≡ ps
unfolding find_node without
without-none key [] k e = refl
without-none key (q ∷ ps) k e = ground (arith, without-none key ps k)

abbrev pub or_else : Option Ptr → Option Ptr → Option Ptr
or_else none o = o
or_else (some p) o = some p

-- A node at the end is found where no other has the key.
pub find_node-append :
    (key : Ptr → ℕ) (ps : List Ptr) (k n : ℕ)
    → find_node key (ps ++ (n ∷ [])) k
      ≡ or_else (find_node key ps k) (if key n == k then some n else none)
unfolding find_node
find_node-append key [] k n = ground arith
find_node-append key (q ∷ ps) k n = ground (arith, find_node-append key ps k n)

-- Where the walk finds no second node of a key, it finds none at the end of a chain without the key.
pub find_node-without-append :
    (key : Ptr → ℕ) (ps : List Ptr) (k n : ℕ)
    → find_node key (without key ps k) k ≡ none
    → (key n ≡ k → find_node key ps k ≡ none)
    → find_node key (without key (ps ++ (n ∷ [])) k) k ≡ none
unfolding find_node without
find_node-without-append key [] k n e f = ground arith
find_node-without-append key (q ∷ ps) k n e f = elim (ℕ_discrete (key q) k) [
  | yes a ↦ ground (arith, f, find_node-append key ps k n)
  | no a ↦ ground (arith, f, find_node-without-append key ps k n)
]
