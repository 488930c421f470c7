-- ===== src/DeviceMemory/Placement.antt =====
-- Data in the memory on the adapter (src/vma/dev/dm_mgr.cpp) never meets data that is still in use.
use libvma.Prelude.{
  ℕ, ◌+◌, ◌-◌, ◌≤◌, ◌<◌, ◌≡◌, ◌⊎◌, inl, inr, Bool, false, not, ◌&&◌, ◌||◌, some, arith, leb, ltb,
  ◌==◌, if◌then◌else◌, Bool-cases,
}
use libvma.DeviceMemory.{DmMgr, place, release_data}

pub record IsValid (m : DmMgr) : Type 0 where
  pub head_inside : m.head < m.allocation
  pub used_fits : m.used ≤ m.allocation

-- The `used` bytes before the head, around the end if need be.
abbrev pub in_use : DmMgr → ℕ → Bool
in_use m p =
    if leb m.used m.head
    then leb (m.head - m.used) p && ltb p m.head
    else ltb p m.head || leb (m.allocation + m.head - m.used) p

abbrev pub within : ℕ → ℕ → ℕ → Bool
within a n p = leb a p && ltb p (a + n)

-- What is left out at the end.
abbrev pub skipped_over : DmMgr → ℕ → ℕ → Bool
skipped_over m skipped p = not (skipped == 0) && leb m.head p

module _ (m : DmMgr) (n h k : ℕ) (v : IsValid m) (e : place m n ≡ some (h, k)) where
  pub place-inside : h + n ≤ m.allocation
  unfolding place
  place-inside = let a = v.head_inside in let b = v.used_fits in ground arith

  pub place-free : (p : ℕ) → (within h n p && in_use m p) ≡ false
  unfolding place
  place-free p = let a = v.head_inside in let b = v.used_fits in ground arith

  pub place-used : m.used + (k + n) ≤ m.allocation
  unfolding place
  place-used = let a = v.head_inside in let b = v.used_fits in ground arith

place-cases :
    (m : DmMgr) (n h k : ℕ)
    → m.head < m.allocation
    → place m n ≡ some (h, k)
    → ((m.used ≤ m.head) × (h ≡ m.head) × (k ≡ 0) × (m.head + n ≤ m.allocation))
      ⊎ (((m.used ≤ m.head) × (h ≡ 0) × (k ≡ m.allocation - m.head) × (n ≤ m.head - m.used))
          ⊎ ((m.head < m.used) × (h ≡ m.head) × (k ≡ 0) × (n ≤ m.allocation - m.used)))
unfolding place
place-cases m n h k a e = ground arith

-- The bytes in use once the head has moved on to `z`.
module _ (m : DmMgr) (n h k p z : ℕ) (a : m.head < m.allocation) (b : m.used ≤ m.allocation)
    (l : p < m.allocation) (q : 0 < n) (c : z ≡ (if h + n == m.allocation then 0 else h + n)) where
  in_use-first :
      m.used ≤ m.head
      → h ≡ m.head
      → k ≡ 0
      → m.head + n ≤ m.allocation
      → in_use (record m { head = z; used = m.used + (k + n) }) p
        ≡ (in_use m p || within h n p || skipped_over m k p)
  in_use-first r s t u = elim (Bool-cases (h + n == m.allocation)) [
    | inl x ↦ ground arith
    | inr x ↦ ground arith
  ]

  in_use-second :
      m.used ≤ m.head
      → h ≡ 0
      → k ≡ m.allocation - m.head
      → n ≤ m.head - m.used
      → in_use (record m { head = z; used = m.used + (k + n) }) p
        ≡ (in_use m p || within h n p || skipped_over m k p)
  in_use-second r s t u = let d : z ≡ n = ground arith in ground arith

  in_use-third :
      m.head < m.used
      → h ≡ m.head
      → k ≡ 0
      → n ≤ m.allocation - m.used
      → in_use (record m { head = z; used = m.used + (k + n) }) p
        ≡ (in_use m p || within h n p || skipped_over m k p)
  in_use-third r s t u = let d : z ≡ h + n = ground arith in ground arith

pub place-in_use :
    (m : DmMgr) (n h k : ℕ)
    → IsValid m
    → place m n ≡ some (h, k)
    → (p z : ℕ) → p < m.allocation
    → 0 < n
    → z ≡ (if h + n == m.allocation then 0 else h + n)
    → in_use (record m { head = z; used = m.used + (k + n) }) p
      ≡ (in_use m p || within h n p || skipped_over m k p)
place-in_use m n h k v e p z l q c = elim (place-cases m n h k v.head_inside e) [
  | inl t ↦ in_use-first m n h k p z v.head_inside v.used_fits l q c t.0 t.1 t.2 t.3
  | inr (inl t) ↦ in_use-second m n h k p z v.head_inside v.used_fits l q c t.0 t.1 t.2 t.3
  | inr (inr t) ↦ in_use-third m n h k p z v.head_inside v.used_fits l q c t.0 t.1 t.2 t.3
]

abbrev pub tail : DmMgr → ℕ
tail m = if leb m.used m.head then m.head - m.used else m.allocation + m.head - m.used

-- The first `n` bytes in use, around the end if need be.
abbrev pub is_oldest : DmMgr → ℕ → ℕ → Bool
is_oldest m n p = within (tail m) n p || within (tail m) n (p + m.allocation)

-- What is released are the bytes that have been in use longest, as many as the buffer had; the rest
-- stays in use. The manager is valid, and as many bytes are in use.
pub release_data-oldest :
    (m : DmMgr) (n p : ℕ)
    → IsValid m
    → n ≤ m.used
    → p < m.allocation
    → IsValid (release_data n m)
      × (in_use (release_data n m) p ≡ (in_use m p && not (is_oldest m n p)))
unfolding release_data
release_data-oldest m n p v l q =
    let a = v.head_inside in
    let b = v.used_fits in
    (
      record { head_inside = a; used_fits = omega arith },
      elim (Bool-cases (leb m.used m.head)) [
        | inl x ↦ ground arith
        | inr x ↦ elim (Bool-cases (leb (m.used - n) m.head)) [
          | inl y ↦ ground arith
          | inr y ↦ ground arith
        ]
      ],
    )
