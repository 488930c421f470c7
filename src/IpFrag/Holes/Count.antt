-- ===== src/IpFrag/Holes/Count.antt =====
-- Hole descriptors of src/vma/proto/ip_frag.cpp are neither lost nor made up when a hole is filled.
use libvma.Prelude.{
  ℕ, ◌+◌, ◌-◌, ◌≡◌, inl, inr, some, List, [], ◌∷◌, ◌++◌, arith, length, length-append, Bool-cases,
  Option-cases,
}
use libvma.IpFrag.Holes.{
  Hole, Frag, Found, fits, find_hole, fill_behind, fill_hole, hole_before, hole_behind,
}

abbrev pub found_length : Found → ℕ
found_length r = length r.before + length r.behind + 1

pub find_hole-length :
    (f : Frag) (hs : List Hole) (r : Found) → find_hole f hs ≡ some r → length hs ≡ found_length r
unfolding find_hole
find_hole-length f [] r e = absurd (ground arith)
find_hole-length f (h ∷ hs) r e = elim (Bool-cases (fits f h)) [
  | inl a ↦ ground arith
  | inr a ↦ elim (Option-cases (find_hole f hs)) [
    | inl b ↦ absurd (ground arith)
    | inr (q, b) ↦ ground (arith, find_hole-length f hs q b)
  ]
]

fill_behind-length :
    (f : Frag) (r : Found) (before : List Hole) (free : ℕ)
    → length (fill_behind f r before free).holes + (fill_behind f r before free).free
      ≡ length before + length r.behind + free + 1
unfolding fill_behind
fill_behind-length f r before free =
    ground
      (arith, length-append before r.behind, length-append before (hole_behind f r.hole ∷ r.behind))

pub fill_hole-length :
    (f : Frag) (r : Found) (free : ℕ)
    → length (fill_hole f r free).holes + (fill_hole f r free).free ≡ found_length r + free
unfolding fill_hole
fill_hole-length f r free = ground (
  arith,
  length-append r.before r.behind,
  length-append r.before (hole_before f r.hole ∷ []),
  fill_behind-length f r (r.before ++ (hole_before f r.hole ∷ [])) (free - 1),
  fill_behind-length f r r.before free,
)
