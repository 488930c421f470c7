-- ===== src/IpFrag/Holes/Fill.antt =====
-- Steps 4 to 6 of the reassembly of src/vma/proto/ip_frag.cpp take the bytes of the fragment, and no
-- others, from the holes.
use libvma.Prelude.{
  ℕ, ◌+◌, ◌-◌, ◌≤◌, ◌≡◌, refl, sym, ap, subst, ◌∙◌, inl, inr, true, false, not, ◌&&◌, ◌||◌, some,
  List, [], ◌∷◌, ◌++◌, arith, leb, ltb, ◌==◌, if◌then◌else◌, Bool-cases,
}
use libvma.IpFrag.Holes.{
  Hole, Frag, Found, fits, find_hole, fill_behind, fill_hole, hole_before, hole_behind,
}
use libvma.IpFrag.Holes.Cover.{
  within, missing, settled, SortedFrom, missing-append, missing-below, find_hole-append,
  find_hole-fits, Placed, SortedFrom-Placed, SortedFrom-replace, SortedFrom-weaken,
}
use mathlib.Core.List.{append_assoc}

-- What stands from the place of the hole on.
abbrev left_behind : Frag → Found → ℕ → List Hole
left_behind f r free =
    if ltb f.last r.hole.last && f.more
    then if free == 0 then r.behind else hole_behind f r.hole ∷ r.behind
    else r.behind

abbrev left : Frag → Found → ℕ → List Hole
left f r free =
    if ltb r.hole.first f.first
    then if free == 0 then r.behind else hole_before f r.hole ∷ left_behind f r (free - 1)
    else left_behind f r free

fill_behind-left :
    (f : Frag) (r : Found) (before : List Hole) (free : ℕ)
    → (fill_behind f r before free).holes ≡ before ++ left_behind f r free
unfolding fill_behind
fill_behind-left f r before free = ground arith

fill_hole-left :
    (f : Frag) (r : Found) (free : ℕ) → (fill_hole f r free).holes ≡ r.before ++ left f r free
unfolding fill_hole
fill_hole-left f r free = ground (
  arith,
  fill_behind-left f r (r.before ++ (hole_before f r.hole ∷ [])) (free - 1),
  fill_behind-left f r r.before free,
  append_assoc r.before (hole_before f r.hole ∷ []) (left_behind f r (free - 1)),
)

module _ (f : Frag) (r : Found) (p : Placed r) (q : fits f r.hole ≡ true)
    (o : f.first ≤ f.last) where
  left_behind-SortedFrom : (free l : ℕ) → l ≤ f.last + 1 → SortedFrom l (left_behind f r free)
  unfolding SortedFrom
  left_behind-SortedFrom free l e =
      let b = p.behind_SortedFrom in
      let w = SortedFrom-weaken l (r.hole.last + 1) r.behind (ground arith) b in
      elim (Bool-cases (ltb f.last r.hole.last && f.more)) [
        | inl x ↦ elim (Bool-cases (free == 0)) [
          | inl y ↦ rw (x, y) w
          | inr y ↦ rw (x, y) (e, ground arith, b)
        ]
        | inr x ↦ rw x w
      ]

  left-SortedFrom : (free l : ℕ) → l ≤ r.hole.first → SortedFrom l (left f r free)
  unfolding SortedFrom
  left-SortedFrom free l e =
      let b = p.behind_SortedFrom in
      elim (Bool-cases (ltb r.hole.first f.first)) [
        | inl x ↦ elim (Bool-cases (free == 0)) [
          | inl y ↦
              rw (x, y)
                (SortedFrom-weaken l (r.hole.last + 1) r.behind (omega (arith, e, p.ordered)) b)
          | inr y ↦
              rw (x, y)
                (
                  e,
                  ground arith,
                  left_behind-SortedFrom (free - 1) (f.first - 1 + 1) (ground arith),
                )
        ]
        | inr x ↦ rw x (left_behind-SortedFrom free l (ground arith))
      ]

  left-missing :
      (free x : ℕ)
      → (fill_hole f r free).enough ≡ true
      → missing x (left f r free)
        ≡ ((within r.hole.first r.hole.last x || missing x r.behind) && not (settled f r x))
  unfolding fill_hole fill_behind
  left-missing free x e = elim (Bool-cases (leb x r.hole.last)) [
    | inl a ↦
        ground
          (arith, missing-below x (r.hole.last + 1) r.behind p.behind_SortedFrom (ground arith))
    | inr a ↦ ground arith
  ]

module _ (f : Frag) (hs : List Hole) (r : Found) (free : ℕ) (e : find_hole f hs ≡ some r)
    (o : f.first ≤ f.last) (lo : ℕ) (s : SortedFrom lo hs) where
  found-Placed : Placed r
  found-Placed =
      (SortedFrom-Placed lo r.before r.hole r.behind
        (subst (SortedFrom lo) (find_hole-append f hs r e) s)).1

  -- Whether there are enough descriptors or not, the holes that are left are in order.
  pub fill_hole-SortedFrom : SortedFrom lo (fill_hole f r free).holes
  fill_hole-SortedFrom = rw (fill_hole-left f r free) (
      SortedFrom-replace lo r.before r.hole r.behind (left f r free)
        (subst (SortedFrom lo) (find_hole-append f hs r e) s)
        (left-SortedFrom f r found-Placed (find_hole-fits f hs r e) o free))

  pub fill_hole-missing :
      (x : ℕ)
      → (fill_hole f r free).enough ≡ true
      → missing x (fill_hole f r free).holes ≡ (missing x hs && not (settled f r x))
  fill_hole-missing x n =
      let a = missing-append x r.before (left f r free) in
      let b = left-missing f r found-Placed (find_hole-fits f hs r e) o free x n in
      let c =
        ap (missing x) (find_hole-append f hs r e)
        ∙ missing-append x r.before (r.hole ∷ r.behind) in
      ap (missing x) (fill_hole-left f r free) ∙ (elim (Bool-cases (leb r.hole.first x)) [
        | inl y ↦ ground (arith, a, b, c, found-Placed.not_before x (ground arith))
        | inr y ↦ ground (arith, a, b, c, find_hole-fits f hs r e)
      ])

pub fill_hole-enough :
    (f : Frag) (r : Found) (free : ℕ) → 2 ≤ free → (fill_hole f r free).enough ≡ true
unfolding fill_hole fill_behind
fill_hole-enough f r free p = ground arith

pub fill_hole-exhausted :
    (f : Frag) (r : Found) (free : ℕ)
    → ltb r.hole.first f.first ≡ true
    → free ≡ 0
    → fill_hole f r free ≡ record { holes = r.before ++ r.behind; free = 1; enough = false }
unfolding fill_hole
fill_hole-exhausted f r free a z = rw (a, z) refl

-- The holes without the one that the fragment fits into.
pub find_hole-others :
    (f : Frag) (hs : List Hole) (r : Found)
    → find_hole f hs ≡ some r
    → SortedFrom 0 hs
    → (x : ℕ)
    → missing x (r.before ++ r.behind) ≡ (missing x hs && not (within r.hole.first r.hole.last x))
find_hole-others f hs r q s x =
    let e = find_hole-append f hs r q in
    let p = (SortedFrom-Placed 0 r.before r.hole r.behind (subst (SortedFrom 0) e s)).1 in
    let b = p.not_before x in
    let c = missing-below x (r.hole.last + 1) r.behind p.behind_SortedFrom in
    missing-append x r.before r.behind
    ∙ ground (arith, missing-append x r.before (r.hole ∷ r.behind), b, c)
    ∙ ap (λ l. missing x l && not (within r.hole.first r.hole.last x)) (sym e)

pub find_hole-missing :
    (f : Frag) (hs : List Hole) (r : Found)
    → find_hole f hs ≡ some r
    → (x : ℕ) → within r.hole.first r.hole.last x ≡ true
    → missing x hs ≡ true
find_hole-missing f hs r q x w =
    let e = find_hole-append f hs r q in
    ap (missing x) e ∙ ground (arith, missing-append x r.before (r.hole ∷ r.behind), w)
