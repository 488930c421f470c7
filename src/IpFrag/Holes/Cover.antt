-- ===== src/IpFrag/Holes/Cover.antt =====
-- Which bytes of a datagram are missing, before and after a fragment fills a hole
-- (src/vma/proto/ip_frag.cpp).
use libvma.Prelude.{
  ℕ, ◌+◌, ◌≤◌, ◌<◌, ◌≡◌, refl, inl, inr, Bool, true, false, ◌&&◌, ◌||◌, none, some, List, [], ◌∷◌,
  ◌++◌, arith, leb, if◌then◌else◌, Bool-cases, Option-cases,
}
use libvma.IpFrag.Holes.{Hole, Frag, Found, fits, find_hole}

abbrev pub within : ℕ → ℕ → ℕ → Bool
within a b x = leb a x && leb x b

-- The byte lies in a hole.
abbrev pub missing : ℕ → List Hole → Bool
missing x [] = false
missing x (h ∷ hs) = within h.first h.last x || missing x hs

-- The bytes that are known once the fragment is in the hole: its own, and those behind the last
-- fragment of the datagram.
abbrev pub settled : Frag → Found → ℕ → Bool
settled f r x = within f.first (if f.more then f.last else r.hole.last) x

-- No hole is empty, and the holes stand in order, all at `lo` or behind it.
unfoldable pub SortedFrom : ℕ → List Hole → Type 0
SortedFrom lo [] = Unit
SortedFrom lo (h ∷ hs) = (lo ≤ h.first) × (h.first ≤ h.last) × SortedFrom (h.last + 1) hs

pub missing-append : (x : ℕ) (a b : List Hole) → missing x (a ++ b) ≡ (missing x a || missing x b)
missing-append x [] b = refl
missing-append x (h ∷ a) b = ground (arith, missing-append x a b)

pub missing-below : (x lo : ℕ) (hs : List Hole) → SortedFrom lo hs → x < lo → missing x hs ≡ false
unfolding SortedFrom
missing-below x lo [] s p = refl
missing-below x lo (h ∷ hs) s p =
    ground (arith, missing-below x (h.last + 1) hs s.2 (omega (arith, s.0, s.1)))

pub find_hole-append :
    (f : Frag) (hs : List Hole) (r : Found)
    → find_hole f hs ≡ some r
    → hs ≡ r.before ++ (r.hole ∷ r.behind)
unfolding find_hole
find_hole-append f [] r e = absurd (ground arith)
find_hole-append f (h ∷ hs) r e = elim (Bool-cases (fits f h)) [
  | inl a ↦ ground arith
  | inr a ↦ elim (Option-cases (find_hole f hs)) [
    | inl b ↦ absurd (ground arith)
    | inr (q, b) ↦ ground (arith, find_hole-append f hs q b)
  ]
]

pub find_hole-fits :
    (f : Frag) (hs : List Hole) (r : Found) → find_hole f hs ≡ some r → fits f r.hole ≡ true
unfolding find_hole
find_hole-fits f [] r e = absurd (ground arith)
find_hole-fits f (h ∷ hs) r e = elim (Bool-cases (fits f h)) [
  | inl a ↦ ground arith
  | inr a ↦ elim (Option-cases (find_hole f hs)) [
    | inl b ↦ absurd (ground arith)
    | inr (q, b) ↦ ground (arith, find_hole-fits f hs q b)
  ]
]

-- What order says of the place of a hole.
pub record Placed (r : Found) : Type 0 where
  pub ordered : r.hole.first ≤ r.hole.last
  pub not_before : (x : ℕ) → r.hole.first ≤ x → missing x r.before ≡ false
  pub behind_SortedFrom : SortedFrom (r.hole.last + 1) r.behind

pub SortedFrom-Placed :
    (lo : ℕ) (a : List Hole) (h : Hole) (b : List Hole)
    → SortedFrom lo (a ++ (h ∷ b))
    → (lo ≤ h.first) × Placed (record { before = a; hole = h; behind = b })
unfolding SortedFrom
SortedFrom-Placed lo [] h b s =
    (s.0, record { ordered = s.1; not_before = λ x p. refl; behind_SortedFrom = s.2 })
SortedFrom-Placed lo (g ∷ a) h b s =
    let (l, p) = SortedFrom-Placed (g.last + 1) a h b s.2 in
    (
      omega (arith, s.0, s.1, l),
      record {
        ordered = p.ordered;
        not_before = λ x q. ground (arith, l, p.not_before x q);
        behind_SortedFrom = p.behind_SortedFrom;
      },
    )

-- Other holes in the place of one.
pub SortedFrom-replace :
    (lo : ℕ) (a : List Hole) (h : Hole) (b c : List Hole)
    → SortedFrom lo (a ++ (h ∷ b))
    → ((l : ℕ) → l ≤ h.first → SortedFrom l c)
    → SortedFrom lo (a ++ c)
unfolding SortedFrom
SortedFrom-replace lo [] h b c s g = g lo s.0
SortedFrom-replace lo (k ∷ a) h b c s g = (s.0, s.1, SortedFrom-replace (k.last + 1) a h b c s.2 g)

pub SortedFrom-weaken : (l lo : ℕ) (hs : List Hole) → l ≤ lo → SortedFrom lo hs → SortedFrom l hs
unfolding SortedFrom
SortedFrom-weaken l lo [] p s = tt
SortedFrom-weaken l lo (h ∷ hs) p s = (omega (arith, s.0), s.1, s.2)

pub find_hole-not_missing :
    (f : Frag) (hs : List Hole)
    → f.first ≤ f.last
    → (missing f.first hs && missing f.last hs) ≡ false
    → find_hole f hs ≡ none
unfolding find_hole
find_hole-not_missing f [] p e = refl
find_hole-not_missing f (h ∷ hs) p e = elim (Bool-cases (fits f h)) [
  | inl a ↦ absurd (ground arith)
  | inr a ↦ rw (a, find_hole-not_missing f hs p (ground arith)) refl
]
