-- ===== src/Prelude/Chain.antt =====
-- Lists that are linked by a `next` field and end with NULL.
use libvma.Prelude.{
  ℕ, zero, suc, ◌<◌, ◌≡◌, refl, sym, ap, subst, ◌∙◌, Bool, true, false, ◌||◌, List, [], ◌∷◌, ◌++◌,
  arith, ◌==◌, if◌then◌else◌, length,
}
use libvma.Prelude.Store.{Ptr, null, update, update_self, update_ne}
use native.Mathlib.Decide.{ℕ_discrete}

-- The links lead from `p` over the buffers of the list to NULL.
abbrev pub Chain : (Ptr → Ptr) → Ptr → List Ptr → Type 0
Chain next p [] = p ≡ null
Chain next p (x ∷ xs) = (p ≡ x) × ((x == null) ≡ false) × Chain next (next x) xs

abbrev pub elem : Ptr → List Ptr → Bool
elem p [] = false
elem p (x ∷ xs) = p == x || elem p xs

abbrev pub Distinct : List Ptr → Type 0
Distinct [] = Unit
Distinct (x ∷ xs) = (elem x xs ≡ false) × Distinct xs

pub elem-append : (p : Ptr) (xs ys : List Ptr) → elem p (xs ++ ys) ≡ (elem p xs || elem p ys)
elem-append p [] ys = refl
elem-append p (x ∷ xs) ys = ground (arith, elem-append p xs ys)

-- A write to a buffer that is not in the chain.
pub Chain-update :
    (next : Ptr → Ptr) (q v p : Ptr) (xs : List Ptr)
    → elem q xs ≡ false
    → Chain next p xs
    → Chain (update next q v) p xs
Chain-update next q v p [] e c = c
Chain-update next q v p (x ∷ xs) e c =
    let n : (x == q) ≡ false = ground arith in
    (c.0, c.1, rw n (Chain-update next q v (next x) xs (ground arith) c.2))

-- Only one list can be what the links lead over.
pub Chain-unique :
    (next : Ptr → Ptr) (p : Ptr) (xs ys : List Ptr) → Chain next p xs → Chain next p ys → xs ≡ ys
Chain-unique next p [] [] c d = refl
Chain-unique next p [] (y ∷ ys) c d = absurd (ground arith)
Chain-unique next p (x ∷ xs) [] c d = absurd (ground arith)
Chain-unique next p (x ∷ xs) (y ∷ ys) c d =
    let e : y ≡ x = sym d.0 ∙ c.0 in
    let t = Chain-unique next (next x) xs ys c.2 (subst (λ z. Chain next (next z) ys) e d.2) in
    λ i. sym e i ∷ t i

pub Distinct-move :
    (y : Ptr) (ys xs : List Ptr)
    → elem y (ys ++ xs) ≡ false
    → Distinct (ys ++ xs)
    → Distinct (ys ++ (y ∷ xs))
Distinct-move y [] xs e d = (e, d)
Distinct-move y (z ∷ ys) xs e d = (
  ground (arith, elem-append z ys xs, elem-append z ys (y ∷ xs), d.0),
  Distinct-move y ys xs (ground arith) d.1,
)

-- The end of a chain, by the loop `while (p->next) p = p->next`. The fuel bounds the walk.
abbrev pub tail_of : ℕ → (Ptr → Ptr) → Ptr → Ptr
tail_of zero next p = p
tail_of (suc fuel) next p = if next p == null then p else tail_of fuel next (next p)

-- One step of the walk.
tail_of-next :
    (fuel : ℕ) (next : Ptr → Ptr) (x y : Ptr) (xs : List Ptr)
    → Chain next x (x ∷ y ∷ xs)
    → tail_of (suc fuel) next x ≡ tail_of fuel next y
tail_of-next fuel next x y xs c =
    let e : next x ≡ y = c.2.0 in
    let n : (next x == null) ≡ false = let d = c.2.1 in ground arith in rw (n, e) refl

tail_of-last :
    (fuel : ℕ) (next : Ptr → Ptr) (x : Ptr) → Chain next x (x ∷ []) → tail_of (suc fuel) next x ≡ x
tail_of-last fuel next x c = rw (c.2) refl

absent : (x t : Ptr) (zs : List Ptr) → elem x zs ≡ false → elem t zs ≡ true → (x == t) ≡ false
absent x t zs e f = elim (ℕ_discrete x t) [
  | yes p ↦ absurd (let q : elem x zs ≡ true = ap (λ z. elem z zs) p ∙ f in ground arith)
  | no p ↦ ground arith
]

in_front : (t : Ptr) (xs ys : List Ptr) → elem t xs ≡ true → elem t (xs ++ ys) ≡ true
in_front t xs ys e = elem-append t xs ys ∙ ground arith

tail_of-elem :
    (fuel : ℕ) (next : Ptr → Ptr) (x : Ptr) (xs : List Ptr)
    → Chain next x (x ∷ xs)
    → elem (tail_of fuel next x) (x ∷ xs) ≡ true
tail_of-elem zero next x xs c = ground arith
tail_of-elem (suc fuel) next x [] c = rw (c.2) (ground arith)
tail_of-elem (suc fuel) next x (y ∷ xs) c =
    ap (λ q. elem q (x ∷ y ∷ xs)) (tail_of-next fuel next x y xs c)
    ∙ ground (arith, tail_of-elem fuel next y xs (refl, c.2.1, c.2.2))

-- Another chain behind the end of one.
pub Chain-append :
    (fuel : ℕ) (next : Ptr → Ptr) (x : Ptr) (xs : List Ptr) (q : Ptr) (ys : List Ptr)
    → Chain next x (x ∷ xs)
    → Chain next q ys
    → Distinct (x ∷ xs ++ ys)
    → length xs < fuel
    → Chain (update next (tail_of fuel next x) q) x (x ∷ xs ++ ys)
Chain-append zero next x xs q ys c d n l = absurd (omega arith)
Chain-append (suc fuel) next x [] q ys c d n l =
    subst (λ t. Chain (update next t q) x (x ∷ ys)) (sym (tail_of-last fuel next x c))
      (
        refl,
        c.1,
        subst (λ p. Chain (update next x q) p ys) (sym (update_self next x q))
            (Chain-update next x q q ys n.0 d),
      )
Chain-append (suc fuel) next x (y ∷ xs) q ys c d n l =
    let r = Chain-append fuel next y xs q ys (refl, c.2.1, c.2.2) d n.1 (omega arith) in
    let t = tail_of fuel next y in
    let m : (x == t) ≡ false =
      absent x t (y ∷ xs ++ ys) n.0
        (in_front t (y ∷ xs) ys (tail_of-elem fuel next y xs (refl, c.2.1, c.2.2))) in
    subst (λ z. Chain (update next z q) x (x ∷ y ∷ xs ++ ys))
      (sym (tail_of-next fuel next x y xs c))
      (
        refl,
        c.1,
        subst (λ p. Chain (update next t q) p (y ∷ xs ++ ys)) (sym (update_ne next t q x m ∙ c.2.0))
            r,
      )
