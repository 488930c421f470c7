-- ===== src/BufferPool/Cycle.antt =====
-- `isCircle` of src/vma/dev/buffer_pool.cpp, by which a pool that has more buffers than it made looks
-- for a circle in its list: Floyd's tortoise and hare.
use libvma.Prelude.{
  ℕ, zero, suc, ◌+◌, ◌-◌, ◌*◌, ◌/◌, ◌%◌, ◌≤◌, ◌<◌, ◌≡◌, refl, sym, ap, subst, ◌∙◌, inl, inr, Bool,
  true, false, ◌||◌, Option, none, some, List, [], ◌∷◌, arith, ◌==◌, if◌then◌else◌, length,
  Bool-cases,
}
use native.Mathlib.Decide.{ℕ_discrete}
use native.Mathlib.Nat.{mod-lt, div-add-mod}
use libvma.Prelude.Store.{Ptr, null}
use libvma.Prelude.Chain.{Chain, Chain-unique}

-- The loop; out of fuel it is `none`.
unfoldable pub chase : ℕ → (Ptr → Ptr) → Ptr → Ptr → Option Bool
chase zero next p1 p2 = none
chase (suc fuel) next p1 p2 =
    let rest = chase fuel next (next p1) (next (next p2)) in
    if next p2 == null || next (next p2) == null
    then some false
    else if next p1 == next (next p2)
    then some true
    else rest

unfoldable pub is_circle : ℕ → (Ptr → Ptr) → Ptr → Option Bool
is_circle fuel next p_node = if p_node == null then some false else chase fuel next p_node p_node

module _ (next : Ptr → Ptr) where
  chase-Chain :
      (fuel : ℕ) (p1 p2 : Ptr) (us vs : List Ptr)
      → Chain next p1 us
      → Chain next p2 vs
      → length vs ≤ length us
      → 0 < length vs
      → length vs ≤ fuel
      → chase fuel next p1 p2 ≡ some false
  unfolding chase
  chase-Chain zero p1 p2 us vs c d l n f = absurd (omega arith)
  chase-Chain (suc fuel) p1 p2 us [] c d l n f = absurd (omega arith)
  chase-Chain (suc fuel) p1 p2 us (v ∷ []) c d l n f = rw (d.0, d.2) refl
  chase-Chain (suc fuel) p1 p2 us (v ∷ x ∷ []) c d l n f = rw (d.0, d.2.0, d.2.2, d.2.1) refl
  chase-Chain (suc fuel) p1 p2 [] (v ∷ x ∷ y ∷ vs) c d l n f = absurd (omega arith)
  chase-Chain (suc fuel) p1 p2 (u ∷ us) (v ∷ x ∷ y ∷ vs) c d l n f =
      let e : next x ≡ y = d.2.2.0 in
      let t : Chain next y (y ∷ vs) = (refl, d.2.2.1, d.2.2.2) in
      rw (d.0, d.2.0, d.2.1, e, d.2.2.1, c.0)
        (elim (Bool-cases (next u == y)) [
          | inl q ↦
              let r : next u ≡ y = ground arith in
              absurd (
                omega (
                  arith,
                  ap length
                      (Chain-unique next y us (y ∷ vs) (subst (λ z. Chain next z us) r c.2) t),
                ))
          | inr q ↦ rw q (
              chase-Chain fuel (next u) y us (y ∷ vs) c.2 t (omega arith) (omega arith)
                (omega arith))
        ])

-- A list that ends with NULL is never taken for a circle, and the walk ends within its length.
pub is_circle-Chain :
    (next : Ptr → Ptr) (p : Ptr) (xs : List Ptr)
    → Chain next p xs
    → is_circle (length xs) next p ≡ some false
unfolding is_circle
is_circle-Chain next p [] c = rw c refl
is_circle-Chain next p (x ∷ xs) c =
    let n : (p == null) ≡ false = ground arith in
    rw n (
      chase-Chain next (length (x ∷ xs)) p p (x ∷ xs) (x ∷ xs) c c (omega arith) (omega arith)
        (omega arith))

abbrev pub iter : ℕ → (Ptr → Ptr) → Ptr → Ptr
iter zero next p = p
iter (suc n) next p = next (iter n next p)

module _ (next : Ptr → Ptr) (p : Ptr) (never : (k : ℕ) → (iter k next p == null) ≡ false) where
  not_yet_met :
      (i j n : ℕ)
      → j ≡ i + i
      → i < n
      → iter n next p ≡ iter (n + n) next p
      → (next (iter i next p) == next (next (iter j next p))) ≡ false
      → suc i < n
  not_yet_met i j n e l m q = elim (ℕ_discrete n (suc i)) [
    | yes x ↦
        let t : suc i + suc i ≡ suc (suc j) = omega (arith, e) in
        let r : iter (suc i) next p ≡ iter (suc (suc j)) next p =
          subst (λ k. iter k next p ≡ iter (k + k) next p) x m ∙ ap (λ k. iter k next p) t in
        absurd (ground arith)
    | no x ↦ ground arith
  ]

  -- The hare is twice as far as the tortoise; they meet at the latest where the walk repeats.
  chase-meets :
      (fuel i j n : ℕ)
      → j ≡ i + i
      → i < n
      → n ≤ i + fuel
      → iter n next p ≡ iter (n + n) next p
      → chase fuel next (iter i next p) (iter j next p) ≡ some true
  unfolding chase
  chase-meets zero i j n e l f m = absurd (omega arith)
  chase-meets (suc fuel) i j n e l f m =
      let a : (next (iter j next p) == null) ≡ false = never (suc j) in
      let b : (next (next (iter j next p)) == null) ≡ false = never (suc (suc j)) in
      rw (a, b)
        (elim (Bool-cases (next (iter i next p) == next (next (iter j next p)))) [
          | inl q ↦ rw q refl
          | inr q ↦
              let o = not_yet_met i j n e l m q in
              rw q (chase-meets fuel (suc i) (suc (suc j)) n (omega (arith, e)) o (omega arith) m)
        ])

  iter-period :
      (mu lambda : ℕ)
      → iter (mu + lambda) next p ≡ iter mu next p
      → (d : ℕ) → iter (mu + d + lambda) next p ≡ iter (mu + d) next p
  iter-period mu lambda e zero =
      let s : mu + zero + lambda ≡ mu + lambda = omega arith in
      let t : mu ≡ mu + zero = omega arith in
      ap (λ k. iter k next p) s ∙ e ∙ ap (λ k. iter k next p) t
  iter-period mu lambda e (suc d) =
      let s : mu + suc d + lambda ≡ suc (mu + d + lambda) = omega arith in
      let t : suc (mu + d) ≡ mu + suc d = omega arith in
      ap (λ k. iter k next p) s ∙ ap next (iter-period mu lambda e d) ∙ ap (λ k. iter k next p) t

  iter-periods :
      (mu lambda : ℕ)
      → iter (mu + lambda) next p ≡ iter mu next p
      → (d c : ℕ) → iter (mu + d + c * lambda) next p ≡ iter (mu + d) next p
  iter-periods mu lambda e d zero =
      let s : mu + d + zero * lambda ≡ mu + d = omega arith in ap (λ k. iter k next p) s
  iter-periods mu lambda e d (suc c) =
      let s : mu + d + suc c * lambda ≡ mu + (d + lambda) + c * lambda = omega arith in
      let t : mu + (d + lambda) ≡ mu + d + lambda = omega arith in
      ap (λ k. iter k next p) s
      ∙ iter-periods mu lambda e (d + lambda) c
      ∙ ap (λ k. iter k next p) t
      ∙ iter-period mu lambda e d

  -- In a list that never comes to NULL and runs into a circle of `lambda` buffers after `mu`, the
  -- circle is found, and at the latest in mu + lambda steps.
  pub is_circle-found :
      (mu lambda : ℕ)
      → 0 < lambda
      → iter (mu + lambda) next p ≡ iter mu next p
      → is_circle (mu + lambda) next p ≡ some true
  unfolding is_circle
  is_circle-found mu lambda l e =
      let c = (mu + lambda) / lambda in
      let n = c * lambda in
      let a : n + (mu + lambda) % lambda ≡ mu + lambda =
        omega (arith, div-add-mod (mu + lambda) lambda) in
      let b = mod-lt (mu + lambda) l in
      let d = n - mu in
      let s : mu + d ≡ n = omega (arith, a, b) in
      let t : mu + d + c * lambda ≡ n + n = omega (arith, s) in
      let m = sym (
        sym (ap (λ k. iter k next p) t)
        ∙ iter-periods mu lambda e d c
        ∙ ap (λ k. iter k next p) s) in
      rw (never 0)
        (chase-meets (mu + lambda) 0 0 n refl (omega (arith, a, b)) (omega (arith, a, b)) m)
