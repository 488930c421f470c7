-- ===== src/RingAllocation/Migration.antt =====
-- When `should_migrate_ring` (src/vma/dev/ring_allocation_logic.cpp) recommends another ring.
use libvma.Prelude.{
  ℕ, zero, suc, ◌+◌, ◌-◌, ◌≤◌, ◌<◌, ◌≡◌, refl, sym, ap, ◌∙◌, Bool, true, false, Option, none, some,
  arith, ltb, ◌==◌,
}
use libvma.Prelude.Int.{ℤ, pos, ltb_ℤ, ◌+ℤ◌}
use libvma.RingAllocation.{
  Environment, RingAllocationLogic, logic_number, calc_res_key_by_logic, rounds_over, count_round,
  should_migrate_ring, candidate_stability_rounds,
}

-- The number of calls before the first one that recommends a ring, if one of `fuel` calls does.
abbrev after_false : Option ℕ → Option ℕ
after_false none = none
after_false (some n) = some (suc n)

abbrev first_or : Bool → Option ℕ → Option ℕ
first_or true later = some 0
first_or false later = after_false later

unfoldable pub first_migration : Environment → (fuel : ℕ) → RingAllocationLogic → Option ℕ
first_migration env zero a = none
first_migration env (suc fuel) a =
    let r = should_migrate_ring env a in first_or r.0 (first_migration env fuel r.1)

-- A socket whose rings are by thread or by core, and whose migration is on.
pub record CanMigrate (a : RingAllocationLogic) (r : ℕ) : Type 0 where
  pub by_thread : 20 ≤ logic_number a.res_key.ring_alloc_logic
  pub ratio : a.ring_migration_ratio ≡ pos r

-- The thread has moved: its key is neither that of the ring nor 0, and the ring is not that of the
-- internal thread.
pub record HasMoved (env : Environment) (a : RingAllocationLogic) : Type 0 where
  pub new : (calc_res_key_by_logic env a == a.res_key.user_id_key) ≡ false
  pub not_internal : (env.internal_thread == a.res_key.user_id_key) ≡ false
  pub not_zero : (calc_res_key_by_logic env a == 0) ≡ false

is_on : (r : ℕ) → ltb_ℤ (pos r) (pos 0) ≡ false
is_on r = ground arith

pub pos-suc : (t : ℕ) → pos t +ℤ pos 1 ≡ pos (suc t)
unfolding ◌+ℤ◌
pos-suc t = ground arith

module _ (env : Environment) (a : RingAllocationLogic) (r : ℕ) where
  -- The socket while it counts rounds.
  abbrev pub counting : (candidate t : ℕ) → RingAllocationLogic
  counting candidate t = record a { migration_candidate = candidate; migration_try_count = pos t }

  abbrev pub new_id : ℕ
  new_id = calc_res_key_by_logic env a

  pub count_round-wait :
      (candidate m t : ℕ)
      → t < m
      → count_round env (pos m) (counting candidate t) ≡ (false, counting candidate (suc t))
  count_round-wait candidate m t l =
      let e : ltb_ℤ (pos t) (pos m) ≡ true = ground (arith, l) in
      let done : ℤ → Bool × RingAllocationLogic =
        λ n. (false, record a { migration_candidate = candidate; migration_try_count = n }) in
      rw e (ap done (pos-suc t))

  pub count_round-over :
      (candidate m t : ℕ)
      → m ≤ t
      → count_round env (pos m) (counting candidate t) ≡ rounds_over env (counting candidate 0)
  count_round-over candidate m t l =
      let e : ltb_ℤ (pos t) (pos m) ≡ false = ground (arith, l) in rw e refl

  -- A call by the candidate that there is.
  pub call-none :
      (t : ℕ)
      → CanMigrate a r
      → should_migrate_ring env (counting 0 t) ≡ count_round env (pos r) (counting 0 t)
  unfolding should_migrate_ring
  call-none t c =
      let e : ltb (logic_number a.res_key.ring_alloc_logic) 20 ≡ false =
        ground (arith, c.by_thread) in
      let z : ltb_ℤ a.ring_migration_ratio (pos 0) ≡ false =
        ap (λ x. ltb_ℤ x (pos 0)) c.ratio ∙ is_on r in
      rw (e, z) (ap (λ m. count_round env m (counting 0 t)) c.ratio)

  pub call-stable :
      (candidate t : ℕ)
      → CanMigrate a r
      → (candidate == 0) ≡ false
      → (candidate == new_id) ≡ true
      → should_migrate_ring env (counting candidate t)
        ≡ count_round env (pos candidate_stability_rounds) (counting candidate t)
  unfolding should_migrate_ring calc_res_key_by_logic
  call-stable candidate t c n s =
      let e : ltb (logic_number a.res_key.ring_alloc_logic) 20 ≡ false =
        ground (arith, c.by_thread) in
      let z : ltb_ℤ a.ring_migration_ratio (pos 0) ≡ false =
        ap (λ x. ltb_ℤ x (pos 0)) c.ratio ∙ is_on r in
      rw (e, z, n, s) refl

  pub rounds_over-chosen :
      HasMoved env a → rounds_over env (counting 0 0) ≡ (false, counting new_id 0)
  unfolding calc_res_key_by_logic
  rounds_over-chosen h = rw (h.new, h.not_internal) refl

  pub rounds_over-stayed :
      (candidate : ℕ)
      → (candidate == 0) ≡ false
      → rounds_over env (counting candidate 0) ≡ (true, counting 0 0)
  rounds_over-stayed candidate n = rw n refl

pub first_migration-false :
    (env : Environment) (fuel n : ℕ) (a b : RingAllocationLogic)
    → should_migrate_ring env a ≡ (false, b)
    → first_migration env fuel b ≡ some n
    → first_migration env (suc fuel) a ≡ some (suc n)
unfolding first_migration
first_migration-false env fuel n a b e f =
    ap (λ r. first_or r.0 (first_migration env fuel r.1)) e ∙ ap after_false f

first_migration-true :
    (env : Environment) (fuel : ℕ) (a b : RingAllocationLogic)
    → should_migrate_ring env a ≡ (true, b)
    → first_migration env (suc fuel) a ≡ some 0
unfolding first_migration
first_migration-true env fuel a b e = ap (λ r. first_or r.0 (first_migration env fuel r.1)) e

module _ (env : Environment) (a : RingAllocationLogic) (r : ℕ) where
  -- Rounds are counted up to `m`, from where on the first recommendation comes after `n` calls.
  first_migration-wait :
      (candidate m fuel n : ℕ)
      → ((t : ℕ)
          → t < m
          → should_migrate_ring env (counting env a r candidate t)
            ≡ (false, counting env a r candidate (suc t)))
      → first_migration env fuel (counting env a r candidate m) ≡ some n
      → (j t fuel' n' : ℕ) → t + j ≡ m
      → fuel' ≡ j + fuel
      → n' ≡ j + n
      → first_migration env fuel' (counting env a r candidate t) ≡ some n'
  first_migration-wait candidate m fuel n w f zero t fuel' n' e x y =
      let p : m ≡ t = omega (arith, e) in
      let q : fuel ≡ fuel' = omega (arith, x) in
      let s : n ≡ n' = omega (arith, y) in
      ap (λ z. first_migration env fuel' (counting env a r candidate z)) (sym p)
      ∙ ap (λ z. first_migration env z (counting env a r candidate m)) (sym q)
      ∙ f
      ∙ ap some s
  first_migration-wait candidate m fuel n w f (suc j) t fuel' n' e x y =
      let q : fuel' ≡ suc (j + fuel) = omega (arith, x) in
      let s : suc (j + n) ≡ n' = omega (arith, y) in
      let later =
        first_migration-wait candidate m fuel n w f j (suc t) (j + fuel) (j + n) (omega (arith, e))
          refl refl in
      ap (λ z. first_migration env z (counting env a r candidate t)) q
      ∙ first_migration-false env (j + fuel) (j + n) (counting env a r candidate t)
          (counting env a r candidate (suc t)) (w t (omega (arith, e))) later
      ∙ ap some s

  -- A thread that has moved to another key, and stays there, is recommended a new ring: at the call
  -- after those that are left of the ratio, one that chooses the candidate, and 20 in which it stays;
  -- and not before. Conditions: the rings go by thread or core, the ratio is not negative, and there is no candidate yet; the new key is not 0, and the ring is not the internal thread's.
  pub first_migration_lem :
      (t : ℕ)
      → t ≤ r
      → CanMigrate a r
      → HasMoved env a
      → first_migration env (r - t + 22) (counting env a r 0 t) ≡ some (r - t + 21)
  first_migration_lem t l c h =
      let d = new_id env a r in
      let same : (d == d) ≡ true = ground arith in
      let stable : (k : ℕ)
          → should_migrate_ring env (counting env a r d k)
            ≡ count_round env (pos 20) (counting env a r d k) =
        λ k. call-stable env a r d k c h.not_zero same in
      let none_yet : (k : ℕ)
          → should_migrate_ring env (counting env a r 0 k)
            ≡ count_round env (pos r) (counting env a r 0 k) =
        λ k. call-none env a r k c in
      let last : first_migration env 1 (counting env a r d 20) ≡ some 0 =
        first_migration-true env 0 (counting env a r d 20) (counting env a r 0 0) (
          stable 20
          ∙ count_round-over env a r d 20 20 (omega arith)
          ∙ rounds_over-stayed env a r d h.not_zero) in
      let staying : first_migration env 21 (counting env a r d 0) ≡ some 20 =
        first_migration-wait d 20 1 0 (λ k b. stable k ∙ count_round-wait env a r d 20 k b) last 20
          0 21 20 refl refl refl in
      let chosen : first_migration env 22 (counting env a r 0 r) ≡ some 21 =
        first_migration-false env 21 20 (counting env a r 0 r) (counting env a r d 0)
          (none_yet r ∙ count_round-over env a r 0 r r (omega arith) ∙ rounds_over-chosen env a r h)
          staying in
      first_migration-wait 0 r 22 21 (λ k b. none_yet k ∙ count_round-wait env a r 0 r k b) chosen
        (r - t) t (r - t + 22) (r - t + 21) (omega arith) refl refl
