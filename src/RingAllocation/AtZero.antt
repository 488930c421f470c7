-- ===== src/RingAllocation/AtZero.antt =====
-- A thread on the first core (src/vma/dev/ring_allocation_logic.cpp).
use libvma.Prelude.{
  ℕ, zero, suc, ◌≡◌, refl, Bool, true, false, ◌||◌, none, arith, ltb, ◌==◌, if_elim, if_cases,
}
use libvma.Prelude.Int.{ℤ, pos, ltb_ℤ, ◌+ℤ◌}
use libvma.RingAllocation.{
  Environment, RingAllocationLogic, logic_number, calc_res_key_by_logic, rounds_over, count_round,
  should_migrate_ring,
}
use libvma.RingAllocation.Migration.{first_migration}

-- The thread's key is 0, as that of the first core is, and there is no candidate, which is 0 too.
pub record IsAtZero (env : Environment) (a : RingAllocationLogic) : Type 0 where
  pub candidate : a.migration_candidate ≡ 0
  pub key : calc_res_key_by_logic env a ≡ 0

module _ (env : Environment) where
  abbrev NotMoving : Bool × RingAllocationLogic → Type 0
  NotMoving r = (r.0 ≡ false) × IsAtZero env r.1

  rounds_over-IsAtZero : (a : RingAllocationLogic) → IsAtZero env a → NotMoving (rounds_over env a)
  unfolding calc_res_key_by_logic
  rounds_over-IsAtZero a h =
      let z : (a.migration_candidate == 0) ≡ true = ground (arith, h.candidate) in
      let new = calc_res_key_by_logic env a in
      let kept : NotMoving (false, a) = (refl, h) in
      let chosen : NotMoving (false, record a { migration_candidate = new }) =
        (refl, record { candidate = h.key; key = h.key }) in
      rw z (
        if_elim NotMoving
          (new == a.res_key.user_id_key || (env.internal_thread == a.res_key.user_id_key))
          (false, a) (false, record a { migration_candidate = new }) kept chosen)

  count_round-IsAtZero :
      (m : ℤ) (a : RingAllocationLogic) → IsAtZero env a → NotMoving (count_round env m a)
  unfolding calc_res_key_by_logic
  count_round-IsAtZero m a h =
      let counted : RingAllocationLogic = record a {
        migration_try_count = a.migration_try_count +ℤ pos 1;
      } in
      let reset : RingAllocationLogic = record a { migration_try_count = pos 0 } in
      if_elim NotMoving (ltb_ℤ a.migration_try_count m) (false, counted) (rounds_over env reset)
        (refl, record { candidate = h.candidate; key = h.key })
        (rounds_over-IsAtZero reset (record { candidate = h.candidate; key = h.key }))

  should_migrate_ring-IsAtZero :
      (a : RingAllocationLogic) → IsAtZero env a → NotMoving (should_migrate_ring env a)
  unfolding should_migrate_ring
  should_migrate_ring-IsAtZero a h =
      let z : (a.migration_candidate == 0) ≡ true = ground (arith, h.candidate) in
      let kept : NotMoving (false, a) = (refl, h) in
      if_cases NotMoving (ltb (logic_number a.res_key.ring_alloc_logic) 20) _ _ (λ e. kept)
        (λ e.
          if_cases NotMoving (ltb_ℤ a.ring_migration_ratio (pos 0)) _ _ (λ e. kept)
            (λ e.
              if_cases NotMoving (a.migration_candidate == 0) _ _
                (λ e. count_round-IsAtZero a.ring_migration_ratio a h) (λ e. absurd cc)))

  -- A thread whose key is 0, as with a ring for each core one on the first core, is never recommended
  -- another ring, whatever ring it uses, since the candidate 0 means that there is none. There is no candidate at first, and the thread stays.
  pub first_migration-IsAtZero :
      (fuel : ℕ) (a : RingAllocationLogic) → IsAtZero env a → first_migration env fuel a ≡ none
  unfolding first_migration
  first_migration-IsAtZero zero a h = refl
  first_migration-IsAtZero (suc fuel) a h =
      let r = should_migrate_ring-IsAtZero a h in
      rw (r.0, first_migration-IsAtZero fuel (should_migrate_ring env a).1 r.1) refl
