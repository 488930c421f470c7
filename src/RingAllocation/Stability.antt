-- ===== src/RingAllocation/Stability.antt =====
-- What a recommendation of `should_migrate_ring` (src/vma/dev/ring_allocation_logic.cpp) rests on.
use libvma.Prelude.{
  ℕ, suc, ◌≤◌, ◌≡◌, refl, sym, ap, subst, ◌∙◌, ◌⊎◌, inl, inr, Bool, true, false, ◌||◌, List, [],
  ◌∷◌, arith, ltb, ◌==◌, if_cases, Bool-cases, All, take, length,
}
use libvma.Prelude.Int.{pos, ltb_ℤ, ◌+ℤ◌}
use libvma.RingAllocation.{
  Environment, RingAllocationLogic, logic_number, calc_res_key_by_logic, count_round,
  should_migrate_ring, candidate_stability_rounds,
}
use libvma.RingAllocation.Migration.{pos-suc}

-- The calls of `should_migrate_ring`, the last one first.
pub data Calls (start : RingAllocationLogic) : List Environment → RingAllocationLogic → Type 0 where
  no_call : Calls start [] start
  call :
      (env : Environment) (envs : List Environment) (a : RingAllocationLogic)
      → Calls start envs a
      → Calls start (env ∷ envs) (should_migrate_ring env a).1

-- The candidate was the key of the last `t` calls, and is not the key in use.
pub record Waiting (envs : List Environment) (a : RingAllocationLogic) (t : ℕ) : Type 0 where
  pub count : a.migration_try_count ≡ pos t
  pub at_most : t ≤ 20
  pub calls : t ≤ length envs
  pub stays : All (λ e. calc_res_key_by_logic e a ≡ a.migration_candidate) (take t envs)
  pub not_zero : (a.migration_candidate == 0) ≡ false
  pub new : (a.migration_candidate == a.res_key.user_id_key) ≡ false
  pub by_thread : ltb (logic_number a.res_key.ring_alloc_logic) 20 ≡ false
  pub is_on : ltb_ℤ a.ring_migration_ratio (pos 0) ≡ false

abbrev Stable : List Environment → RingAllocationLogic → Type 0
Stable envs a = (a.migration_candidate ≡ 0) ⊎ ((t : ℕ) × Waiting envs a t)

data Outcome (env : Environment) (envs : List Environment) (a : RingAllocationLogic)
    (r : Bool × RingAllocationLogic) : Type 0 where
  idle : r.0 ≡ false → r.1.migration_candidate ≡ 0 → Outcome env envs a r
  waits : (t : ℕ) → r.0 ≡ false → Waiting (env ∷ envs) r.1 t → Outcome env envs a r
  moves :
      r.1.migration_candidate ≡ 0
      → Waiting envs a 20
      → calc_res_key_by_logic env a ≡ a.migration_candidate
      → Outcome env envs a r

module _ (env : Environment) (envs : List Environment) (a : RingAllocationLogic) where
  abbrev new_id : ℕ
  new_id = calc_res_key_by_logic env a

  chosen-Outcome :
      ltb (logic_number a.res_key.ring_alloc_logic) 20 ≡ false
      → ltb_ℤ a.ring_migration_ratio (pos 0) ≡ false
      → (new_id == a.res_key.user_id_key || (env.internal_thread == a.res_key.user_id_key)) ≡ false
      → Outcome env envs a
          (false, record a { migration_try_count = pos 0; migration_candidate = new_id })
  unfolding calc_res_key_by_logic
  chosen-Outcome b o n = elim (Bool-cases (new_id == 0)) [
    | inl z ↦ idle refl (ground arith)
    | inr z ↦ waits 0 refl (record {
      count = refl;
      at_most = omega arith;
      calls = omega arith;
      stays = tt;
      not_zero = z;
      new = ground arith;
      by_thread = b;
      is_on = o;
    })
  ]

  no_candidate-Outcome :
      ltb (logic_number a.res_key.ring_alloc_logic) 20 ≡ false
      → ltb_ℤ a.ring_migration_ratio (pos 0) ≡ false
      → (a.migration_candidate == 0) ≡ true
      → Outcome env envs a (count_round env a.ring_migration_ratio a)
  unfolding calc_res_key_by_logic
  no_candidate-Outcome b o z =
      let zero_candidate : a.migration_candidate ≡ 0 = ground arith in
      let P = Outcome env envs a in
      if_cases P (ltb_ℤ a.migration_try_count a.ring_migration_ratio) _ _
        (λ e. idle refl zero_candidate)
        (λ e.
          if_cases P (a.migration_candidate == 0) _ _
            (λ e.
              if_cases P
                (new_id == a.res_key.user_id_key || (env.internal_thread == a.res_key.user_id_key))
                _ _ (λ e. idle refl zero_candidate) (λ e. chosen-Outcome b o e))
            (λ e. absurd cc))

  stays-Outcome :
      (t : ℕ)
      → Waiting envs a t
      → (a.migration_candidate == new_id) ≡ true
      → Outcome env envs a (count_round env (pos candidate_stability_rounds) a)
  unfolding calc_res_key_by_logic
  stays-Outcome t w s =
      let same : new_id ≡ a.migration_candidate = ground arith in
      let P = Outcome env envs a in
      if_cases P (ltb_ℤ a.migration_try_count (pos candidate_stability_rounds)) _ _
        (λ e.
          let l : ltb_ℤ (pos t) (pos 20) ≡ true = subst (λ n. ltb_ℤ n (pos 20) ≡ true) w.count e in
          let c : a.migration_try_count +ℤ pos 1 ≡ pos (suc t) =
            ap (λ n. n +ℤ pos 1) w.count ∙ pos-suc t in
          waits (suc t) refl (record {
            count = c;
            at_most = ground arith;
            calls = omega (arith, w.calls);
            stays = (same, w.stays);
            not_zero = w.not_zero;
            new = w.new;
            by_thread = w.by_thread;
            is_on = w.is_on;
          }))
        (λ e.
          let l : ltb_ℤ (pos t) (pos 20) ≡ false =
            subst (λ n. ltb_ℤ n (pos 20) ≡ false) w.count e in
          let m : t ≡ 20 = ground (arith, w.at_most) in
          if_cases P (a.migration_candidate == 0) _ _ (λ z. let n = w.not_zero in absurd cc)
            (λ z. moves refl (subst (Waiting envs a) m w) same))

  call-Outcome : Stable envs a → Outcome env envs a (should_migrate_ring env a)
  unfolding should_migrate_ring
  call-Outcome (inl z) =
      let P = Outcome env envs a in
      let y : (a.migration_candidate == 0) ≡ true = ground (arith, z) in
      if_cases P (ltb (logic_number a.res_key.ring_alloc_logic) 20) _ _ (λ e. idle refl z)
        (λ b.
          if_cases P (ltb_ℤ a.ring_migration_ratio (pos 0)) _ _ (λ e. idle refl z)
            (λ o.
              if_cases P (a.migration_candidate == 0) _ _ (λ e. no_candidate-Outcome b o e)
                (λ e. absurd cc)))
  call-Outcome (inr w) =
      let P = Outcome env envs a in
      let b = w.1.by_thread in
      let o = w.1.is_on in
      let n = w.1.not_zero in
      if_cases P (ltb (logic_number a.res_key.ring_alloc_logic) 20) _ _ (λ e. absurd cc)
        (λ e.
          if_cases P (ltb_ℤ a.ring_migration_ratio (pos 0)) _ _ (λ e. absurd cc)
            (λ e.
              if_cases P (a.migration_candidate == 0) _ _ (λ e. absurd cc)
                (λ e.
                  if_cases P (a.migration_candidate == new_id) _ _ (λ s. stays-Outcome w.0 w.1 s)
                    (λ s. idle refl refl))))

Outcome-Stable :
    (env : Environment) (envs : List Environment) (a : RingAllocationLogic)
    (r : Bool × RingAllocationLogic)
    → Outcome env envs a r
    → Stable (env ∷ envs) r.1
Outcome-Stable env envs a r (idle e z) = inl z
Outcome-Stable env envs a r (waits t e w) = inr (t, w)
Outcome-Stable env envs a r (moves z w s) = inl z

Calls-Stable :
    (start : RingAllocationLogic) (envs : List Environment) (a : RingAllocationLogic)
    → start.migration_candidate ≡ 0
    → Calls start envs a
    → Stable envs a
Calls-Stable start _ _ z no_call = inl z
Calls-Stable start _ _ z (call env envs a h) =
    Outcome-Stable env envs a (should_migrate_ring env a)
      (call-Outcome env envs a (Calls-Stable start envs a z h))

-- The key of the thread was the same for at least 20 calls before this one, and it is not the key of
-- the ring in use.
pub record Steady (env : Environment) (envs : List Environment) (a : RingAllocationLogic)
    : Type 0 where
  pub calls : 20 ≤ length envs
  pub stays : All (λ e. calc_res_key_by_logic e a ≡ calc_res_key_by_logic env a) (take 20 envs)
  pub new : (calc_res_key_by_logic env a == a.res_key.user_id_key) ≡ false

Outcome-Steady :
    (env : Environment) (envs : List Environment) (a : RingAllocationLogic)
    (r : Bool × RingAllocationLogic)
    → Outcome env envs a r
    → r.0 ≡ true
    → Steady env envs a
Outcome-Steady env envs a r (idle e z) t = absurd cc
Outcome-Steady env envs a r (waits n e w) t = absurd cc
Outcome-Steady env envs a r (moves z w s) t = record {
  calls = w.calls;
  stays = subst (λ c. All (λ e. calc_res_key_by_logic e a ≡ c) (take 20 envs)) (sym s) w.stays;
  new = subst (λ c. (c == a.res_key.user_id_key) ≡ false) (sym s) w.new;
}

-- In every sequence of calls from a start without a candidate, a call recommends another ring only if
-- the thread's key has been the same in the 20 calls before it too, and is not the key of the ring in
-- use.
pub should_migrate_ring-Steady :
    (start : RingAllocationLogic) (env : Environment) (envs : List Environment)
    (a : RingAllocationLogic)
    → start.migration_candidate ≡ 0
    → Calls start envs a
    → (should_migrate_ring env a).0 ≡ true
    → Steady env envs a
should_migrate_ring-Steady start env envs a z h t =
    Outcome-Steady env envs a (should_migrate_ring env a)
      (call-Outcome env envs a (Calls-Stable start envs a z h)) t
