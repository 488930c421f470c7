-- ===== src/RingAllocation/Balance.antt =====
-- The core that `reserve_cpu_for_thread` (src/vma/dev/ring_allocation_logic.cpp) chooses.
use native.Mathlib.Decide.{ℕ_discrete}
use libvma.Prelude.{
  ℕ, zero, suc, ◌+◌, ◌≤◌, ◌<◌, ◌≡◌, refl, ap, subst, ◌∙◌, ◌⊎◌, inl, inr, Bool, true, false, ◌&&◌,
  not, some, arith, ltb, ◌==◌, if◌then◌else◌, if_cases, Bool-cases, below_suc,
}
use libvma.Prelude.Store.{update}
use libvma.Prelude.Int.{ℤ, pos, negsuc, ltb_ℤ, ◌+ℤ◌}
use libvma.RingAllocation.Migration.{pos-suc}
use libvma.RingAllocation.Cpu.{
  no_cpu, cpu_count, is_less_loaded, choose_cpu, is_set, suggested_or, take_cpu, Reserved,
  reserve_cpu_for_thread,
}

≤-or-lt : (i k : ℕ) → (i ≤ k) ⊎ (k < i)
≤-or-lt i k = omega arith

none_left : (j w avail : ℕ) → j + w ≡ avail → ltb j avail ≡ false → w ≡ 0
none_left j w avail a l = ground arith

module _ (cpu_set : ℕ → Bool) (count : ℕ → ℕ) where
  -- A cpu of the set with the fewest threads among the first `n`.
  pub record IsLeast (n c : ℕ) : Type 0 where
    pub inside : c < n
    pub allowed : cpu_set c ≡ true
    pub least : (k : ℕ) → k < n → cpu_set k ≡ true → count c ≤ count k

  -- The choice so far.
  data Chosen (n : ℕ) : (cpu min_cpu_count : ℤ) → Type 0 where
    nothing : ((k : ℕ) → k < n → cpu_set k ≡ false) → Chosen n no_cpu (negsuc 0)
    least_one : (c : ℕ) → IsLeast n c → Chosen n (pos c) (pos (count c))

  no_cpu_left :
      (left i : ℕ)
      → cpu_count left i cpu_set ≡ 0
      → (k : ℕ) → i ≤ k
      → k < left + i
      → cpu_set k ≡ false
  unfolding cpu_count
  no_cpu_left zero i e k l m = absurd (omega arith)
  no_cpu_left (suc left) i e k l m =
      let f : cpu_set i ≡ false = ground arith in
      let g : cpu_count left (suc i) cpu_set ≡ 0 = rw f at e in
      elim (ℕ_discrete k i) [
        | yes p ↦ ap cpu_set p ∙ f
        | no p ↦ no_cpu_left left (suc i) g k (omega arith) (omega arith)
      ]

  abbrev better : ℕ → ℤ → Bool
  better n m = cpu_set n && is_less_loaded m (count n)

  Chosen-better :
      (n : ℕ) (cpu m : ℤ)
      → better n m ≡ true
      → Chosen n cpu m
      → Chosen (suc n) (pos n) (pos (count n))
  Chosen-better n _ _ b (nothing h) = least_one n (record {
    inside = omega arith;
    allowed = ground arith;
    least =
        below_suc (λ k. cpu_set k ≡ true → count n ≤ count k) n
          (λ k l a. let f = h k l in absurd cc) (λ a. omega arith);
  })
  Chosen-better n _ _ b (least_one c h) =
      let less : count n < count c = ground arith in
      least_one n (record {
        inside = omega arith;
        allowed = ground arith;
        least =
            below_suc (λ k. cpu_set k ≡ true → count n ≤ count k) n
              (λ k l a. let f = h.least k l a in omega arith) (λ a. omega arith);
      })

  Chosen-same : (n : ℕ) (cpu m : ℤ) → better n m ≡ false → Chosen n cpu m → Chosen (suc n) cpu m
  Chosen-same n _ _ b (nothing h) = nothing (below_suc (λ k. cpu_set k ≡ false) n h (ground arith))
  Chosen-same n _ _ b (least_one c h) = least_one c (record {
    inside = omega (arith, h.inside);
    allowed = h.allowed;
    least = below_suc (λ k. cpu_set k ≡ true → count c ≤ count k) n h.least (λ a. ground arith);
  })

  Chosen-next :
      (n : ℕ) (cpu m : ℤ)
      → Chosen n cpu m
      → Chosen (suc n) (if better n m then pos n else cpu) (if better n m then pos (count n) else m)
  Chosen-next n cpu m h = elim (Bool-cases (better n m)) [
    | inl b ↦ rw b (Chosen-better n cpu m b h)
    | inr b ↦ rw b (Chosen-same n cpu m b h)
  ]

  Chosen-rest :
      (i n : ℕ) (cpu m : ℤ)
      → i ≤ n
      → ((k : ℕ) → i ≤ k → k < n → cpu_set k ≡ false)
      → Chosen i cpu m
      → Chosen n cpu m
  Chosen-rest i n _ _ l f (nothing h) =
      nothing (λ k a. elim (≤-or-lt i k) [ inl b ↦ f k b a | inr b ↦ h k b ])
  Chosen-rest i n _ _ l f (least_one c h) = least_one c (record {
    inside = omega (arith, h.inside);
    allowed = h.allowed;
    least = λ k a t. elim (≤-or-lt i k) [
      | inl b ↦ let g = f k b a in absurd cc
      | inr b ↦ h.least k b t
    ];
  })

  choose_cpu-Chosen :
      (avail left i j n : ℕ) (cpu m : ℤ)
      → n ≡ left + i
      → j + cpu_count left i cpu_set ≡ avail
      → Chosen i cpu m
      → let r = choose_cpu cpu_set count avail left i j cpu m in Chosen n r.0 r.1
  unfolding choose_cpu cpu_count
  choose_cpu-Chosen avail zero i j n cpu m e a h =
      let p : i ≡ n = omega (arith, e) in subst (λ k. Chosen k cpu m) p h
  choose_cpu-Chosen avail (suc left) i j n cpu m e a h =
      let P : ℤ × ℤ → Type 0 = λ r. Chosen n r.0 r.1 in
      let rest = cpu_count left (suc i) cpu_set in
      if_cases P (ltb j avail) _ _
        (λ l.
          choose_cpu-Chosen avail left (suc i) (if cpu_set i then suc j else j) n
            (if better i m then pos i else cpu) (if better i m then pos (count i) else m)
            (omega (arith, e)) (ground arith) (Chosen-next i cpu m h))
        (λ l.
          Chosen-rest i n cpu m (omega (arith, e))
            (λ k x y.
              no_cpu_left (suc left) i
                (none_left j (if cpu_set i then suc rest else rest) avail a l) k x
                (omega (arith, e)))
            h)

  cpu_count-none :
      (left i : ℕ) → ((k : ℕ) → k < left + i → cpu_set k ≡ false) → cpu_count left i cpu_set ≡ 0
  unfolding cpu_count
  cpu_count-none zero i h = refl
  cpu_count-none (suc left) i h =
      rw (h i (omega arith)) (cpu_count-none left (suc i) (λ k l. h k (omega arith)))

  -- A cpu that the thread may run on, with at most one thread more than any other such cpu.
  pub record NearLeast (n c : ℕ) : Type 0 where
    pub inside : c < n
    pub allowed : cpu_set c ≡ true
    pub near : (k : ℕ) → k < n → cpu_set k ≡ true → count c ≤ suc (count k)

  module _ (max_cpu : ℕ) where
    -- The cpu that is taken, and nothing else changes.
    abbrev pub Taken : Reserved → Type 0
    Taken r =
        (c : ℕ) × NearLeast max_cpu c
        × (r.ret ≡ pos c)
        × (r.thread_cpu_core ≡ pos c)
        × (r.cpu_thread_count ≡ update count c (suc (count c)))

    take_cpu-Taken : (c : ℕ) → NearLeast max_cpu c → Taken (take_cpu max_cpu (pos c) count)
    take_cpu-Taken c h =
        let l : ltb c max_cpu ≡ true = ground (arith, h.inside) in (c, h, refl, refl, rw l refl)

    suggested_or-Taken :
        (suggested cpu m : ℤ)
        → 0 < cpu_count max_cpu 0 cpu_set
        → Chosen max_cpu cpu m
        → Taken (take_cpu max_cpu (suggested_or max_cpu suggested cpu_set count (cpu, m)) count)
    suggested_or-Taken suggested _ _ a (nothing h) =
        let e = cpu_count-none max_cpu 0 (λ k l. h k (omega arith)) in absurd (omega (arith, e))
    suggested_or-Taken (negsuc n) _ _ a (least_one c h) = take_cpu-Taken c (record {
      inside = h.inside;
      allowed = h.allowed;
      near = λ k l t. let g = h.least k l t in omega arith;
    })
    suggested_or-Taken (pos s) _ _ a (least_one c h) =
        let P : ℤ → Type 0 = λ x. Taken (take_cpu max_cpu x count) in
        if_cases P
          (is_set max_cpu cpu_set s && not (ltb_ℤ (pos (count c) +ℤ pos 1) (pos (count s)))) _ _
          (λ e. take_cpu-Taken s (record {
            inside = ground arith;
            allowed = ground arith;
            near = λ k l t.
                let g = h.least k l t in
                let b : ltb_ℤ (pos (count c) +ℤ pos 1) (pos (count s)) ≡ false = ground arith in
                let d : ltb_ℤ (pos (suc (count c))) (pos (count s)) ≡ false =
                  subst (λ z. ltb_ℤ z (pos (count s)) ≡ false) (pos-suc (count c)) b in
                ground arith;
          }))
          (λ e. take_cpu-Taken c (record {
            inside = h.inside;
            allowed = h.allowed;
            near = λ k l t. let g = h.least k l t in omega arith;
          }))

    -- A thread without a core that may run on several is attached to one of them which has at most one
    -- thread more than any other of them, and is counted there; a core that is suggested does not change that. Conditions: the thread's affinity is read and set without an error.
    pub reserve_cpu_for_thread-Taken :
        (suggested_cpu : ℤ)
        → 2 ≤ cpu_count max_cpu 0 cpu_set
        → Taken (reserve_cpu_for_thread max_cpu suggested_cpu (some cpu_set) true no_cpu count)
    unfolding reserve_cpu_for_thread
    reserve_cpu_for_thread-Taken suggested_cpu a =
        let avail = cpu_count max_cpu 0 cpu_set in
        let z : (avail == 0) ≡ false = ground (arith, a) in
        let o : (avail == 1) ≡ false = ground (arith, a) in
        let chosen = choose_cpu cpu_set count avail max_cpu 0 0 no_cpu (negsuc 0) in
        let h =
          choose_cpu-Chosen avail max_cpu 0 0 max_cpu no_cpu (negsuc 0) (omega arith) (omega arith)
            (nothing (λ k l. absurd (omega arith))) in
        rw (z, o) (suggested_or-Taken suggested_cpu chosen.0 chosen.1 (omega (arith, a)) h)
