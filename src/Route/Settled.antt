-- ===== src/Route/Settled.antt =====
-- The do-while loop of `rt_mgr_update_source_ip` (src/vma/proto/route_table_mgr.cpp): it ends, and
-- not too early.
use native.Mathlib.Decide.{ℕ_discrete}
use libvma.Prelude.{
  ℕ, zero, suc, ◌+◌, ◌≤◌, ◌<◌, ◌≡◌, ◌≢◌, refl, sym, ap, subst, ◌∙◌, ◌⊎◌, inl, inr, Bool, false, not,
  ◌&&◌, Option, some, List, arith, ltb, ◌==◌, if◌then◌else◌, Bool-cases,
}
use libvma.Route.Val.{RouteVal, Table}
use libvma.Route.Source.{NetDevice, Visit, waits, visit, resolve_pass, resolve_loop}
use libvma.Route.Visits.{Visited, passed, left_over, resolved, visit-Visited}

-- How many of the entries from `k` on wait for a source.
unfoldable pub waiting : (left k : ℕ) → (ℕ → RouteVal) → ℕ
waiting zero k value = 0
waiting (suc left) k value =
    let rest = waiting left (suc k) value in if waits (value k) then suc rest else rest

waiting-same :
    (left k : ℕ) (f g : ℕ → RouteVal)
    → ((j : ℕ) → k ≤ j → f j ≡ g j)
    → waiting left k f ≡ waiting left k g
unfolding waiting
waiting-same zero k f g h = refl
waiting-same (suc left) k f g h =
    rw (h k (omega arith), waiting-same left (suc k) f g (λ j l. h j (omega arith))) refl

pub waiting-le : (left k : ℕ) (value : ℕ → RouteVal) → waiting left k value ≤ left
unfolding waiting
waiting-le zero k value = omega arith
waiting-le (suc left) k value = let h = waiting-le left (suc k) value in ground arith

-- The counter after a visit.
abbrev counted : Visit → ℕ → ℕ
counted v c = if v.unresolved then suc c else c

counted-waiting : (b : Bool) (c w : ℕ) → (if b then suc c else c) + w ≡ c + (if b then suc w else w)
counted-waiting b c w = ground arith

module _ (net_devices : ℕ → Option (List NetDevice)) where
  visit-keeps :
      (value : ℕ → RouteVal) (i : ℕ) (v : Visit)
      → Visited net_devices value i v
      → (j : ℕ) → j ≢ i
      → v.value j ≡ value j
  visit-keeps value i v (passed w e) j n = rw e refl
  visit-keeps value i v (left_over w e) j n = rw e refl
  visit-keeps value i v (resolved w u d k) j n = k j n

  visit-waits :
      (value : ℕ → RouteVal) (i : ℕ) (v : Visit)
      → Visited net_devices value i v
      → waits (v.value i) ≡ v.unresolved
  visit-waits value i v (passed w e) = rw e w
  visit-waits value i v (left_over w e) = rw e w
  visit-waits value i v (resolved w u d k) = d ∙ sym u

  visit-rest :
      (left k : ℕ) (value : ℕ → RouteVal) (v : Visit)
      → Visited net_devices value k v
      → waiting left (suc k) v.value ≡ waiting left (suc k) value
  visit-rest left k value v h =
      waiting-same left (suc k) v.value value
        (λ j l. visit-keeps value k v h j (λ e. absurd (omega (arith, e))))

  -- A visit takes a route off those that wait, or it changes nothing.
  visit-waiting :
      (left k c : ℕ) (value : ℕ → RouteVal) (v : Visit)
      → Visited net_devices value k v
      → (counted v c + waiting left (suc k) v.value < c + waiting (suc left) k value)
        ⊎ ((v.value ≡ value)
            × (counted v c + waiting left (suc k) v.value ≡ c + waiting (suc left) k value))
  unfolding waiting
  visit-waiting left k c value v (passed w e) = inr (rw (e, w) (refl, refl))
  visit-waiting left k c value v (left_over w e) = inr (rw (e, w) (refl, omega arith))
  visit-waiting left k c value v (resolved w u d m) =
      inl (rw (w, u, visit-rest left k value v (resolved w u d m)) (omega arith))

  module _ (n : ℕ) where
    pass-keeps :
        (left k c : ℕ) (value : ℕ → RouteVal) (j : ℕ)
        → j < k
        → (resolve_pass net_devices n left k c value).0 j ≡ value j
    unfolding resolve_pass
    pass-keeps zero k c value j l = refl
    pass-keeps (suc left) k c value j l =
        let v = visit net_devices value n k in
        pass-keeps left (suc k) (counted v c) v.value j (omega arith)
        ∙ visit-keeps value k v (visit-Visited net_devices value n k) j
            (λ e. absurd (omega (arith, e)))

    -- The counter of a round is the number of routes that still wait after it.
    pass-counts :
        (left k c : ℕ) (value : ℕ → RouteVal)
        → let p = resolve_pass net_devices n left k c value in p.1 ≡ c + waiting left k p.0
    unfolding resolve_pass waiting
    pass-counts zero k c value = omega arith
    pass-counts (suc left) k c value =
        let v = visit net_devices value n k in
        let a = pass-counts left (suc k) (counted v c) v.value in
        let b = pass-keeps left (suc k) (counted v c) v.value k (omega arith) in
        let w = visit-waits value k v (visit-Visited net_devices value n k) in
        let q : waits ((resolve_pass net_devices n left (suc k) (counted v c) v.value).0 k)
            ≡ v.unresolved =
          ap waits b ∙ w in
        rw q (
          a
          ∙ counted-waiting v.unresolved c (
              waiting left (suc k)
                (resolve_pass net_devices n left (suc k) (counted v c) v.value).0))

    pass-fewer :
        (left k c : ℕ) (value : ℕ → RouteVal)
        → (resolve_pass net_devices n left k c value).1 ≤ c + waiting left k value
    unfolding resolve_pass
    pass-fewer zero k c value = omega arith
    pass-fewer (suc left) k c value =
        let v = visit net_devices value n k in
        let h = pass-fewer left (suc k) (counted v c) v.value in
        elim (visit-waiting left k c value v (visit-Visited net_devices value n k)) [
          | inl l ↦ omega (arith, h, l)
          | inr e ↦ omega (arith, h, e.1)
        ]

    -- A round after which as many routes wait as before has changed nothing at any entry.
    pass-stuck :
        (left k c : ℕ) (value : ℕ → RouteVal)
        → c + waiting left k value ≤ (resolve_pass net_devices n left k c value).1
        → ((resolve_pass net_devices n left k c value).0 ≡ value)
          × ((i : ℕ) → k ≤ i → i < left + k → (visit net_devices value n i).value ≡ value)
    unfolding resolve_pass
    pass-stuck zero k c value l = (refl, λ i a b. absurd (omega arith))
    pass-stuck (suc left) k c value l =
        let v = visit net_devices value n k in
        let h = pass-fewer left (suc k) (counted v c) v.value in
        elim (visit-waiting left k c value v (visit-Visited net_devices value n k)) [
          | inl m ↦ absurd (omega (arith, h, l, m))
          | inr e ↦
              let q : counted v c + waiting left (suc k) v.value
                  ≤ (resolve_pass net_devices n left (suc k) (counted v c) v.value).1 =
                omega (arith, e.1, l) in
              let r = pass-stuck left (suc k) (counted v c) v.value q in
              (
                r.0 ∙ e.0,
                λ i a b. elim (ℕ_discrete i k) [
                  | yes p ↦ subst (λ j. (visit net_devices value n j).value ≡ value) (sym p) e.0
                  | no p ↦
                      subst (λ f. (visit net_devices f n i).value ≡ f) e.0
                        (r.1 i (omega arith) (omega arith))
                ],
              )
        ]

  -- Nothing that a further round does to a route.
  abbrev pub Settled : Table RouteVal → Type 0
  Settled tab =
      (i : ℕ)
      → i < tab.entries_num
      → (visit net_devices tab.value tab.entries_num i).value ≡ tab.value

  abbrev pass : Table RouteVal → (ℕ → RouteVal) × ℕ
  pass tab = resolve_pass net_devices tab.entries_num tab.entries_num 0 0 tab.value

  -- A round whose counter is 0 or as high as before leaves nothing to do.
  pass-Settled :
      (tab : Table RouteVal) (num : ℕ)
      → waiting tab.entries_num 0 tab.value ≤ num
      → (not ((pass tab).1 == 0) && ltb (pass tab).1 num) ≡ false
      → Settled (record tab { value = (pass tab).0 })
  pass-Settled tab num l e =
      let n = tab.entries_num in
      elim (ℕ_discrete (pass tab).1 0) [
        | yes z ↦
            let w : waiting n 0 (pass tab).0 ≡ 0 =
              omega (arith, z, pass-counts n n 0 0 tab.value) in
            let r = pass-stuck n n 0 0 (pass tab).0 (omega (arith, w)) in
            λ i b. r.1 i (omega arith) (omega arith)
        | no z ↦
            let m : num ≤ (pass tab).1 = ground arith in
            let r = pass-stuck n n 0 0 tab.value (omega (arith, l, m)) in
            λ i b.
              subst (λ f. (visit net_devices f n i).value ≡ f) (sym r.0)
                (r.1 i (omega arith) (omega arith))
      ]

  -- The do-while loop ends, with more fuel than there were unresolved routes after the round before,
  -- and when it does nothing is left to do.
  pub resolve_loop-Settled :
      (fuel num : ℕ) (tab : Table RouteVal)
      → waiting tab.entries_num 0 tab.value ≤ num
      → num < fuel
      → (out : Table RouteVal) × (resolve_loop net_devices fuel num tab ≡ some out)
        × (out.entries_num ≡ tab.entries_num)
        × Settled out
  unfolding resolve_loop
  resolve_loop-Settled zero num tab l f = absurd (omega arith)
  resolve_loop-Settled (suc fuel) num tab l f =
      let next : Table RouteVal = record tab { value = (pass tab).0 } in
      elim (Bool-cases (not ((pass tab).1 == 0) && ltb (pass tab).1 num)) [
        | inl e ↦
            let w = pass-counts tab.entries_num tab.entries_num 0 0 tab.value in
            let m : (pass tab).1 < num = ground arith in
            let r =
              resolve_loop-Settled fuel (pass tab).1 next (omega (arith, w)) (omega (arith, m)) in
            (r.0, rw e r.1, r.2, r.3)
        | inr e ↦ (next, rw e refl, refl, pass-Settled tab num l e)
      ]
