-- ===== src/Route/Visits.antt =====
-- What one visit of the do-while loop of `rt_mgr_update_source_ip` (src/vma/proto/route_table_mgr.cpp)
-- does to a route without a source.
use libvma.Prelude.{
  ℕ, ◌≡◌, ◌≢◌, refl, sym, ap, subst, ◌∙◌, inl, inr, Bool, true, false, Option, none, some, List,
  arith, ◌==◌, Bool-cases,
}
use libvma.Prelude.Store.{update, update_self, update_ne, update_same}
use libvma.Route.Val.{RouteVal}
use libvma.Route.Rules.{unsigned_char}
use libvma.Route.Lookup.{find_route_val}
use libvma.Route.Source.{
  NetDevice, Visit, waits, is_local, own_gateway, drop_gw, set_src, through_gateway, visit,
}

drop_gw-src : (v : RouteVal) → (drop_gw v).src_addr ≡ v.src_addr
drop_gw-src v = ground arith

-- A route that has its source does not wait, nor does one that lost its gateway.
drop_gw-sourced : (v : RouteVal) → (v.src_addr == 0) ≡ false → waits (drop_gw v) ≡ false
drop_gw-sourced v e = ground (arith, drop_gw-src v)

drop_gw-waiting : (v : RouteVal) → waits v ≡ true → drop_gw v ≡ v
drop_gw-waiting v w = let p : (v.src_addr == v.gw) ≡ false = ground arith in rw p refl

module _ (net_devices : ℕ → Option (List NetDevice)) where
  -- What a visit to the entry `i` can do: nothing, to a route that does not wait for a source; nothing
  -- but to count it; or to give it its source.
  pub data Visited (value : ℕ → RouteVal) (i : ℕ) (v : Visit) : Type 0 where
    passed :
        waits (value i) ≡ false
        → v ≡ record { value = value; unresolved = false }
        → Visited value i v
    left_over :
        waits (value i) ≡ true → v ≡ record { value = value; unresolved = true } → Visited value i v
    resolved :
        waits (value i) ≡ true
        → v.unresolved ≡ false
        → waits (v.value i) ≡ false
        → ((j : ℕ) → j ≢ i → v.value j ≡ value j)
        → Visited value i v

  given-Visited :
      (value : ℕ → RouteVal) (i : ℕ) (v : RouteVal) (b : Bool)
      → waits (value i) ≡ true
      → b ≡ false
      → (v.src_addr == 0) ≡ false
      → Visited value i (record { value = update value i (drop_gw v); unresolved = b })
  given-Visited value i v b w e d =
      resolved w e
        (subst (λ x. waits x ≡ false) (sym (update_self value i (drop_gw v))) (drop_gw-sourced v d))
        (λ j n. update_ne value i (drop_gw v) j (ground arith))

  left-Visited :
      (value : ℕ → RouteVal) (i : ℕ) (v : RouteVal) (b : Bool)
      → waits (value i) ≡ true
      → b ≡ true
      → v ≡ value i
      → Visited value i (record { value = update value i (drop_gw v); unresolved = b })
  left-Visited value i v b w e p = left_over w (
      let q : update value i (drop_gw v) ≡ value =
        ap (update value i) (ap drop_gw p ∙ drop_gw-waiting (value i) w) ∙ update_same value i in
      rw (e, q) refl)

  own_gateway-Visited :
      (value : ℕ → RouteVal) (i : ℕ) (b : Bool)
      → is_local (value i).gw (net_devices (value i).if_index) ≡ b
      → waits (value i) ≡ true
      → let w = own_gateway net_devices (value i) in
        Visited value i
          (record { value = update value i (drop_gw w); unresolved = w.src_addr == 0 })
  own_gateway-Visited value i true e w =
      let v = value i in
      let p : own_gateway net_devices v ≡ record v { src_addr = v.gw; gw = 0 } = rw e refl in
      let q : ((own_gateway net_devices v).src_addr == 0) ≡ false =
        ap (λ x. x.src_addr == 0) p ∙ ground arith in
      given-Visited value i (own_gateway net_devices v) ((own_gateway net_devices v).src_addr == 0)
        w q q
  own_gateway-Visited value i false e w =
      let v = value i in
      let p : own_gateway net_devices v ≡ v = rw e refl in
      let q : ((own_gateway net_devices v).src_addr == 0) ≡ true =
        ap (λ x. x.src_addr == 0) p ∙ ground arith in
      left-Visited value i (own_gateway net_devices v) ((own_gateway net_devices v).src_addr == 0) w
        q p

  through_gateway-Visited :
      (value : ℕ → RouteVal) (i : ℕ) (o : Option ℕ)
      → waits (value i) ≡ true
      → Visited value i (through_gateway net_devices value i o)
  through_gateway-Visited value i none w = left_over w refl
  through_gateway-Visited value i (some j) w = elim (Bool-cases ((value j).src_addr == 0)) [
    | inl z ↦ rw z (elim (Bool-cases (i == j)) [
      | inl e ↦ rw e (
          own_gateway-Visited value i (is_local (value i).gw (net_devices (value i).if_index)) refl
            w)
      | inr e ↦ rw e (left-Visited value i (value i) true w refl refl)
    ])
    | inr z ↦ rw z (given-Visited value i (set_src (value j).src_addr (value i)) false w refl z)
  ]

  pub visit-Visited :
      (value : ℕ → RouteVal) (n i : ℕ) → Visited value i (visit net_devices value n i)
  unfolding visit
  visit-Visited value n i = elim (Bool-cases (waits (value i))) [
    | inl w ↦ rw w (
        through_gateway-Visited value i
          (find_route_val (value i).gw (unsigned_char (value i).table_id)
            (record { value = value; entries_num = n }))
          w)
    | inr w ↦ rw w (passed w refl)
  ]
