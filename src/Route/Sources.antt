-- ===== src/Route/Sources.antt =====
-- What the loops of `rt_mgr_update_source_ip` (src/vma/proto/route_table_mgr.cpp) keep of a route.
use native.Mathlib.Decide.{ℕ_discrete}
use libvma.Prelude.{
  ℕ, zero, suc, ◌≡◌, refl, sym, ap, subst, ◌∙◌, ◌⊎◌, inl, inr, Bool, true, false, not, ◌&&◌, Option,
  none, some, List, arith, ltb, ◌==◌, if◌then◌else◌, Bool-cases,
}
use libvma.Prelude.Store.{update, update_self, update_ne}
use libvma.Route.Val.{RouteVal, Table}
use libvma.Route.Rules.{unsigned_char}
use libvma.Route.Lookup.{find_route_val}
use libvma.Route.Source.{
  NetDevice, waits, is_local, own_gateway, drop_gw, set_src, set_src_from, device_source,
  through_gateway, visit, resolve_pass, resolve_loop, direct_source, last_source,
}

-- From `v` to `w`: only the source and the gateway can change, the gateway only to none, and neither
-- if there was a source.
pub record Kept (v w : RouteVal) : Type 0 where
  pub had_source : (v.src_addr == 0) ≡ false → w ≡ v
  pub same : w ≡ record v { src_addr = w.src_addr; gw = w.gw }
  pub gateway : (w.gw ≡ v.gw) ⊎ (w.gw ≡ 0)

pub Kept-refl : (v : RouteVal) → Kept v v
Kept-refl v = record { had_source = λ e. refl; same = refl; gateway = inl refl }

gateway_trans : (u v w : ℕ) → (v ≡ u) ⊎ (v ≡ 0) → (w ≡ v) ⊎ (w ≡ 0) → (w ≡ u) ⊎ (w ≡ 0)
gateway_trans u v w a b = ground arith

abbrev with_both : ℕ → ℕ → RouteVal → RouteVal
with_both src g v = record v { src_addr = src; gw = g }

pub Kept-trans : (u v w : RouteVal) → Kept u v → Kept v w → Kept u w
Kept-trans u v w a b = record {
  had_source = λ e. let p = a.had_source e in b.had_source (ap (λ x. x.src_addr == 0) p ∙ e) ∙ p;
  same = b.same ∙ ap (with_both w.src_addr w.gw) a.same;
  gateway = gateway_trans u.gw v.gw w.gw a.gateway b.gateway;
}

set_src-Kept : (src : ℕ) (v : RouteVal) → (v.src_addr == 0) ≡ true → Kept v (set_src src v)
set_src-Kept src v e = record { had_source = λ f. absurd cc; same = refl; gateway = inl refl }

pub set_src_from-Kept :
    (o : Option ℕ) (v : RouteVal) → (v.src_addr == 0) ≡ true → Kept v (set_src_from o v)
set_src_from-Kept none v e = Kept-refl v
set_src_from-Kept (some src) v e = set_src-Kept src v e

pub last_source-Kept : (ioctl : List ℕ → Option ℕ) (v : RouteVal) → Kept v (last_source ioctl v)
unfolding last_source
last_source-Kept ioctl v = elim (Bool-cases (v.src_addr == 0)) [
  | inl e ↦ rw e (set_src_from-Kept (ioctl v.if_name) v e)
  | inr e ↦ rw e (Kept-refl v)
]

if-Kept : (b : Bool) (u v w : RouteVal) → Kept u v → Kept u w → Kept u (if b then v else w)
if-Kept true u v w x y = x
if-Kept false u v w x y = y

drop_gw-Kept : (u v : RouteVal) → (u.src_addr == 0) ≡ true → Kept u v → Kept u (drop_gw v)
drop_gw-Kept u v e k =
    let none_left : Kept u (record v { gw = 0 }) = record {
      had_source = λ f. absurd cc;
      same = ap (with_both v.src_addr 0) k.same;
      gateway = inr refl;
    } in
    if-Kept (v.src_addr == v.gw) u (record v { gw = 0 }) v none_left k

update-Kept :
    (value : ℕ → RouteVal) (i j : ℕ) (v : RouteVal)
    → Kept (value i) v
    → Kept (value j) (update value i v j)
update-Kept value i j v k = elim (ℕ_discrete j i) [
  | yes e ↦
      subst (λ x. Kept (value x) (update value i v x)) (sym e)
        (subst (Kept (value i)) (sym (update_self value i v)) k)
  | no e ↦ subst (Kept (value j)) (sym (update_ne value i v j (ground arith))) (Kept-refl (value j))
]

module _ (net_devices : ℕ → Option (List NetDevice)) (ioctl : List ℕ → Option ℕ) where
  pub direct_source-Kept : (v : RouteVal) → Kept v (direct_source net_devices ioctl v)
  unfolding direct_source
  direct_source-Kept v = elim (Bool-cases (v.src_addr == 0)) [
    | inl e ↦
        let src = device_source v.dst_addr (net_devices v.if_index) in
        rw e (
          if-Kept (not (v.gw == 0)) v v
            (if not (src == 0) then set_src src v else set_src_from (ioctl v.if_name) v)
            (Kept-refl v)
            (if-Kept (not (src == 0)) v (set_src src v) (set_src_from (ioctl v.if_name) v)
              (set_src-Kept src v e) (set_src_from-Kept (ioctl v.if_name) v e)))
    | inr e ↦ rw e (Kept-refl v)
  ]

module _ (net_devices : ℕ → Option (List NetDevice)) where
  own_gateway-Kept : (v : RouteVal) → (v.src_addr == 0) ≡ true → Kept v (own_gateway net_devices v)
  own_gateway-Kept v e =
      let own : RouteVal = record v { src_addr = v.gw; gw = 0 } in
      if-Kept (is_local v.gw (net_devices v.if_index)) v own v
        (record { had_source = λ f. absurd cc; same = refl; gateway = inr refl }) (Kept-refl v)

  through_gateway-Kept :
      (value : ℕ → RouteVal) (i j : ℕ) (o : Option ℕ)
      → waits (value i) ≡ true
      → Kept (value j) ((through_gateway net_devices value i o).value j)
  through_gateway-Kept value i j none w = Kept-refl (value j)
  through_gateway-Kept value i j (some k) w =
      let v = value i in
      let z : (v.src_addr == 0) ≡ true = ground arith in
      let drop : (x : RouteVal) → Kept v x → Kept (value j) (update value i (drop_gw x) j) =
        λ x h. update-Kept value i j (drop_gw x) (drop_gw-Kept v x z h) in
      elim (Bool-cases ((value k).src_addr == 0)) [
        | inl e ↦ rw e (elim (Bool-cases (i == k)) [
          | inl f ↦ rw f (drop (own_gateway net_devices v) (own_gateway-Kept v z))
          | inr f ↦ rw f (drop v (Kept-refl v))
        ])
        | inr e ↦ rw e (drop (set_src (value k).src_addr v) (set_src-Kept (value k).src_addr v z))
      ]

  visit-Kept :
      (value : ℕ → RouteVal) (n i j : ℕ) → Kept (value j) ((visit net_devices value n i).value j)
  unfolding visit
  visit-Kept value n i j =
      let v = value i in
      elim (Bool-cases (waits v)) [
        | inl w ↦ rw w (
            through_gateway-Kept value i j
              (find_route_val v.gw (unsigned_char v.table_id)
                (record { value = value; entries_num = n }))
              w)
        | inr w ↦ rw w (Kept-refl (value j))
      ]

  resolve_pass-Kept :
      (n left k c : ℕ) (value : ℕ → RouteVal) (j : ℕ)
      → Kept (value j) ((resolve_pass net_devices n left k c value).0 j)
  unfolding resolve_pass
  resolve_pass-Kept n zero k c value j = Kept-refl (value j)
  resolve_pass-Kept n (suc left) k c value j =
      let v = visit net_devices value n k in
      let c' = if v.unresolved then suc c else c in
      Kept-trans (value j) (v.value j) ((resolve_pass net_devices n left (suc k) c' v.value).0 j)
        (visit-Kept value n k j) (resolve_pass-Kept n left (suc k) c' v.value j)

  pub resolve_loop-Kept :
      (fuel num : ℕ) (tab out : Table RouteVal)
      → resolve_loop net_devices fuel num tab ≡ some out
      → (j : ℕ) → Kept (tab.value j) (out.value j)
  unfolding resolve_loop
  resolve_loop-Kept zero num tab out e j = absurd (ground arith)
  resolve_loop-Kept (suc fuel) num tab out e j =
      let p = resolve_pass net_devices tab.entries_num tab.entries_num 0 0 tab.value in
      let next : Table RouteVal = record tab { value = p.0 } in
      let k = resolve_pass-Kept tab.entries_num tab.entries_num 0 0 tab.value j in
      elim (Bool-cases (not (p.1 == 0) && ltb p.1 num)) [
        | inl t ↦
            let r = resolve_loop-Kept fuel p.1 next out (rw t at e) j in
            Kept-trans (tab.value j) (p.0 j) (out.value j) k r
        | inr t ↦
            let f : some next ≡ some out = rw t at e in
            let g : next ≡ out = cc in subst (λ x. Kept (tab.value j) (x.value j)) g k
      ]
