-- ===== src/Route/Roundtrip.antt =====
-- A route and the netlink messages that describe it (src/vma/proto/route_table_mgr.cpp).
use libvma.Prelude.{
  ℕ, zero, suc, ◌+◌, ◌-◌, ◌^◌, arith, ◌≤◌, ◌≡◌, refl, sym, ap, ◌∙◌, ◌⊎◌, inl, inr, Bool, true,
  false, some, List, [], ◌∷◌, ◌==◌, All,
}
use libvma.Match.Address.{af_inet}
use libvma.Route.Val.{RouteVal, route_val}
use libvma.Route.Parse.{
  Attribute, rta_dst, rta_gateway, rta_oif, rta_src, rta_prefsrc, rta_table, rta_metrics, Message,
  rt_table_local, netmask, parse_attr, parse_attributes, from_header, set_valid, parse_enrty,
}
use libvma.Route.Attributes.{
  sets_dst, sets_gw, sets_if, sets_src, sets_table, sets_mtu, any, Tells, metrics-only, metrics-mtu,
}

-- What of a route does not come from its attributes, as it is in the end.
abbrev fixed : RouteVal → RouteVal
fixed v = record v {
  dst_addr = 0;
  gw = 0;
  src_addr = 0;
  table_id = 0;
  if_index = 0;
  if_name = [];
  mtu = 0;
  is_valid = true;
}

route_by_fields :
    (x v : RouteVal)
    → fixed x ≡ fixed v
    → x.dst_addr ≡ v.dst_addr
    → x.gw ≡ v.gw
    → x.src_addr ≡ v.src_addr
    → x.table_id ≡ v.table_id
    → x.if_index ≡ v.if_index
    → x.if_name ≡ v.if_name
    → x.mtu ≡ v.mtu
    → v.is_valid ≡ true
    → set_valid x ≡ v
route_by_fields x v f d g s t i n m b = λ k. record (f k) {
  dst_addr = d k;
  gw = g k;
  src_addr = s k;
  table_id = t k;
  if_index = i k;
  if_name = n k;
  mtu = m k;
  is_valid = sym b k;
}

module _ (if_indextoname : ℕ → List ℕ) (max_mtu : ℕ) (v : RouteVal) where
  abbrev parse : Attribute → RouteVal → RouteVal
  parse = parse_attr if_indextoname max_mtu

  -- An attribute sets the field to what the route has there, or leaves it.
  abbrev Sets {ℓ} : {A : Type ℓ} → (Attribute → Bool) → (RouteVal → A) → Type ℓ
  Sets sets get =
      (a : Attribute) (w : RouteVal)
      → Tells v a
      → (get (parse a w) ≡ get v) ⊎ ((sets a ≡ false) × (get (parse a w) ≡ get w))

  dst-Sets : Sets sets_dst (λ x. x.dst_addr)
  unfolding parse_attr
  dst-Sets (rta_dst addr) w h = inl h
  dst-Sets (rta_metrics metrics) w h =
      inr (refl, ap (λ x. x.dst_addr) (metrics-only max_mtu metrics w))
  dst-Sets a w h = inr (refl, refl)

  gw-Sets : Sets sets_gw (λ x. x.gw)
  unfolding parse_attr
  gw-Sets (rta_gateway addr) w h = inl h
  gw-Sets (rta_metrics metrics) w h = inr (refl, ap (λ x. x.gw) (metrics-only max_mtu metrics w))
  gw-Sets a w h = inr (refl, refl)

  src-Sets : Sets sets_src (λ x. x.src_addr)
  unfolding parse_attr
  src-Sets (rta_src addr) w h = inl h
  src-Sets (rta_prefsrc addr) w h = inl h
  src-Sets (rta_metrics metrics) w h =
      inr (refl, ap (λ x. x.src_addr) (metrics-only max_mtu metrics w))
  src-Sets a w h = inr (refl, refl)

  table-Sets : Sets sets_table (λ x. x.table_id)
  unfolding parse_attr
  table-Sets (rta_table table_id) w h = inl h
  table-Sets (rta_metrics metrics) w h =
      inr (refl, ap (λ x. x.table_id) (metrics-only max_mtu metrics w))
  table-Sets a w h = inr (refl, refl)

  index-Sets : Sets sets_if (λ x. x.if_index)
  unfolding parse_attr
  index-Sets (rta_oif index) w h = inl h
  index-Sets (rta_metrics metrics) w h =
      inr (refl, ap (λ x. x.if_index) (metrics-only max_mtu metrics w))
  index-Sets a w h = inr (refl, refl)

  name-Sets : if_indextoname v.if_index ≡ v.if_name → Sets sets_if (λ x. x.if_name)
  unfolding parse_attr
  name-Sets e (rta_oif index) w h = inl (ap if_indextoname h ∙ e)
  name-Sets e (rta_metrics metrics) w h =
      inr (refl, ap (λ x. x.if_name) (metrics-only max_mtu metrics w))
  name-Sets e a w h = inr (refl, refl)

  mtu-Sets : v.mtu ≤ max_mtu → Sets sets_mtu (λ x. x.mtu)
  unfolding parse_attr
  mtu-Sets l (rta_metrics metrics) w h = metrics-mtu max_mtu v metrics w l h
  mtu-Sets l a w h = inr (refl, refl)

  fixed-Sets : Sets (λ a. false) fixed
  unfolding parse_attr
  fixed-Sets (rta_metrics metrics) w h = inr (refl, ap fixed (metrics-only max_mtu metrics w))
  fixed-Sets a w h = inr (refl, refl)

  keeps {ℓ} :
      {A : Type ℓ} {sets : Attribute → Bool} (get : RouteVal → A) (attributes : List Attribute)
      → Sets sets get
      → (w : RouteVal) → All (Tells v) attributes
      → (any sets attributes ≡ true) ⊎ (get w ≡ get v)
      → get (parse_attributes if_indextoname max_mtu attributes w) ≡ get v
  unfolding parse_attributes
  keeps get [] s w h (inl e) = absurd cc
  keeps get [] s w h (inr e) = e
  keeps {sets = sets} get (a ∷ attributes) s w h o =
      let later : (any sets attributes ≡ true) ⊎ (get (parse a w) ≡ get v) = elim (s a w h.0) [
        | inl p ↦ inr p
        | inr p ↦ elim o [ inl q ↦ inl (rw p.0 at q) | inr q ↦ inr (p.1 ∙ q) ]
      ] in
      keeps {sets = sets} get attributes s (parse a w) h.1 later

-- The mask of a prefix of that length: of all 2 ^ 32 addresses, those of one network are left out.
abbrev pub IsMask : (mask len : ℕ) → Type 0
IsMask mask len = (len ≤ 32) × (mask + 2 ^ (32 - len) ≡ 2 ^ 32)

netmask-IsMask : (mask len : ℕ) → IsMask mask len → netmask len ≡ mask
netmask-IsMask mask zero h = omega (arith, h.1)
netmask-IsMask mask (suc n) h =
    let z : (suc n == 0) ≡ false = ground arith in let e = h.1 in rw z (omega (arith, e))

-- The header of the message is that of the route, which is neither deleted nor down.
pub record DescribesHeader (m : Message) (v : RouteVal) : Type 0 where
  pub protocol : m.protocol ≡ v.protocol
  pub scope : m.scope ≡ v.scope
  pub kind : m.kind ≡ v.kind
  pub dst_pref_len : m.dst_len ≡ v.dst_pref_len
  pub dst_mask : IsMask v.dst_mask m.dst_len
  pub deleted : v.deleted ≡ false
  pub if_up : v.if_up ≡ true

from_header-fixed :
    (m : Message) (v : RouteVal) → DescribesHeader m v → fixed (from_header m route_val) ≡ fixed v
from_header-fixed m v h =
    let mask = netmask-IsMask v.dst_mask m.dst_len h.dst_mask in
    λ k. record (fixed v) {
      protocol = h.protocol k;
      scope = h.scope k;
      kind = h.kind k;
      dst_pref_len = h.dst_pref_len k;
      dst_mask = mask k;
      deleted = sym h.deleted k;
      if_up = sym h.if_up k;
    }

-- The message describes the route `v`: its header and its attributes, in whatever order, are those of
-- the route, and it leaves out an attribute only where the route has the default.
pub record Describes (m : Message) (v : RouteVal) : Type 0 where
  pub family : (m.family == af_inet) ≡ true
  pub table : (m.table == rt_table_local) ≡ false
  pub header : DescribesHeader m v
  pub is_valid : v.is_valid ≡ true
  pub true_of : All (Tells v) m.attributes
  pub dst_addr : (any sets_dst m.attributes ≡ true) ⊎ (0 ≡ v.dst_addr)
  pub gw : (any sets_gw m.attributes ≡ true) ⊎ (0 ≡ v.gw)
  pub src_addr : (any sets_src m.attributes ≡ true) ⊎ (0 ≡ v.src_addr)
  pub table_id : (any sets_table m.attributes ≡ true) ⊎ (m.table ≡ v.table_id)
  pub if_index : (any sets_if m.attributes ≡ true) ⊎ ((0 ≡ v.if_index) × ([] ≡ v.if_name))
  pub mtu : (any sets_mtu m.attributes ≡ true) ⊎ (0 ≡ v.mtu)

-- From any message that describes a route that is up, with its attributes in whatever order, `parse_enrty` gives
-- back that route. Conditions: the route's mtu is at most that of the devices, and its name is that
-- of its interface's index.
pub parse_enrty-Describes :
    (if_indextoname : ℕ → List ℕ) (max_mtu : ℕ) (m : Message) (v : RouteVal)
    → Describes m v
    → v.mtu ≤ max_mtu
    → if_indextoname v.if_index ≡ v.if_name
    → parse_enrty if_indextoname max_mtu m route_val ≡ some v
unfolding parse_enrty
parse_enrty-Describes if_indextoname max_mtu m v h l n =
    let start = from_header m route_val in
    let x = parse_attributes if_indextoname max_mtu m.attributes start in
    let of_default : ((any sets_if m.attributes ≡ true) ⊎ ([] ≡ v.if_name))
        × ((any sets_if m.attributes ≡ true) ⊎ (0 ≡ v.if_index)) =
      elim h.if_index [ inl p ↦ (inl p, inl p) | inr p ↦ (inr p.1, inr p.0) ] in
    rw (h.family, h.table)
      (ap some (
        route_by_fields x v
          (keeps if_indextoname max_mtu v fixed m.attributes (fixed-Sets if_indextoname max_mtu v)
            start h.true_of (inr (from_header-fixed m v h.header)))
          (keeps if_indextoname max_mtu v (λ y. y.dst_addr) m.attributes
            (dst-Sets if_indextoname max_mtu v) start h.true_of h.dst_addr)
          (keeps if_indextoname max_mtu v (λ y. y.gw) m.attributes
            (gw-Sets if_indextoname max_mtu v) start h.true_of h.gw)
          (keeps if_indextoname max_mtu v (λ y. y.src_addr) m.attributes
            (src-Sets if_indextoname max_mtu v) start h.true_of h.src_addr)
          (keeps if_indextoname max_mtu v (λ y. y.table_id) m.attributes
            (table-Sets if_indextoname max_mtu v) start h.true_of h.table_id)
          (keeps if_indextoname max_mtu v (λ y. y.if_index) m.attributes
            (index-Sets if_indextoname max_mtu v) start h.true_of of_default.1)
          (keeps if_indextoname max_mtu v (λ y. y.if_name) m.attributes
            (name-Sets if_indextoname max_mtu v n) start h.true_of of_default.0)
          (keeps if_indextoname max_mtu v (λ y. y.mtu) m.attributes
            (mtu-Sets if_indextoname max_mtu v l) start h.true_of h.mtu)
          h.is_valid))
