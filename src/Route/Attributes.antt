-- ===== src/Route/Attributes.antt =====
-- What an attribute of a netlink message tells of a route (src/vma/proto/route_table_mgr.cpp).
use libvma.Prelude.{
  ℕ, ◌≤◌, ◌≡◌, refl, sym, subst, ◌∙◌, ◌⊎◌, inl, inr, Bool, true, false, ◌||◌, List, [], ◌∷◌, arith,
  ltb, All, Bool-cases,
}
use libvma.Route.Val.{RouteVal, set_mtu}
use libvma.Route.Parse.{
  Metric, rtax_mtu, rtax_other, Attribute, rta_dst, rta_gateway, rta_oif, rta_src, rta_prefsrc,
  rta_table, rta_metrics, rta_other, parse_metrics,
}

-- Which attributes set which fields.
abbrev pub sets_dst : Attribute → Bool
sets_dst (rta_dst addr) = true
sets_dst a = false

abbrev pub sets_gw : Attribute → Bool
sets_gw (rta_gateway addr) = true
sets_gw a = false

abbrev pub sets_if : Attribute → Bool
sets_if (rta_oif index) = true
sets_if a = false

abbrev pub sets_src : Attribute → Bool
sets_src (rta_src addr) = true
sets_src (rta_prefsrc addr) = true
sets_src a = false

abbrev pub sets_table : Attribute → Bool
sets_table (rta_table table_id) = true
sets_table a = false

abbrev pub has_mtu : List Metric → Bool
has_mtu [] = false
has_mtu (rtax_mtu mtu ∷ metrics) = true
has_mtu (rtax_other kind ∷ metrics) = has_mtu metrics

abbrev pub sets_mtu : Attribute → Bool
sets_mtu (rta_metrics metrics) = has_mtu metrics
sets_mtu a = false

abbrev pub any : (Attribute → Bool) → List Attribute → Bool
any p [] = false
any p (a ∷ attributes) = p a || any p attributes

module _ (v : RouteVal) where
  abbrev pub TellsMetric : Metric → Type 0
  TellsMetric (rtax_mtu mtu) = mtu ≡ v.mtu
  TellsMetric (rtax_other kind) = Unit

  -- The attribute is true of the route.
  abbrev pub Tells : Attribute → Type 0
  Tells (rta_dst addr) = addr ≡ v.dst_addr
  Tells (rta_gateway addr) = addr ≡ v.gw
  Tells (rta_oif index) = index ≡ v.if_index
  Tells (rta_src addr) = addr ≡ v.src_addr
  Tells (rta_prefsrc addr) = addr ≡ v.src_addr
  Tells (rta_table table_id) = table_id ≡ v.table_id
  Tells (rta_metrics metrics) = All TellsMetric metrics
  Tells (rta_other kind) = Unit

set_mtu-cases :
    (max_mtu mtu : ℕ) (w : RouteVal)
    → (set_mtu max_mtu mtu w ≡ w) ⊎ (set_mtu max_mtu mtu w ≡ record w { mtu = mtu })
set_mtu-cases max_mtu mtu w = elim (Bool-cases (ltb max_mtu mtu)) [
  | inl e ↦ inl (rw e refl)
  | inr e ↦ inr (rw e refl)
]

pub metrics-only :
    (max_mtu : ℕ) (metrics : List Metric) (w : RouteVal)
    → parse_metrics max_mtu metrics w ≡ record w { mtu = (parse_metrics max_mtu metrics w).mtu }
unfolding parse_metrics
metrics-only max_mtu [] w = refl
metrics-only max_mtu (rtax_mtu mtu ∷ metrics) w =
    let goal : RouteVal → Type 0 = λ x.
      parse_metrics max_mtu metrics x ≡ record w { mtu = (parse_metrics max_mtu metrics x).mtu } in
    elim (set_mtu-cases max_mtu mtu w) [
      | inl e ↦ subst goal (sym e) (metrics-only max_mtu metrics w)
      | inr e ↦ subst goal (sym e) (metrics-only max_mtu metrics (record w { mtu = mtu }))
    ]
metrics-only max_mtu (rtax_other kind ∷ metrics) w = metrics-only max_mtu metrics w

pub metrics-mtu :
    (max_mtu : ℕ) (v : RouteVal) (metrics : List Metric) (w : RouteVal)
    → v.mtu ≤ max_mtu
    → All (TellsMetric v) metrics
    → ((parse_metrics max_mtu metrics w).mtu ≡ v.mtu)
      ⊎ ((has_mtu metrics ≡ false) × ((parse_metrics max_mtu metrics w).mtu ≡ w.mtu))
unfolding parse_metrics
metrics-mtu max_mtu v [] w l h = inr (refl, refl)
metrics-mtu max_mtu v (rtax_mtu mtu ∷ metrics) w l h =
    let e : ltb max_mtu mtu ≡ false = ground (arith, h.0) in
    let q : set_mtu max_mtu mtu w ≡ record w { mtu = mtu } = rw e refl in
    subst
      (λ x.
        ((parse_metrics max_mtu metrics x).mtu ≡ v.mtu)
        ⊎ ((true ≡ false) × ((parse_metrics max_mtu metrics x).mtu ≡ w.mtu)))
      (sym q)
      (elim (metrics-mtu max_mtu v metrics (record w { mtu = mtu }) l h.1) [
        | inl p ↦ inl p
        | inr p ↦ inl (p.1 ∙ h.0)
      ])
metrics-mtu max_mtu v (rtax_other kind ∷ metrics) w l h = metrics-mtu max_mtu v metrics w l h.1
