-- ===== src/Route/Update.antt =====
-- What `rt_mgr_update_source_ip` (src/vma/proto/route_table_mgr.cpp) leaves of each route.
use native.Mathlib.Decide.{ℕ_discrete}
use libvma.Prelude.{
  ℕ, zero, suc, ◌+◌, ◌≤◌, ◌<◌, ◌≡◌, refl, sym, ap, subst, ◌∙◌, ◌⊎◌, inl, inr, Option, none, some,
  List, arith, ◌==◌, Bool-cases,
}
use libvma.Prelude.Store.{update, update_self, update_ne}
use libvma.Route.Val.{RouteVal, Table}
use libvma.Route.Source.{
  NetDevice, set_src_from, each, each_entry, direct_source, last_source, last_sources,
  rt_mgr_update_source_ip,
}
use libvma.Route.Settled.{waiting-le, resolve_loop-Settled}
use libvma.Route.Sources.{Kept, Kept-trans, last_source-Kept, direct_source-Kept, resolve_loop-Kept}

each-before :
    (f : RouteVal → RouteVal) (left k : ℕ) (value : ℕ → RouteVal) (j : ℕ)
    → j < k
    → each f left k value j ≡ value j
unfolding each
each-before f zero k value j l = refl
each-before f (suc left) k value j l =
    each-before f left (suc k) (update value k (f (value k))) j (omega arith)
    ∙ update_ne value k (f (value k)) j (ground arith)

each_lem :
    (f : RouteVal → RouteVal) (left k : ℕ) (value : ℕ → RouteVal) (j : ℕ)
    → k ≤ j
    → j < left + k
    → each f left k value j ≡ f (value j)
unfolding each
each_lem f zero k value j l m = absurd (omega arith)
each_lem f (suc left) k value j l m = elim (ℕ_discrete j k) [
  | yes e ↦
      let p = each-before f left (suc k) (update value k (f (value k))) k (omega arith) in
      subst (λ i. each f left (suc k) (update value k (f (value k))) i ≡ f (value i)) (sym e)
        (p ∙ update_self value k (f (value k)))
  | no e ↦
      each_lem f left (suc k) (update value k (f (value k))) j (omega arith) (omega arith)
      ∙ ap f (update_ne value k (f (value k)) j (ground arith))
]

-- A route after the function: what it keeps, and that it has a source unless the ioctl gives none.
pub record Sourced (ioctl : List ℕ → Option ℕ) (v w : RouteVal) : Type 0 where
  pub kept : Kept v w
  pub missing : w.src_addr ≡ 0 → (ioctl v.if_name ≡ none) ⊎ (ioctl v.if_name ≡ some 0)

set_src_from-missing :
    (o : Option ℕ) (v : RouteVal) → (set_src_from o v).src_addr ≡ 0 → (o ≡ none) ⊎ (o ≡ some 0)
set_src_from-missing none v e = inl refl
set_src_from-missing (some src) v e = inr (ap some e)

module _ (ioctl : List ℕ → Option ℕ) where
  last_source-missing :
      (v : RouteVal)
      → (last_source ioctl v).src_addr ≡ 0
      → (ioctl v.if_name ≡ none) ⊎ (ioctl v.if_name ≡ some 0)
  unfolding last_source
  last_source-missing v e = elim (Bool-cases (v.src_addr == 0)) [
    | inl z ↦ set_src_from-missing (ioctl v.if_name) v (rw z at e)
    | inr z ↦ absurd (let f : v.src_addr ≡ 0 = rw z at e in ground arith)
  ]

  last_source-Sourced : (u v : RouteVal) → Kept u v → Sourced ioctl u (last_source ioctl v)
  last_source-Sourced u v k = record {
    kept = Kept-trans u v (last_source ioctl v) k (last_source-Kept ioctl v);
    missing = λ e.
        subst (λ x. (ioctl x ≡ none) ⊎ (ioctl x ≡ some 0)) (ap (λ x. x.if_name) k.same)
          (last_source-missing v e);
  }

  abbrev pub AllSourced : Table RouteVal → Table RouteVal → Type 0
  AllSourced tab out = (j : ℕ) → j < tab.entries_num → Sourced ioctl (tab.value j) (out.value j)

module _ (net_devices : ℕ → Option (List NetDevice)) (ioctl : List ℕ → Option ℕ) where
  -- With fuel for one round more than there are routes, `rt_mgr_update_source_ip` ends. Each route
  -- keeps all but its source and its gateway, and these too if it had a source; the gateway is as
  -- before or none; and a route is left without a source only if the ioctl gives none for its
  -- interface.
  pub rt_mgr_update_source_ip_lem :
      (tab : Table RouteVal)
      → (out : Table RouteVal) × (rt_mgr_update_source_ip net_devices ioctl
            (suc tab.entries_num)
            tab
          ≡ some out)
        × (out.entries_num ≡ tab.entries_num)
        × AllSourced ioctl tab out
  unfolding rt_mgr_update_source_ip
  rt_mgr_update_source_ip_lem tab =
      let n = tab.entries_num in
      let first = each_entry (direct_source net_devices ioctl) tab in
      let r =
        resolve_loop-Settled net_devices (suc n) n first (waiting-le n 0 first.value)
          (omega arith) in
      let mid = r.0 in
      (
        each_entry (last_source ioctl) mid,
        ap (last_sources ioctl) r.1,
        r.2,
        λ j l.
            let a =
              each_lem (direct_source net_devices ioctl) n 0 tab.value j (omega arith)
                (omega arith) in
            let b =
              each_lem (last_source ioctl) mid.entries_num 0 mid.value j (omega arith)
                (omega (arith, r.2)) in
            let k =
              Kept-trans (tab.value j) (first.value j) (mid.value j)
                (subst (Kept (tab.value j)) (sym a)
                  (direct_source-Kept net_devices ioctl (tab.value j)))
                (resolve_loop-Kept net_devices (suc n) n first mid r.1 j) in
            subst (Sourced ioctl (tab.value j)) (sym b)
              (last_source-Sourced ioctl (tab.value j) (mid.value j) k),
      )
