-- ===== src/Route/Answer.antt =====
-- Entries (src/vma/proto/route_entry.cpp, route_table_mgr.cpp) and `route_resolve` give the same route.
use libvma.Prelude.{
  ℕ, ◌≡◌, refl, ap, ◌∙◌, Bool, true, false, ◌&&◌, inl, inr, Option, none, some, List, [], ◌∷◌, map,
  if◌then◌else◌, Bool-cases, if_elim, arith,
}
use libvma.Route.Val.{RouteVal, RuleVal, RouteRuleTableKey, Table}
use libvma.Route.Rules.{unsigned_char, rule_resolve, update_rule_entry}
use libvma.Route.Lookup.{
  find_route_val, RouteResult, route_result, result_of, resolved_or, resolve_tables, route_resolve,
}
use libvma.Route.Entry.{
  RouteEntry, route_entry, entry_is_valid, is_broadcast, registered, register_to_net_device,
  with_route, with_route_or, update_by_rules, update_entry, create_new_entry,
}

abbrev val_answer : Table RouteVal → Option ℕ → RouteResult
val_answer tab none = route_result
val_answer tab (some i) = result_of (tab.value i)

-- Whether the entry has a route, and what that answers.
abbrev pub answer : Table RouteVal → RouteEntry → Bool × RouteResult
answer tab e = (e.is_valid, val_answer tab e.val)

-- An entry that a device has taken on although its destination is the broadcast address.
abbrev pub is_broadcast_offloaded : RouteEntry → Bool
is_broadcast_offloaded e = e.offloaded && is_broadcast e.key.dst_ip

module _ (net_devices : ℕ → Option (List ℕ)) (register_observer : ℕ → Bool) where
  registered-same :
      (o : Option (List ℕ)) (e : RouteEntry)
      → let f = registered net_devices register_observer o e in (f.val ≡ e.val) × (f.key ≡ e.key)
  registered-same none e = (refl, refl)
  registered-same (some []) e = (refl, refl)
  registered-same (some (src_addr ∷ devices)) e = elim (Bool-cases (register_observer src_addr)) [
    | inl p ↦ rw p (refl, refl)
    | inr p ↦ rw p (refl, refl)
  ]

  module _ (b : Bool) (rules : Table RuleVal) (tab : Table RouteVal) where
    with_route-answer :
        (e : RouteEntry) (i : ℕ)
        → e.offloaded ≡ false
        → let f = with_route net_devices register_observer b tab e i in
          (answer tab f ≡ (true, result_of (tab.value i))) × (is_broadcast_offloaded f ≡ false)
    unfolding register_to_net_device
    with_route-answer e i o =
        let f : RouteEntry = record e { val = some i } in
        let devices = net_devices (tab.value i).if_index in
        let g = registered net_devices register_observer devices f in
        let goal : RouteEntry → Type 0 = λ x.
          (val_answer tab x.val ≡ result_of (tab.value i)) × (is_broadcast_offloaded x ≡ false) in
        let as_before : goal f = (refl, rw o refl) in
        let same = registered-same devices f in
        let done : goal (if b then (if is_broadcast e.key.dst_ip then f else g) else f) =
          if_elim goal b (if is_broadcast e.key.dst_ip then f else g) f
            (elim (Bool-cases (is_broadcast e.key.dst_ip)) [
              | inl p ↦ rw p as_before
              | inr p ↦
                  let q : is_broadcast g.key.dst_ip ≡ false =
                    ap (λ k. is_broadcast k.dst_ip) same.1 ∙ p in
                  let r : goal g = (ap (val_answer tab) same.0, rw q (ground arith)) in rw p r
            ])
            as_before in
        let pair : RouteResult → Bool × RouteResult = λ x. (true, x) in (ap pair done.0, done.1)

    or-answer :
        (e rest : RouteEntry) (more : Bool × RouteResult) (o : Option ℕ)
        → e.offloaded ≡ false
        → (answer tab rest ≡ more) × (is_broadcast_offloaded rest ≡ false)
        → let f = with_route_or net_devices register_observer b tab e rest o in
          (answer tab f ≡ resolved_or tab more o) × (is_broadcast_offloaded f ≡ false)
    or-answer e rest more none d h = h
    or-answer e rest more (some i) d h = with_route-answer e i d

    by_rules-answer :
        (rs : List ℕ) (e : RouteEntry)
        → e.val ≡ none
        → e.is_valid ≡ false
        → e.offloaded ≡ false
        → let f = update_by_rules net_devices register_observer b rules tab rs e in
          (answer tab f
            ≡ resolve_tables e.key.dst_ip tab
                (map (λ i. unsigned_char (rules.value i).table_id) rs))
          × (is_broadcast_offloaded f ≡ false)
    unfolding update_by_rules resolve_tables
    by_rules-answer [] e v d o = (rw (v, d) refl, rw o refl)
    by_rules-answer (r ∷ rs) e v d o =
        or-answer e (update_by_rules net_devices register_observer b rules tab rs e)
          (resolve_tables e.key.dst_ip tab (map (λ i. unsigned_char (rules.value i).table_id) rs))
          (find_route_val e.key.dst_ip (unsigned_char (rules.value r).table_id) tab) o
          (by_rules-answer rs e v d o)

  -- A new entry has a route if and only if `route_resolve` succeeds for its key, and then the same one:
  -- source, gateway and mtu are those of the answer. No device takes on an entry for the broadcast
  -- address.
  pub create_new_entry-answer :
      (key : RouteRuleTableKey) (rules : Table RuleVal) (tab : Table RouteVal)
      → let e = create_new_entry net_devices register_observer key rules tab in
        (answer tab e ≡ route_resolve key rules tab) × (is_broadcast_offloaded e ≡ false)
  unfolding create_new_entry update_entry entry_is_valid route_entry route_resolve rule_resolve
      update_rule_entry
  create_new_entry-answer key rules tab =
      by_rules-answer true rules tab (update_rule_entry key rules []) (route_entry key rules) refl
        refl refl
