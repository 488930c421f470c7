-- ===== src/Route/Entry.antt =====
-- src/vma/proto/route_entry.cpp, and the entries of route_table_mgr.cpp: what a destination keeps of
-- its route. The table of the net devices is a parameter: `net_devices` gives the addresses of an
-- interface's devices by its index, or NULL, and `register_observer` whether the device of an address
-- takes the entry on.
use libvma.Prelude.{
  ℕ, Bool, true, false, ◌&&◌, Option, none, some, List, [], ◌∷◌, map, ◌==◌, if◌then◌else◌,
}
use libvma.Route.Val.{RouteVal, RuleVal, RouteRuleTableKey, Table}
use libvma.Route.Rules.{unsigned_char, update_rule_entry}
use libvma.Route.Lookup.{find_route_val}

-- `rules` is the list of the rule entry that the constructor registers with, `val` the index of the
-- route, `net_dev_entry` the address of the device that the entry is registered to.
pub record RouteEntry : Type 0 where
  pub key : RouteRuleTableKey
  pub rules : List ℕ
  pub val : Option ℕ
  pub is_valid : Bool
  pub net_dev_entry : Option ℕ
  pub offloaded : Bool

unfoldable pub route_entry : RouteRuleTableKey → Table RuleVal → RouteEntry
route_entry key rules = record {
  key = key;
  rules = update_rule_entry key rules [];
  val = none;
  is_valid = false;
  net_dev_entry = none;
  offloaded = false;
}

abbrev val_is_valid : Table RouteVal → Option ℕ → Bool
val_is_valid tab none = false
val_is_valid tab (some i) = (tab.value i).is_valid

unfoldable pub entry_is_valid : Table RouteVal → RouteEntry → Bool
entry_is_valid tab e = e.is_valid && val_is_valid tab e.val

abbrev pub is_broadcast : ℕ → Bool
is_broadcast addr = addr == 0xFFFFFFFF

module _ (net_devices : ℕ → Option (List ℕ)) (register_observer : ℕ → Bool) where
  abbrev pub registered : Option (List ℕ) → RouteEntry → RouteEntry
  registered none e = record e { offloaded = false }
  registered (some []) e = record e { offloaded = false }
  registered (some (src_addr ∷ devices)) e =
      if register_observer src_addr
      then record e { net_dev_entry = some src_addr; offloaded = true }
      else record e { offloaded = false }

  -- With the index of the entry's interface.
  unfoldable pub register_to_net_device : ℕ → RouteEntry → RouteEntry
  register_to_net_device if_index e = registered (net_devices if_index) e

  -- A route that was found becomes that of the entry.
  abbrev pub with_route :
      (b_register_to_net_dev : Bool) → Table RouteVal → RouteEntry → ℕ → RouteEntry
  with_route b_register_to_net_dev tab e i =
      let f : RouteEntry = record e { val = some i } in
      let g =
        if b_register_to_net_dev
        then if is_broadcast e.key.dst_ip
          then f
          else register_to_net_device (tab.value i).if_index f
        else f in
      record g { is_valid = true }

  abbrev pub with_route_or :
      (b_register_to_net_dev : Bool)
      → Table RouteVal
      → RouteEntry
      → RouteEntry
      → Option ℕ
      → RouteEntry
  with_route_or b tab e rest none = rest
  with_route_or b tab e rest (some i) = with_route b tab e i

  -- The loop over the rules of the entry.
  unfoldable pub update_by_rules :
      (b_register_to_net_dev : Bool)
      → Table RuleVal
      → Table RouteVal
      → List ℕ
      → RouteEntry
      → RouteEntry
  update_by_rules b rules tab [] e = e
  update_by_rules b rules tab (r ∷ rs) e =
      with_route_or b tab e (update_by_rules b rules tab rs e)
        (find_route_val e.key.dst_ip (unsigned_char (rules.value r).table_id) tab)

  unfoldable pub update_entry :
      (b_register_to_net_dev : Bool) → Table RuleVal → Table RouteVal → RouteEntry → RouteEntry
  update_entry b rules tab e =
      if entry_is_valid tab e then e else update_by_rules b rules tab e.rules e

  unfoldable pub create_new_entry : RouteRuleTableKey → Table RuleVal → Table RouteVal → RouteEntry
  create_new_entry key rules tab = update_entry true rules tab (route_entry key rules)

  -- `update_invalid_entries`, over the entries of the cache.
  unfoldable pub update_invalid_entries :
      Table RuleVal → Table RouteVal → List RouteEntry → List RouteEntry
  update_invalid_entries rules tab entries =
      map (λ e. if entry_is_valid tab e then e else update_entry false rules tab e) entries
