-- ===== src/Route/Tests.antt =====
-- Three routes: 10.0.0.0/8 through the gateway 192.168.1.1, 192.168.1.0/24 on the interface 2, and
-- 10.1.0.0/16 in the table 510; and a rule for each table.
use libvma.Prelude.{
  ℕ, zero, suc, ◌≡◌, refl, Bool, true, false, inl, inr, Option, none, some, List, [], ◌∷◌, arith,
  if◌then◌else◌,
}
use libvma.Route.Val.{RouteVal, route_val, RuleVal, rule_val, RouteRuleTableKey, Table}
use libvma.Route.Rules.{is_matching_rule, find_rules, find_rule_val, rule_resolve}
use libvma.Route.Lookup.{is_candidate, find_route, find_route_val, route_resolve}
use libvma.Route.Longest.{Best, find_route_val_lem}
use libvma.Route.Resolve.{Resolved, route_resolve_lem}
use libvma.Route.Source.{
  NetDevice, rt_mgr_update_source_ip, resolve_loop, resolve_pass, visit, direct_source, last_source,
  each, longest_device,
}
use libvma.Route.Settled.{Settled, waiting-le, resolve_loop-Settled}
use libvma.Route.Update.{AllSourced, rt_mgr_update_source_ip_lem}
use libvma.Route.Parse.{Message, rta_dst, rta_gateway, rta_metrics, rta_oif, rtax_mtu, parse_enrty}
use libvma.Route.Roundtrip.{Describes, parse_enrty-Describes}
use libvma.Route.Event.{found_after}
use libvma.Route.Entry.{create_new_entry}
use libvma.Route.Answer.{answer, is_broadcast_offloaded, create_new_entry-answer}

abbrev remote : RouteVal
remote = record route_val {
  dst_addr = 0x0A000000;
  dst_mask = 0xFF000000;
  dst_pref_len = 8;
  gw = 0xC0A80101;
  table_id = 254;
  if_name = 101 ∷ 116 ∷ [];
  if_index = 2;
  is_valid = true;
  mtu = 1500;
}

abbrev local : RouteVal
local = record route_val {
  dst_addr = 0xC0A80100;
  dst_mask = 0xFFFFFF00;
  dst_pref_len = 24;
  table_id = 254;
  if_name = 101 ∷ 116 ∷ [];
  if_index = 2;
  is_valid = true;
}

abbrev special : RouteVal
special = record remote {
  dst_addr = 0x0A010000;
  dst_mask = 0xFFFF0000;
  dst_pref_len = 16;
  table_id = 510;
}

abbrev value : ℕ → RouteVal
value zero = remote
value (suc zero) = local
value (suc (suc n)) = if true then special else route_val

abbrev tab : Table RouteVal
tab = record { value = value; entries_num = 3 }

abbrev special_rule : RuleVal
special_rule = record rule_val { dst_addr = 0x0A010203; table_id = 510; is_valid = true }

abbrev main_rule : RuleVal
main_rule = record rule_val { table_id = 254; is_valid = true }

abbrev rule_at : ℕ → RuleVal
rule_at zero = special_rule
rule_at (suc n) = main_rule

abbrev rules : Table RuleVal
rules = record { value = rule_at; entries_num = 2 }

abbrev key : RouteRuleTableKey
key = record { dst_ip = 0x0A010203; src_ip = 0; tos = 0 }

abbrev net_devices : ℕ → Option (List NetDevice)
net_devices i = some (record { netmask = 0xFFFFFF00; local_addr = 0xC0A80105 } ∷ [])

abbrev ioctl : List ℕ → Option ℕ
ioctl name = none

find_main : find_route_val 0x0A010203 254 tab ≡ some 0
unfolding find_route_val find_route is_candidate
find_main = refl

-- The rule names the table 510, and the search is in the table 254.
rules_of_key : rule_resolve key rules ≡ 254 ∷ 254 ∷ []
unfolding rule_resolve find_rule_val find_rules is_matching_rule
rules_of_key = refl

abbrev source_of : ℕ → Option (Table RouteVal) → Option ℕ
source_of i none = none
source_of i (some t) = some (t.value i).src_addr

-- The gateway is on the network of the second route, which has its source from the device.
source_through_gateway :
    (source_of 0 (rt_mgr_update_source_ip net_devices ioctl 4 tab) ≡ some 0xC0A80105)
    × (source_of 1 (rt_mgr_update_source_ip net_devices ioctl 4 tab) ≡ some 0xC0A80105)
unfolding rt_mgr_update_source_ip resolve_loop resolve_pass visit direct_source last_source each
    longest_device find_route_val find_route is_candidate
source_through_gateway = (refl, refl)

find_route_val_lem_example :
    Best 0x0A010203 254 tab.value tab.entries_num (find_route_val 0x0A010203 254 tab)
find_route_val_lem_example = find_route_val_lem 0x0A010203 254 tab

route_resolve_lem_example : Resolved key rules tab (route_resolve key rules tab)
route_resolve_lem_example = route_resolve_lem key rules tab

rt_mgr_update_source_ip_lem_example :
    (out : Table RouteVal) × (rt_mgr_update_source_ip net_devices ioctl 4 tab ≡ some out)
    × (out.entries_num ≡ 3)
    × AllSourced ioctl tab out
rt_mgr_update_source_ip_lem_example = rt_mgr_update_source_ip_lem net_devices ioctl tab

resolve_loop-Settled_example :
    (out : Table RouteVal) × (resolve_loop net_devices 4 3 tab ≡ some out)
    × (out.entries_num ≡ 3)
    × Settled net_devices out
resolve_loop-Settled_example =
    resolve_loop-Settled net_devices 4 3 tab (waiting-le 3 0 tab.value) (omega arith)

abbrev names : ℕ → List ℕ
names i = if true then 101 ∷ 116 ∷ [] else []

-- The attributes of `remote`, not in the kernel's order.
abbrev message : Message
message = record {
  family = 2;
  dst_len = 8;
  tos = 0;
  table = 254;
  protocol = 0;
  scope = 0;
  kind = 0;
  attributes =
      rta_oif 2
      ∷ rta_metrics (rtax_mtu 1500 ∷ [])
      ∷ rta_gateway 0xC0A80101
      ∷ rta_dst 0x0A000000
      ∷ [];
}

message-Describes : Describes message remote
message-Describes = record {
  family = refl;
  table = refl;
  header = record {
    protocol = refl;
    scope = refl;
    kind = refl;
    dst_pref_len = refl;
    dst_mask = (omega arith, refl);
    deleted = refl;
    if_up = refl;
  };
  is_valid = refl;
  true_of = (refl, ((refl, tt), (refl, (refl, tt))));
  dst_addr = inl refl;
  gw = inl refl;
  src_addr = inr refl;
  table_id = inr refl;
  if_index = inl refl;
  mtu = inl refl;
}

parse_enrty-Describes_example : parse_enrty names 9000 message route_val ≡ some remote
parse_enrty-Describes_example =
    parse_enrty-Describes names 9000 message remote message-Describes (omega arith) refl

-- The default route is a shorter one, and is found where no other is.
abbrev default_route : RouteVal
default_route = record route_val { gw = 0xC0A80101; table_id = 254; mtu = 1500 }

found_default :
    (found_after 9000 0x0A010203 254 default_route tab ≡ some 0)
    × (found_after 9000 0x08080808 254 default_route tab ≡ some 3)
unfolding find_route_val find_route is_candidate
found_default = (refl, refl)

abbrev addresses : ℕ → Option (List ℕ)
addresses i = some (0xC0A80105 ∷ [])

abbrev take_on : ℕ → Bool
take_on addr = true

create_new_entry-answer_example :
    let e = create_new_entry addresses take_on key rules tab in
    (answer tab e ≡ route_resolve key rules tab) × (is_broadcast_offloaded e ≡ false)
create_new_entry-answer_example = create_new_entry-answer addresses take_on key rules tab
