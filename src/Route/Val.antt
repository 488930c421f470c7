-- ===== src/Route/Val.antt =====
-- src/vma/proto/route_val.h, rule_val.h, route_rule_table_key.h and netlink_socket_mgr.h: routes,
-- rules, and the tables that hold them. Addresses are in host order. A name is the list of its
-- characters before the terminator. The string for the log is left out.
use libvma.Prelude.{ℕ, Bool, true, false, List, [], ltb, if◌then◌else◌}

pub record RouteVal : Type 0 where
  pub dst_addr : ℕ
  pub dst_mask : ℕ
  pub dst_pref_len : ℕ
  pub src_addr : ℕ
  pub gw : ℕ
  pub protocol : ℕ
  pub scope : ℕ
  pub kind : ℕ
  pub table_id : ℕ
  pub if_name : List ℕ
  pub if_index : ℕ
  pub is_valid : Bool
  pub deleted : Bool
  pub if_up : Bool
  pub mtu : ℕ

-- The constructor.
abbrev pub route_val : RouteVal
route_val = record {
  dst_addr = 0;
  dst_mask = 0;
  dst_pref_len = 0;
  src_addr = 0;
  gw = 0;
  protocol = 0;
  scope = 0;
  kind = 0;
  table_id = 0;
  if_name = [];
  if_index = 0;
  is_valid = false;
  deleted = false;
  if_up = true;
  mtu = 0;
}

-- `max_mtu` is what the table of the net devices gives.
abbrev pub set_mtu : ℕ → ℕ → RouteVal → RouteVal
set_mtu max_mtu mtu v = if ltb max_mtu mtu then v else record v { mtu = mtu }

pub record RuleVal : Type 0 where
  pub protocol : ℕ
  pub scope : ℕ
  pub kind : ℕ
  pub tos : ℕ
  pub dst_addr : ℕ
  pub src_addr : ℕ
  pub iif_name : List ℕ
  pub oif_name : List ℕ
  pub priority : ℕ
  pub table_id : ℕ
  pub is_valid : Bool

abbrev pub rule_val : RuleVal
rule_val = record {
  protocol = 0;
  scope = 0;
  kind = 0;
  tos = 0;
  dst_addr = 0;
  src_addr = 0;
  iif_name = [];
  oif_name = [];
  priority = 0;
  table_id = 0;
  is_valid = false;
}

-- What a destination entry looks a route up by.
pub record RouteRuleTableKey : Type 0 where
  pub dst_ip : ℕ
  pub src_ip : ℕ
  pub tos : ℕ

abbrev pub max_table_size : ℕ
max_table_size = 4096

-- `table_t`: the array, by its indices, and the number of entries in use.
pub record Table {ℓ} (Entry : Type ℓ) : Type ℓ where
  pub value : ℕ → Entry
  pub entries_num : ℕ
