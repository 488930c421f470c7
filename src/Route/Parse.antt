-- ===== src/Route/Parse.antt =====
-- The routes of a netlink answer (src/vma/proto/route_table_mgr.cpp, netlink_socket_mgr.h).
-- A message is what the kernel's macros read of it: its header and the list of its attributes. What
-- `if_indextoname` leaves in the buffer for an index is a parameter, and so is the highest mtu of
-- the net devices.
use libvma.Prelude.{
  ℕ, suc, ◌-◌, ◌^◌, true, ◌||◌, not, Option, none, some, List, [], ◌∷◌, ltb, ◌==◌, if◌then◌else◌,
}
use libvma.Prelude.Store.{update}
use libvma.Match.Address.{af_inet}
use libvma.Route.Val.{RouteVal, set_mtu, Table, max_table_size}

pub data Metric : Type 0 where
  rtax_mtu : ℕ → Metric
  rtax_other : ℕ → Metric

pub data Attribute : Type 0 where
  rta_dst rta_gateway rta_oif rta_src rta_prefsrc rta_table : ℕ → Attribute
  rta_metrics : List Metric → Attribute
  rta_other : ℕ → Attribute

-- `struct rtmsg` and what follows it.
pub record Message : Type 0 where
  pub family : ℕ
  pub dst_len : ℕ
  pub tos : ℕ
  pub table : ℕ
  pub protocol : ℕ
  pub scope : ℕ
  pub kind : ℕ
  pub attributes : List Attribute

abbrev pub rt_table_local : ℕ
rt_table_local = 255

-- `VMA_NETMASK`, of the 32 bits that `htonl` takes. The length is at most 32.
abbrev pub netmask : ℕ → ℕ
netmask n = if n == 0 then 0 else 2 ^ 32 - 2 ^ (32 - n)

abbrev pub from_header : Message → RouteVal → RouteVal
from_header m v = record v {
  protocol = m.protocol;
  scope = m.scope;
  kind = m.kind;
  table_id = m.table;
  dst_mask = netmask m.dst_len;
  dst_pref_len = m.dst_len;
}

abbrev pub set_valid : RouteVal → RouteVal
set_valid v = record v { is_valid = true }

abbrev stored : (ℕ → RouteVal) → ℕ → Option RouteVal → Table RouteVal
stored value entry_cnt none = record { value = value; entries_num = entry_cnt }
stored value entry_cnt (some v) = record {
  value = update value entry_cnt v;
  entries_num = suc entry_cnt;
}

module _ (max_mtu : ℕ) where
  unfoldable pub parse_metrics : List Metric → RouteVal → RouteVal
  parse_metrics [] v = v
  parse_metrics (rtax_mtu mtu ∷ metrics) v = parse_metrics metrics (set_mtu max_mtu mtu v)
  parse_metrics (rtax_other kind ∷ metrics) v = parse_metrics metrics v

  -- `new_route_event`. An event without a route is `none`.
  abbrev pub copied : RouteVal → RouteVal → RouteVal
  copied v p_route_val = set_valid (
      set_mtu max_mtu v.mtu (record p_route_val {
        dst_addr = v.dst_addr;
        dst_mask = v.dst_mask;
        dst_pref_len = v.dst_pref_len;
        src_addr = v.src_addr;
        gw = v.gw;
        protocol = v.protocol;
        scope = v.scope;
        kind = v.kind;
        table_id = v.table_id;
        if_index = v.if_index;
        if_name = v.if_name;
      }))

  unfoldable pub new_route_event : Option RouteVal → Table RouteVal → Table RouteVal
  new_route_event none tab = tab
  new_route_event (some v) tab =
      let n = tab.entries_num in
      if ltb n max_table_size
      then record { value = update tab.value n (copied v (tab.value n)); entries_num = suc n }
      else tab

module _ (if_indextoname : ℕ → List ℕ) (max_mtu : ℕ) where
  unfoldable pub parse_attr : Attribute → RouteVal → RouteVal
  parse_attr (rta_dst addr) v = record v { dst_addr = addr }
  parse_attr (rta_gateway addr) v = record v { gw = addr }
  parse_attr (rta_oif index) v = record v { if_index = index; if_name = if_indextoname index }
  parse_attr (rta_src addr) v = record v { src_addr = addr }
  parse_attr (rta_prefsrc addr) v = record v { src_addr = addr }
  parse_attr (rta_table table_id) v = record v { table_id = table_id }
  parse_attr (rta_metrics metrics) v = parse_metrics max_mtu metrics v
  parse_attr (rta_other kind) v = v

  unfoldable pub parse_attributes : List Attribute → RouteVal → RouteVal
  parse_attributes [] v = v
  parse_attributes (a ∷ attributes) v = parse_attributes attributes (parse_attr a v)

  -- `none` is false, where nothing is written.
  unfoldable pub parse_enrty : Message → RouteVal → Option RouteVal
  parse_enrty m v =
      if not (m.family == af_inet) || (m.table == rt_table_local)
      then none
      else some (set_valid (parse_attributes m.attributes (from_header m v)))

  -- The loop from an entry on; the messages behind the last entry that fits are dropped.
  unfoldable pub parse_tbl : List Message → Table RouteVal → Table RouteVal
  parse_tbl [] tab = tab
  parse_tbl (m ∷ messages) tab =
      if ltb tab.entries_num max_table_size
      then parse_tbl messages
          (stored tab.value tab.entries_num (parse_enrty m (tab.value tab.entries_num)))
      else tab

  -- `none` is a query that failed.
  unfoldable pub update_tbl : Option (List Message) → Table RouteVal → Table RouteVal
  update_tbl none tab = record tab { entries_num = 0 }
  update_tbl (some messages) tab = parse_tbl messages (record tab { entries_num = 0 })
