-- ===== src/Route/Source.antt =====
-- `rt_mgr_update_source_ip` of src/vma/proto/route_table_mgr.cpp: the source addresses of the routes
-- whose attributes had none.
-- The table of the net devices and the ioctl are parameters: `net_devices` gives the list of an
-- interface's index, or NULL, and `ioctl` the address of an interface's name, if it succeeds. The
-- table of the net devices is there, as the later loop takes for granted.
use Prim.Native.Nat.{bit_and, bit_or}
use libvma.Prelude.{
  ℕ, zero, suc, Bool, true, false, not, ◌&&◌, ◌||◌, Option, none, some, List, [], ◌∷◌, ltb, ◌==◌,
  if◌then◌else◌,
}
use libvma.Prelude.Store.{update}
use libvma.Route.Val.{RouteVal, Table}
use libvma.Route.Rules.{unsigned_char}
use libvma.Route.Lookup.{find_route_val}

pub record NetDevice : Type 0 where
  pub netmask : ℕ
  pub local_addr : ℕ

abbrev is_on_network : ℕ → NetDevice → Bool
is_on_network dst d = bit_and dst d.netmask == bit_and d.local_addr d.netmask

-- The walk over the devices of an interface, with the longest mask so far and its address.
unfoldable pub longest_device : ℕ → (longest_prefix correct_src : ℕ) → List NetDevice → ℕ
longest_device dst longest_prefix correct_src [] = correct_src
longest_device dst longest_prefix correct_src (d ∷ nd_lst) =
    let better = is_on_network dst d && not (bit_or d.netmask longest_prefix == longest_prefix) in
    longest_device dst (if better then d.netmask else longest_prefix)
      (if better then d.local_addr else correct_src) nd_lst

abbrev pub device_source : ℕ → Option (List NetDevice) → ℕ
device_source dst none = 0
device_source dst (some nd_lst) = longest_device dst 0 0 nd_lst

abbrev pub has_device : ℕ → List NetDevice → Bool
has_device gw [] = false
has_device gw (d ∷ nd_lst) = gw == d.local_addr || has_device gw nd_lst

-- Whether a device of the interface has the gateway's address.
abbrev pub is_local : ℕ → Option (List NetDevice) → Bool
is_local gw none = false
is_local gw (some nd_lst) = has_device gw nd_lst

abbrev pub set_src : ℕ → RouteVal → RouteVal
set_src src v = record v { src_addr = src }

abbrev pub set_src_from : Option ℕ → RouteVal → RouteVal
set_src_from none v = v
set_src_from (some src) v = set_src src v

-- One change for each entry of the table, in their order.
unfoldable pub each : (RouteVal → RouteVal) → (left index : ℕ) → (ℕ → RouteVal) → ℕ → RouteVal
each f zero index value = value
each f (suc left) index value = each f left (suc index) (update value index (f (value index)))

-- What one visit to a route without a source leaves in the table, and whether it is unresolved.
pub record Visit : Type 0 where
  pub value : ℕ → RouteVal
  pub unresolved : Bool

-- "gateway and source are equal, no need of gw."
abbrev pub drop_gw : RouteVal → RouteVal
drop_gw v = if v.src_addr == v.gw then record v { gw = 0 } else v

-- A route with a gateway and no source.
abbrev pub waits : RouteVal → Bool
waits v = not (v.gw == 0) && (v.src_addr == 0)

abbrev pub each_entry : (RouteVal → RouteVal) → Table RouteVal → Table RouteVal
each_entry f tab = record tab { value = each f tab.entries_num 0 tab.value }

module _ (net_devices : ℕ → Option (List NetDevice)) where
  -- The gateway's route leads to the entry itself: the gateway can be one of our own addresses.
  abbrev pub own_gateway : RouteVal → RouteVal
  own_gateway v =
      if is_local v.gw (net_devices v.if_index) then record v { src_addr = v.gw; gw = 0 } else v

  -- The entry `i` by the route to its gateway.
  abbrev pub through_gateway : (value : ℕ → RouteVal) → ℕ → Option ℕ → Visit
  through_gateway value i none = record { value = value; unresolved = true }
  through_gateway value i (some j) =
      let v = value i in
      let p_val_dst = value j in
      if not (p_val_dst.src_addr == 0)
      then record {
        value = update value i (drop_gw (set_src p_val_dst.src_addr v));
        unresolved = false;
      }
      else if i == j
      then (let w = own_gateway v in
          record { value = update value i (drop_gw w); unresolved = w.src_addr == 0 })
      else record { value = update value i (drop_gw v); unresolved = true }

  unfoldable pub visit : (value : ℕ → RouteVal) → (entries_num i : ℕ) → Visit
  visit value entries_num i =
      let v = value i in
      if waits v
      then through_gateway value i (
          find_route_val v.gw (unsigned_char v.table_id)
            (record { value = value; entries_num = entries_num }))
      else record { value = value; unresolved = false }

  -- The loop over the table from an index on, with the number of unresolved entries so far.
  unfoldable pub resolve_pass :
      (entries_num left index num_unresolved_src : ℕ) → (ℕ → RouteVal) → (ℕ → RouteVal) × ℕ
  resolve_pass entries_num zero index num_unresolved_src value = (value, num_unresolved_src)
  resolve_pass entries_num (suc left) index num_unresolved_src value =
      let v = visit value entries_num index in
      resolve_pass entries_num left (suc index)
        (if v.unresolved then suc num_unresolved_src else num_unresolved_src) v.value

  -- The do-while loop, on fuel: `none` is that the fuel runs out. `num_unresolved_src` is the number
  -- after the round before.
  unfoldable pub resolve_loop :
      (fuel num_unresolved_src : ℕ) → Table RouteVal → Option (Table RouteVal)
  resolve_loop zero num_unresolved_src tab = none
  resolve_loop (suc fuel) num_unresolved_src tab =
      let p = resolve_pass tab.entries_num tab.entries_num 0 0 tab.value in
      let next : Table RouteVal = record tab { value = p.0 } in
      let rest = resolve_loop fuel p.1 next in
      if not (p.1 == 0) && ltb p.1 num_unresolved_src then rest else some next

-- The last loop, for one entry.
unfoldable pub last_source : (List ℕ → Option ℕ) → RouteVal → RouteVal
last_source ioctl v = if not (v.src_addr == 0) then v else set_src_from (ioctl v.if_name) v

abbrev pub last_sources : (List ℕ → Option ℕ) → Option (Table RouteVal) → Option (Table RouteVal)
last_sources ioctl none = none
last_sources ioctl (some tab) = some (each_entry (last_source ioctl) tab)

module _ (net_devices : ℕ → Option (List NetDevice)) (ioctl : List ℕ → Option ℕ) where
  -- The first loop, for one entry.
  unfoldable pub direct_source : RouteVal → RouteVal
  direct_source v =
      let correct_src = device_source v.dst_addr (net_devices v.if_index) in
      if not (v.src_addr == 0) || not (v.gw == 0)
      then v
      else if not (correct_src == 0)
      then set_src correct_src v
      else set_src_from (ioctl v.if_name) v

  unfoldable pub rt_mgr_update_source_ip : (fuel : ℕ) → Table RouteVal → Option (Table RouteVal)
  rt_mgr_update_source_ip fuel tab =
      last_sources ioctl
        (resolve_loop net_devices fuel tab.entries_num (each_entry direct_source tab))
