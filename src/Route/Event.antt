-- ===== src/Route/Event.antt =====
-- A route that the kernel reports later (`new_route_event` of src/vma/proto/route_table_mgr.cpp).
use libvma.Prelude.{ℕ, ◌&&◌, Option, some, if◌then◌else◌}
use libvma.Route.Val.{RouteVal, Table}
use libvma.Route.Lookup.{is_candidate, is_longer, find_route, find_route_val}
use libvma.Route.Longest.{prefix_of, better}
use libvma.Route.Parse.{copied}

module _ (dst table_id : ℕ) where
  abbrev best : (ℕ → RouteVal) → (left k : ℕ) → Option ℕ → Option ℕ
  best value left k c = find_route dst table_id value left k (prefix_of value c) c

  abbrev next_best : (ℕ → RouteVal) → ℕ → Option ℕ → Option ℕ
  next_best value k c = if better dst table_id value c k then some k else c

-- What a search finds after the event: the new route, if it is a candidate and longer than the best one
-- before, else the same as before.
abbrev pub found_after : (max_mtu dst table_id : ℕ) → RouteVal → Table RouteVal → Option ℕ
found_after max_mtu dst table_id v tab =
    let new = copied max_mtu v (tab.value tab.entries_num) in
    let before = find_route_val dst table_id tab in
    if is_candidate dst table_id new && is_longer (prefix_of tab.value before) new
    then some tab.entries_num
    else before
