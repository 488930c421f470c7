-- ===== src/Route/Lookup.antt =====
-- src/vma/proto/route_table_mgr.cpp: the route to a destination.
use Prim.Native.Nat.{bit_and}
use libvma.Prelude.{
  ℕ, zero, suc, Bool, true, false, not, ◌&&◌, Option, none, some, List, [], ◌∷◌, ◌==◌,
  if◌then◌else◌,
}
use libvma.Prelude.Int.{ℤ, pos, negsuc, ltb_ℤ}
use libvma.Route.Val.{RouteVal, RuleVal, RouteRuleTableKey, Table}
use libvma.Route.Rules.{rule_resolve}

-- The guards of `find_route_val` but for the length of the prefix.
unfoldable pub is_candidate : ℕ → ℕ → RouteVal → Bool
is_candidate dst table_id v =
    not v.deleted && v.if_up && (v.table_id == table_id) && (v.dst_addr == bit_and dst v.dst_mask)

abbrev pub is_longer : ℤ → RouteVal → Bool
is_longer longest v = ltb_ℤ longest (pos v.dst_pref_len)

-- The loop from an index on, for the number of entries that are left.
unfoldable pub find_route :
    (dst table_id : ℕ) (value : ℕ → RouteVal) (left index : ℕ) (longest_prefix : ℤ)
    (correct : Option ℕ)
    → Option ℕ
find_route dst table_id value zero index longest_prefix correct = correct
find_route dst table_id value (suc left) index longest_prefix correct =
    let better =
      is_candidate dst table_id (value index) && is_longer longest_prefix (value index) in
    find_route dst table_id value left (suc index)
      (if better then pos (value index).dst_pref_len else longest_prefix)
      (if better then some index else correct)

-- The index of the route, where the code gives a pointer into the table.
unfoldable pub find_route_val : (dst table_id : ℕ) → Table RouteVal → Option ℕ
find_route_val dst table_id tab =
    find_route dst table_id tab.value tab.entries_num 0 (negsuc 0) none

pub record RouteResult : Type 0 where
  pub p_src : ℕ
  pub p_gw : ℕ
  pub mtu : ℕ

abbrev pub route_result : RouteResult
route_result = record { p_src = 0; p_gw = 0; mtu = 0 }

abbrev pub result_of : RouteVal → RouteResult
result_of v = record { p_src = v.src_addr; p_gw = v.gw; mtu = v.mtu }

-- What one table gives, or else the tables behind it.
abbrev pub resolved_or : Table RouteVal → Bool × RouteResult → Option ℕ → Bool × RouteResult
resolved_or tab rest none = rest
resolved_or tab rest (some i) = (true, result_of (tab.value i))

-- The loop over the tables that the rules name.
unfoldable pub resolve_tables : ℕ → Table RouteVal → List ℕ → Bool × RouteResult
resolve_tables dst tab [] = (false, route_result)
resolve_tables dst tab (table_id ∷ table_id_list) =
    resolved_or tab (resolve_tables dst tab table_id_list) (find_route_val dst table_id tab)

unfoldable pub route_resolve :
    RouteRuleTableKey → Table RuleVal → Table RouteVal → Bool × RouteResult
route_resolve key rules tab = resolve_tables key.dst_ip tab (rule_resolve key rules)
