-- ===== src/Route/Rules.antt =====
-- src/vma/proto/rule_table_mgr.cpp: the rules that match a destination, and their tables.
use libvma.Prelude.{
  ℕ, zero, suc, ◌%◌, ◌^◌, Bool, true, false, not, ◌&&◌, ◌||◌, List, [], ◌∷◌, map, ◌==◌,
  if◌then◌else◌,
}
use libvma.Route.Val.{RuleVal, RouteRuleTableKey, Table}

abbrev pub is_empty {ℓ} : {A : Type ℓ} → List A → Bool
is_empty [] = true
is_empty (x ∷ xs) = false

-- `strcmp(name, "") == 0` is `is_empty name`.
unfoldable pub is_matching_rule : RouteRuleTableKey → RuleVal → Bool
is_matching_rule key v =
    if v.dst_addr == 0 || (v.dst_addr == key.dst_ip)
    then if v.src_addr == 0 || (v.src_addr == key.src_ip)
      then if v.tos == 0 || (v.tos == key.tos)
        then if is_empty v.iif_name then is_empty v.oif_name else false
        else false
      else false
    else false

-- Where `find_rule_val` appends a rule.
abbrev pub is_taken : RouteRuleTableKey → RuleVal → Bool
is_taken key v = v.is_valid && is_matching_rule key v

-- The loop from an index on, for the number of entries that are left: the indices of the rules that
-- it appends. The list in the code holds pointers into the table.
unfoldable pub find_rules :
    (key : RouteRuleTableKey) (value : ℕ → RuleVal) (left index : ℕ) → List ℕ
find_rules key value zero index = []
find_rules key value (suc left) index =
    let rest = find_rules key value left (suc index) in
    if is_taken key (value index) then index ∷ rest else rest

-- Onto an empty list, as both callers pass it. True is that the list is not empty.
unfoldable pub find_rule_val : RouteRuleTableKey → Table RuleVal → List ℕ × Bool
find_rule_val key tab =
    let found = find_rules key tab.value tab.entries_num 0 in (found, not (is_empty found))

-- The list of table ids is a `deque<unsigned char>`, and a table id is a uint32_t.
abbrev pub unsigned_char : ℕ → ℕ
unsigned_char n = n % 2 ^ 8

unfoldable pub rule_resolve : RouteRuleTableKey → Table RuleVal → List ℕ
rule_resolve key tab = map (λ i. unsigned_char (tab.value i).table_id) (find_rule_val key tab).0

-- `update_entry`: an entry is the list of the rules found for its key, and it is valid once it has one.
unfoldable pub update_rule_entry : RouteRuleTableKey → Table RuleVal → List ℕ → List ℕ
update_rule_entry key tab values = if is_empty values then (find_rule_val key tab).0 else values
