-- ===== src/Route/Resolve.antt =====
-- The route that `route_resolve` of src/vma/proto/route_table_mgr.cpp answers with.
use libvma.Prelude.{
  ℕ, zero, suc, ◌+◌, ◌<◌, ◌≡◌, refl, subst, ◌⊎◌, inl, inr, Bool, true, false, ◌||◌, Option, none,
  some, List, [], ◌∷◌, map, arith, ◌==◌, Bool-cases, below_suc,
}
use libvma.Route.Val.{RouteVal, RuleVal, RouteRuleTableKey, Table}
use libvma.Route.Rules.{
  is_empty, is_matching_rule, is_taken, unsigned_char, find_rules, find_rule_val, rule_resolve,
}
use libvma.Route.Lookup.{
  find_route_val, RouteResult, route_result, result_of, resolved_or, resolve_tables, route_resolve,
}
use libvma.Route.Longest.{Leads, IsBest, Best, find_route_val_lem}

-- `v` is the wildcard 0 or what is looked for.
abbrev IsAnyOr : (v x : ℕ) → Type 0
IsAnyOr v x = (v ≡ 0) ⊎ (v ≡ x)

-- A valid rule for the key that names no interface.
pub record Applies (key : RouteRuleTableKey) (v : RuleVal) : Type 0 where
  pub valid : v.is_valid ≡ true
  pub dst : IsAnyOr v.dst_addr key.dst_ip
  pub src : IsAnyOr v.src_addr key.src_ip
  pub tos : IsAnyOr v.tos key.tos
  pub iif : v.iif_name ≡ []
  pub oif : v.oif_name ≡ []

is_empty-nil : (xs : List ℕ) → is_empty xs ≡ true → xs ≡ []
is_empty-nil [] e = refl
is_empty-nil (x ∷ xs) e = absurd (ground arith)

is_taken-Applies : (key : RouteRuleTableKey) (v : RuleVal) → is_taken key v ≡ true → Applies key v
unfolding is_matching_rule
is_taken-Applies key v e = record {
  valid = ground arith;
  dst = ground arith;
  src = ground arith;
  tos = ground arith;
  iif = is_empty-nil v.iif_name (ground arith);
  oif = is_empty-nil v.oif_name (ground arith);
}

any_or : (v x : ℕ) → IsAnyOr v x → (v == 0 || (v == x)) ≡ true
any_or v x h = ground arith

Applies-is_taken : (key : RouteRuleTableKey) (v : RuleVal) → Applies key v → is_taken key v ≡ true
unfolding is_matching_rule
Applies-is_taken key v h =
    rw
      (
        h.valid,
        any_or v.dst_addr key.dst_ip h.dst,
        any_or v.src_addr key.src_ip h.src,
        any_or v.tos key.tos h.tos,
        h.iif,
        h.oif,
      )
      refl

module _ (key : RouteRuleTableKey) (rules : Table RuleVal) (tab : Table RouteVal) where
  -- What `find_route_val` is asked for with the table of the rule `r`.
  abbrev rule_table : ℕ → ℕ
  rule_table r = unsigned_char (rules.value r).table_id

  -- If the rule `r` matches, there is no route to the destination in its table.
  abbrev NoRoute : ℕ → Type 0
  NoRoute r =
      Applies key (rules.value r)
      → (j : ℕ) → j < tab.entries_num
      → ¬ Leads key.dst_ip (rule_table r) (tab.value j)

  -- The rule `r` is the first matching one whose table has a route, and `i` the best one there.
  pub record IsChosen (r i : ℕ) : Type 0 where
    pub inside : r < rules.entries_num
    pub applies : Applies key (rules.value r)
    pub earlier : (q : ℕ) → q < r → NoRoute q
    pub best : IsBest key.dst_ip (rule_table r) tab.value tab.entries_num i

  abbrev pub Resolved : Bool × RouteResult → Type 0
  Resolved (true, res) = (r : ℕ) × (i : ℕ) × IsChosen r i × (res ≡ result_of (tab.value i))
  Resolved (false, res) = (res ≡ route_result) × ((r : ℕ) → r < rules.entries_num → NoRoute r)

  abbrev from_rule : ℕ → ℕ → Bool × RouteResult
  from_rule left k =
      resolve_tables key.dst_ip tab (map rule_table (find_rules key rules.value left k))

  table-Best :
      (r : ℕ) (o : Option ℕ)
      → find_route_val key.dst_ip (rule_table r) tab ≡ o
      → Best key.dst_ip (rule_table r) tab.value tab.entries_num o
  table-Best r o e =
      subst (Best key.dst_ip (rule_table r) tab.value tab.entries_num) e
        (find_route_val_lem key.dst_ip (rule_table r) tab)

  -- A matching rule's table has a route, or the rules behind it decide.
  resolved_or-Resolved :
      (k : ℕ) (rest : Bool × RouteResult) (o : Option ℕ)
      → find_route_val key.dst_ip (rule_table k) tab ≡ o
      → k < rules.entries_num
      → is_taken key (rules.value k) ≡ true
      → ((r : ℕ) → r < k → NoRoute r)
      → (((r : ℕ) → r < suc k → NoRoute r) → Resolved rest)
      → Resolved (resolved_or tab rest o)
  resolved_or-Resolved k rest none e l t h later =
      later (below_suc NoRoute k h (λ u. table-Best k none e))
  resolved_or-Resolved k rest (some i) e l t h later = (
    k,
    i,
    record {
      inside = l;
      applies = is_taken-Applies key (rules.value k) t;
      earlier = h;
      best = table-Best k (some i) e;
    },
    refl,
  )

  resolve-from :
      (left k : ℕ)
      → rules.entries_num ≡ left + k
      → ((r : ℕ) → r < k → NoRoute r)
      → Resolved (from_rule left k)
  unfolding find_rules resolve_tables
  resolve-from zero k e h = (refl, λ r l. h r (omega (arith, e)))
  resolve-from (suc left) k e h =
      let later = resolve-from left (suc k) (omega (arith, e)) in
      elim (Bool-cases (is_taken key (rules.value k))) [
        | inl t ↦ rw t (
            resolved_or-Resolved k (from_rule left (suc k))
              (find_route_val key.dst_ip (rule_table k) tab) refl (omega (arith, e)) t h later)
        | inr t ↦ rw t (
            later (
              below_suc NoRoute k h
                (λ u. let v = Applies-is_taken key (rules.value k) u in absurd cc)))
      ]

-- `route_resolve` succeeds if and only if some valid rule that matches the key in destination, source
-- and TOS and names no interface has a route to the destination in its table; then the answer is that of the first such rule, from the route with the
-- longest prefix there, the first of equals. The table is the one of the low 8 bits of the rule's
-- table id. Otherwise the answer is all zeros.
pub route_resolve_lem :
    (key : RouteRuleTableKey) (rules : Table RuleVal) (tab : Table RouteVal)
    → Resolved key rules tab (route_resolve key rules tab)
unfolding route_resolve rule_resolve find_rule_val
route_resolve_lem key rules tab =
    resolve-from key rules tab rules.entries_num 0 (omega arith) (λ r l. absurd (omega arith))
