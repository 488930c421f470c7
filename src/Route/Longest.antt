-- ===== src/Route/Longest.antt =====
-- What `find_route_val` of src/vma/proto/route_table_mgr.cpp finds.
use Prim.Native.Nat.{bit_and}
use libvma.Prelude.{
  ℕ, zero, suc, ◌+◌, ◌≤◌, ◌<◌, ◌≡◌, refl, sym, ap, subst, ◌∙◌, inl, inr, Bool, true, false, ◌&&◌,
  Option, none, some, arith, if◌then◌else◌, Bool-cases, below_suc,
}
use libvma.Prelude.Int.{ℤ, pos, negsuc}
use libvma.Route.Val.{RouteVal, Table}
use libvma.Route.Lookup.{is_candidate, is_longer, find_route, find_route_val}

-- The route is in the table asked for, leads to the destination, and is neither deleted nor down.
pub record Leads (dst table_id : ℕ) (v : RouteVal) : Type 0 where
  pub not_deleted : v.deleted ≡ false
  pub up : v.if_up ≡ true
  pub in_table : v.table_id ≡ table_id
  pub to_dst : v.dst_addr ≡ bit_and dst v.dst_mask

is_candidate-Leads :
    (dst table_id : ℕ) (v : RouteVal) → is_candidate dst table_id v ≡ true → Leads dst table_id v
unfolding is_candidate
is_candidate-Leads dst table_id v e = record {
  not_deleted = ground arith;
  up = ground arith;
  in_table = ground arith;
  to_dst = ground arith;
}

Leads-is_candidate :
    (dst table_id : ℕ) (v : RouteVal) → Leads dst table_id v → is_candidate dst table_id v ≡ true
unfolding is_candidate
Leads-is_candidate dst table_id v h =
    rw (h.not_deleted, h.up) (let a = h.in_table in let b = h.to_dst in ground arith)

-- An entry that does not lead there, or whose prefix is not longer than that of the entry `i`.
abbrev pub NotLonger : (dst table_id : ℕ) (value : ℕ → RouteVal) (i j : ℕ) → Type 0
NotLonger dst table_id value i j =
    Leads dst table_id (value j) → (value j).dst_pref_len ≤ (value i).dst_pref_len

abbrev pub Shorter : (dst table_id : ℕ) (value : ℕ → RouteVal) (i j : ℕ) → Type 0
Shorter dst table_id value i j =
    Leads dst table_id (value j) → (value j).dst_pref_len < (value i).dst_pref_len

-- Of the routes there among the first `n` entries the one with the longest prefix, and the first of
-- those that are equally long.
pub record IsBest (dst table_id : ℕ) (value : ℕ → RouteVal) (n i : ℕ) : Type 0 where
  pub inside : i < n
  pub leads : Leads dst table_id (value i)
  pub longest : (j : ℕ) → j < n → NotLonger dst table_id value i j
  pub first : (j : ℕ) → j < i → Shorter dst table_id value i j

-- The best one if there is any.
abbrev pub Best : (dst table_id : ℕ) (value : ℕ → RouteVal) (n : ℕ) → Option ℕ → Type 0
Best dst table_id value n none = (j : ℕ) → j < n → ¬ Leads dst table_id (value j)
Best dst table_id value n (some i) = IsBest dst table_id value n i

abbrev pub prefix_of : (ℕ → RouteVal) → Option ℕ → ℤ
prefix_of value none = negsuc 0
prefix_of value (some i) = pos (value i).dst_pref_len

module _ (dst table_id : ℕ) (value : ℕ → RouteVal) where
  abbrev pub better : Option ℕ → ℕ → Bool
  better correct k =
      is_candidate dst table_id (value k) && is_longer (prefix_of value correct) (value k)

  -- The entry `k` is the best one so far if the others are shorter.
  all_shorter-Best :
      (k : ℕ)
      → Leads dst table_id (value k)
      → ((j : ℕ) → j < k → Shorter dst table_id value k j)
      → IsBest dst table_id value (suc k) k
  all_shorter-Best k c h = record {
    inside = omega arith;
    leads = c;
    longest =
        below_suc (NotLonger dst table_id value k) k (λ j l d. let e = h j l d in omega arith)
          (λ d. omega arith);
    first = h;
  }

  better-Best :
      (k : ℕ) (correct : Option ℕ)
      → better correct k ≡ true
      → Best dst table_id value k correct
      → IsBest dst table_id value (suc k) k
  better-Best k none b h =
      all_shorter-Best k (is_candidate-Leads dst table_id (value k) (ground arith))
        (λ j l d. absurd (h j l d))
  better-Best k (some i) b h =
      let m : (value i).dst_pref_len < (value k).dst_pref_len = ground arith in
      all_shorter-Best k (is_candidate-Leads dst table_id (value k) (ground arith))
        (λ j l d. let e = h.longest j l d in omega arith)

  not_better-Best :
      (k : ℕ) (correct : Option ℕ)
      → better correct k ≡ false
      → Best dst table_id value k correct
      → Best dst table_id value (suc k) correct
  not_better-Best k none e h =
      below_suc (λ j. ¬ Leads dst table_id (value j)) k h
        (λ d. let c = Leads-is_candidate dst table_id (value k) d in absurd (ground arith))
  not_better-Best k (some i) e h = record {
    inside = omega (arith, h.inside);
    leads = h.leads;
    longest =
        below_suc (NotLonger dst table_id value i) k h.longest
          (λ d. let c = Leads-is_candidate dst table_id (value k) d in ground arith);
    first = h.first;
  }

  find_route-Best :
      (left k n : ℕ) (correct : Option ℕ) (longest : ℤ)
      → n ≡ left + k
      → longest ≡ prefix_of value correct
      → Best dst table_id value k correct
      → Best dst table_id value n (find_route dst table_id value left k longest correct)
  unfolding find_route
  find_route-Best zero k n correct longest s e h =
      let p : k ≡ n = omega (arith, s) in subst (λ m. Best dst table_id value m correct) p h
  find_route-Best (suc left) k n correct longest s e h =
      let test : ℤ → Bool = λ z. is_candidate dst table_id (value k) && is_longer z (value k) in
      let goal : Bool → Type 0 = λ b. Best dst table_id value n (
        find_route dst table_id value left (suc k)
          (if b then pos (value k).dst_pref_len else longest) (if b then some k else correct)) in
      elim (Bool-cases (test (prefix_of value correct))) [
        | inl b ↦ subst goal (sym (ap test e ∙ b)) (
            find_route-Best left (suc k) n (some k) (pos (value k).dst_pref_len) (omega (arith, s))
              refl (better-Best k correct b h))
        | inr b ↦ subst goal (sym (ap test e ∙ b)) (
            find_route-Best left (suc k) n correct longest (omega (arith, s)) e
              (not_better-Best k correct b h))
      ]

-- Of the routes of the table asked for that lead to the destination and are neither deleted nor down,
-- `find_route_val` finds the one with the longest prefix, the first of equals, and nothing only if
-- there is none.
pub find_route_val_lem :
    (dst table_id : ℕ) (tab : Table RouteVal)
    → Best dst table_id tab.value tab.entries_num (find_route_val dst table_id tab)
unfolding find_route_val
find_route_val_lem dst table_id tab =
    find_route-Best dst table_id tab.value tab.entries_num 0 tab.entries_num none (negsuc 0)
      (omega arith) refl (λ j l. absurd (omega arith))
