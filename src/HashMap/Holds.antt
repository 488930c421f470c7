-- ===== src/HashMap/Holds.antt =====
-- What the nodes of src/vma/util/hash_map.inl stand for: every key at most once, in its own bucket.
use libvma.Prelude.{
  ℕ, suc, ◌≡◌, refl, sym, ap, subst, ◌∙◌, Option, none, some, List, ◌==◌, arith, if◌then◌else◌,
  Option-cases, if_cases, inl, inr,
}
use libvma.Prelude.Store.{Ptr, update}
use libvma.HashMap.{HashMap, hash_map, find_node, without, bucket, set_node, del_node}
use libvma.HashMap.Chain.{
  Below, find_node-key, find_node-lt, find_node-update, without-update, without-Below, append-Below,
  Below-suc,
}
use libvma.HashMap.Table.{
  find_node-with_node, no_second-with_node, find_node-without_key, no_second-without_key,
}

abbrev pub value_of : (Ptr → ℕ) → Option Ptr → Option ℕ
value_of value none = none
value_of value (some p) = some (value p)

module _ (bytes : ℕ → List ℕ) where
  -- The node that the walk finds for a key.
  abbrev pub node_of : HashMap → ℕ → Option Ptr
  node_of m k = find_node m.key (m.table (bucket bytes k)) k

  pub record Holds (m : HashMap) (a : ℕ → Option ℕ) : Type 0 where
    pub older : (b : ℕ) → Below m.next_node (m.table b)
    pub no_second : (k : ℕ) → find_node m.key (without m.key (m.table (bucket bytes k)) k) k ≡ none
    pub last_found : (p : Ptr) → m.last ≡ some p → node_of m (m.key p) ≡ some p
    pub finds : (k : ℕ) → value_of m.value (node_of m k) ≡ a k

  pub hash_map-Holds : Holds hash_map (λ k. none)
  unfolding hash_map find_node without
  hash_map-Holds = record {
    older = λ b. tt;
    no_second = λ k. refl;
    last_found = λ p e. absurd cc;
    finds = λ k. refl;
  }

  -- Remembering a node that the walk finds.
  pub last-Holds :
      (m : HashMap) (a : ℕ → Option ℕ) (k : ℕ) (p : Ptr)
      → Holds m a
      → node_of m k ≡ some p
      → Holds (record m { last = some p }) a
  last-Holds m a k p h e =
      let c = find_node-key m.key (m.table (bucket bytes k)) k p e in
      record {
        older = h.older;
        no_second = h.no_second;
        last_found = λ q f.
            subst (λ r. node_of m (m.key r) ≡ some r) (cc)
              (subst (λ k'. node_of m k' ≡ some p) (sym c) e);
        finds = h.finds;
      }

  -- A key that is not there.
  pub missing-Holds :
      (m : HashMap) (a : ℕ → Option ℕ) (k : ℕ)
      → Holds m a
      → node_of m k ≡ none
      → Holds m (update a k none)
  missing-Holds m a k h e = record {
    older = h.older;
    no_second = h.no_second;
    last_found = h.last_found;
    finds = λ k'. ground (arith, h.finds k', e);
  }

  -- A new value for a key that is there.
  pub value-Holds :
      (m : HashMap) (a : ℕ → Option ℕ) (k v : ℕ) (p : Ptr)
      → Holds m a
      → node_of m k ≡ some p
      → Holds (record m { value = update m.value p v }) (update a k (some v))
  value-Holds m a k v p h e =
      let c = find_node-key m.key (m.table (bucket bytes k)) k p e in
      record {
        older = h.older;
        no_second = h.no_second;
        last_found = h.last_found;
        finds = λ k'.
            let c' = find_node-key m.key (m.table (bucket bytes k')) k' in
            elim (Option-cases (node_of m k')) [
              | inl f ↦ ground (arith, h.finds k', f, e)
              | inr (q, f) ↦ ground (arith, h.finds k', f, e, c' q, c)
            ];
      }

  module _ (m : HashMap) (a : ℕ → Option ℕ) (k v : ℕ) (h : Holds m a) where
    -- The key of the new node changes nothing in the chains.
    added_key : Ptr → ℕ
    added_key = update m.key m.next_node k

    find_node-added :
        (b : ℕ) (k' : ℕ) → find_node added_key (m.table b) k' ≡ find_node m.key (m.table b) k'
    unfolding added_key
    find_node-added b k' = find_node-update m.key (m.table b) k' m.next_node k (h.older b)

    no_second-added :
        (k' : ℕ) → find_node added_key (without added_key (m.table (bucket bytes k')) k') k' ≡ none
    unfolding added_key
    no_second-added k' =
        let b = bucket bytes k' in
        let r = without-Below m.key (m.table b) k' m.next_node (h.older b) in
        rw
          (
            without-update m.key (m.table b) k' m.next_node k (h.older b),
            find_node-update m.key (without m.key (m.table b) k') k' m.next_node k r,
          )
          (h.no_second k')

    pub node_of-added :
        (k' : ℕ)
        → node_of m k ≡ none
        → node_of (set_node bytes k v m none) k'
          ≡ (if k' == k then some m.next_node else node_of m k')
    unfolding added_key
    node_of-added k' e =
        let b = bucket bytes k in
        let f = find_node-with_node (λ z. bucket bytes z) added_key m.table k m.next_node k' in
        f (ground arith) (find_node-added b k ∙ e)
        ∙ ap (λ o. if k' == k then some m.next_node else o) (find_node-added (bucket bytes k') k')

  pub added-Holds :
      (m : HashMap) (a : ℕ → Option ℕ) (k v : ℕ)
      → Holds m a
      → node_of m k ≡ none
      → Holds (set_node bytes k v m none) (update a k (some v))
  unfolding added_key
  added-Holds m a k v h e =
      let o = node_of-added m a k v h in
      record {
        older = λ b.
            let P : List Ptr → Type 0 = λ ps. Below (suc m.next_node) ps in
            let k_bucket = bucket bytes k in
            if_cases P (b == k_bucket) _ _
              (λ f. append-Below (m.table k_bucket) m.next_node (h.older k_bucket))
              (λ f. Below-suc (m.table b) m.next_node (h.older b));
        no_second = λ k'.
            no_second-with_node (λ z. bucket bytes z) (added_key m a k v h) m.table k m.next_node k'
              (ground arith) (find_node-added m a k v h (bucket bytes k) k ∙ e)
              (no_second-added m a k v h k');
        last_found = λ q f.
            let l = h.last_found q f in
            let b = bucket bytes (m.key q) in
            let older = find_node-lt m.key (m.table b) (m.key q) m.next_node q (h.older b) l in
            let kept : update m.key m.next_node k q ≡ m.key q = ground (arith, older) in
            subst (λ z. node_of (set_node bytes k v m none) z ≡ some q) (sym kept)
              (o (m.key q) e ∙ ground (arith, l, e));
        finds = λ k'.
            let b = bucket bytes k' in
            let older = find_node-lt m.key (m.table b) k' m.next_node in
            ap (λ z. value_of (update m.value m.next_node v) z) (o k' e)
            ∙ elim (Option-cases (node_of m k')) [
              | inl f ↦ ground (arith, h.finds k', f)
              | inr (q, f) ↦ ground (arith, h.finds k', f, older q (h.older b) f)
            ];
      }

  pub deleted-Holds :
      (m : HashMap) (a : ℕ → Option ℕ) (k : ℕ) (p : Ptr)
      → Holds m a
      → node_of m k ≡ some p
      → Holds (del_node bytes k m (some p)).1 (update a k none)
  deleted-Holds m a k p h e =
      let o = λ (k' : ℕ).
        find_node-without_key (λ z. bucket bytes z) m.key m.table k k' (h.no_second k) in
      record {
        older = λ b.
            let P : List Ptr → Type 0 = λ ps. Below m.next_node ps in
            let k_bucket = bucket bytes k in
            if_cases P (b == k_bucket) _ _
              (λ f. without-Below m.key (m.table k_bucket) k m.next_node (h.older k_bucket))
              (λ f. h.older b);
        no_second = λ k'.
            no_second-without_key (λ z. bucket bytes z) m.key m.table k k' (h.no_second k)
              (h.no_second k');
        last_found = λ q f.
            let l = h.last_found q in
            o (m.key q) ∙ elim (Option-cases m.last) [
              | inl g ↦ absurd (ground (arith, f, g))
              | inr (r, g) ↦ ground (arith, f, g, l, e)
            ];
        finds = λ k'. ap (λ z. value_of m.value z) (o k') ∙ ground (arith, h.finds k');
      }
