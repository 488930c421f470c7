-- ===== src/IpFrag/Manager/Returned.antt =====
-- The buffers that src/vma/proto/ip_frag.cpp gives back.
use libvma.Prelude.{ℕ, ◌<◌, ◌≡◌, refl, sym, subst, false, List, ◌∷◌, ◌++◌, ◌==◌, length}
use libvma.Prelude.Store.{Ptr, null, update, update_self}
use libvma.Prelude.Chain.{Chain, Distinct, tail_of, Chain-append}
use libvma.IpFrag.Manager.{ip_frag_freed, Manager, free_frag}

abbrev queued : ℕ → Ptr → Manager → Manager
queued fuel x m = record m {
  sz_data = update m.sz_data x ip_frag_freed;
  next = update m.next (tail_of fuel m.next x) (m.returns (m.owner x));
  returns = update m.returns (m.owner x) x;
}

free_frag-queued :
    (fuel : ℕ) (x : Ptr) (m : Manager) → (x == null) ≡ false → free_frag fuel x m ≡ queued fuel x m
unfolding free_frag
free_frag-queued fuel x m e = rw e refl

-- All buffers of a chain go, in their order, in front of those that wait for the same owner, and the
-- first is marked as freed. The two chains have no buffer in common, and the fuel is the length of
-- the first at least.
pub free_frag-Chain :
    (fuel : ℕ) (x : Ptr) (xs ys : List Ptr) (m : Manager)
    → Chain m.next x (x ∷ xs)
    → Chain m.next (m.returns (m.owner x)) ys
    → Distinct (x ∷ xs ++ ys)
    → length xs < fuel
    → let m' = free_frag fuel x m in
      Chain m'.next (m'.returns (m.owner x)) (x ∷ xs ++ ys) × (m'.sz_data x ≡ ip_frag_freed)
free_frag-Chain fuel x xs ys m c d n l =
    let o = m.owner x in
    subst
      (λ (m' : Manager).
        Chain m'.next (m'.returns o) (x ∷ xs ++ ys) × (m'.sz_data x ≡ ip_frag_freed))
      (sym (free_frag-queued fuel x m c.1))
      (
        subst (λ p. Chain (update m.next (tail_of fuel m.next x) (m.returns o)) p (x ∷ xs ++ ys))
            (sym (update_self m.returns o x))
            (Chain-append fuel m.next x xs (m.returns o) ys c d n l),
        update_self m.sz_data x ip_frag_freed,
      )
