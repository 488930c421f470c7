-- ===== src/BufferPool/Chain.antt =====
-- The list of free buffers of src/vma/dev/buffer_pool.cpp: a chain through `p_next_desc` that ends
-- with NULL and has as many buffers as the pool counts.
use libvma.Prelude.{
  ◌%◌, ◌^◌, ◌≤◌, ◌<◌, ◌≡◌, refl, sym, subst, false, List, ◌∷◌, arith, ◌==◌, length,
}
use libvma.Prelude.Store.{Ptr, null, update, update_self}
use libvma.Prelude.Chain.{Chain, Chain-update, elem, Distinct}
use libvma.BufferPool.{Pool, put_buffer_helper}

-- The pool has these free buffers, and counts them.
pub record HasFree (a : Pool) (xs : List Ptr) : Type 0 where
  pub chain : Chain a.mem.p_next_desc a.p_head xs
  pub distinct : Distinct xs
  pub counted : a.n_buffers ≡ length xs
  pub size_ok : a.n_buffer_pool_size ≡ length xs % 2 ^ 32
  pub created : length xs ≤ a.n_buffers_created
  pub created_fits : a.n_buffers_created < 2 ^ 64

pub put_buffer_helper-HasFree :
    (a : Pool) (xs : List Ptr) (y : Ptr)
    → HasFree a xs
    → (y == null) ≡ false
    → elem y xs ≡ false
    → length xs < a.n_buffers_created
    → HasFree (put_buffer_helper y a) (y ∷ xs)
put_buffer_helper-HasFree a xs y h n e l = record {
  chain = (
    refl,
    n,
    subst (λ p. Chain (update a.mem.p_next_desc y a.p_head) p xs)
        (sym (update_self a.mem.p_next_desc y a.p_head))
        (Chain-update a.mem.p_next_desc y a.p_head a.p_head xs e h.chain),
  );
  distinct = (e, h.distinct);
  counted = omega (arith, h.counted, h.created_fits);
  size_ok = omega (arith, h.size_ok);
  created = omega (arith, l);
  created_fits = h.created_fits;
}
