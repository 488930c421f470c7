-- ===== src/BufferPool/Put.antt =====
-- Buffers that come back to the pool (src/vma/dev/buffer_pool.cpp).
use libvma.Prelude.{
  ℕ, zero, suc, ◌+◌, ◌≤◌, ◌<◌, ◌≡◌, false, some, List, [], ◌∷◌, ◌++◌, arith, ◌==◌, length,
}
use libvma.Prelude.Store.{Ptr, null}
use libvma.BufferPool.{Pool, put_buffer_helper, put_chain, put_buffers}
use libvma.Prelude.Chain.{Chain, Chain-update, elem-append, Distinct, Distinct-move}
use libvma.BufferPool.Chain.{HasFree, put_buffer_helper-HasFree}

-- The pool's list after the buffers of a chain have been put in front of it one by one.
abbrev pub rev_onto : List Ptr → List Ptr → List Ptr
rev_onto [] xs = xs
rev_onto (y ∷ ys) xs = rev_onto ys (y ∷ xs)

pub put_chain-HasFree :
    (fuel : ℕ) (p : Ptr) (ys xs : List Ptr) (a : Pool)
    → Chain a.mem.p_next_desc p ys
    → HasFree a xs
    → Distinct (ys ++ xs)
    → length ys + length xs ≤ a.n_buffers_created
    → length ys < fuel
    → HasFree (put_chain fuel p a) (rev_onto ys xs)
unfolding put_chain
put_chain-HasFree zero p ys xs a c h d l f = absurd (omega arith)
put_chain-HasFree (suc fuel) p [] xs a c h d l f = rw c h
put_chain-HasFree (suc fuel) p (y ∷ ys) xs a c h d l f =
    let n : (p == null) ≡ false = ground arith in
    let e = elem-append y ys xs in
    rw (n, c.0)
      (put_chain-HasFree fuel (a.mem.p_next_desc y) ys (y ∷ xs) (put_buffer_helper y a)
        (Chain-update a.mem.p_next_desc y a.p_head (a.mem.p_next_desc y) ys (ground arith) c.2)
        (put_buffer_helper-HasFree a xs y h c.1 (ground arith) (omega arith))
        (Distinct-move y ys xs d.0 d.1) (omega arith) (omega arith))

-- A chain of buffers that the pool does not have goes onto the pool's list in reverse. The pool's
-- list stays a chain of distinct buffers, its counters stay right, and nothing panics, as long as
-- there are not more buffers than the pool has made. The fuel is more than the length of the chain.
pub put_buffers-HasFree :
    (fuel : ℕ) (p : Ptr) (ys xs : List Ptr) (a : Pool)
    → Chain a.mem.p_next_desc p ys
    → HasFree a xs
    → Distinct (ys ++ xs)
    → length ys + length xs ≤ a.n_buffers_created
    → length ys < fuel
    → (b : Pool) × (put_buffers fuel p a ≡ some b) × HasFree b (rev_onto ys xs)
unfolding put_buffers
put_buffers-HasFree fuel p ys xs a c h d l f =
    let r = put_chain-HasFree fuel p ys xs a c h d l f in
    (put_chain fuel p a, ground (arith, r.counted, r.created), r)
