-- ===== src/BufferPool/Tests.antt =====
-- A pool that made five buffers, of which it has 3, 2 and 1, while the caller has 4 and 5.
use libvma.Prelude.{
  ℕ, zero, suc, ◌≡◌, refl, true, false, Option, none, some, List, [], ◌∷◌, arith, All, ◌==◌,
  if◌then◌else◌,
}
use libvma.Prelude.Int.{pos, ◌-ℤ◌}
use libvma.Prelude.Store.{Ptr, null}
use libvma.BufferPool.{
  Pool, put_chain, put_buffers, put_last, put_buffers_count, put_after_deref,
  put_buffers_after_deref, get_buffers,
}
use libvma.BufferPool.Chain.{HasFree}
use libvma.BufferPool.Create.{align, block_size, split_block, buffer_pool}
use libvma.BufferPool.Create.Layout.{InBlock, buffer_pool-HasFree}
use libvma.BufferPool.Put.{put_buffers-HasFree}
use libvma.BufferPool.Get.{Taken, get_buffers-Taken}
use libvma.BufferPool.Cycle.{is_circle, iter, is_circle-found}

-- 3, 2, 1 and 4, 5 are chains.
abbrev links : Ptr → Ptr
links p = if p == 2 then 1 else if p == 3 then 2 else if p == 4 then 5 else 0

abbrev pool : Pool
pool = record {
  mem = record {
    p_next_desc = links;
    lkey = λ p. 0;
    p_desc_owner = λ p. 0;
    n_ref_count = λ p. pos 1;
    pbuf_flags = λ p. 0;
    pbuf_ref = λ p. if p == 4 then 2 else 1;
    p_buffer = λ p. 0;
    sz_buffer = λ p. 0;
  };
  n_buffers = 3;
  n_buffers_created = 5;
  p_head = 3;
  n_buffer_pool_size = 3;
  n_buffer_pool_no_bufs = 0;
}

pool-HasFree : HasFree pool (3 ∷ 2 ∷ 1 ∷ [])
pool-HasFree = record {
  chain = (refl, refl, (refl, refl, (refl, refl, refl)));
  distinct = (refl, (refl, (refl, tt)));
  counted = refl;
  size_ok = refl;
  created = omega arith;
  created_fits = omega arith;
}

put_buffers-HasFree_example :
    (b : Pool) × (put_buffers 9 4 pool ≡ some b) × HasFree b (5 ∷ 4 ∷ 3 ∷ 2 ∷ 1 ∷ [])
put_buffers-HasFree_example =
    put_buffers-HasFree 9 4 (4 ∷ 5 ∷ []) (3 ∷ 2 ∷ 1 ∷ []) pool (refl, refl, (refl, refl, refl))
      pool-HasFree (refl, (refl, (refl, (refl, (refl, tt))))) (omega arith) (omega arith)

get_buffers-Taken_example :
    Taken (9 ∷ []) 77 2 88 (3 ∷ 2 ∷ 1 ∷ []) (get_buffers (9 ∷ []) 77 2 88 pool)
get_buffers-Taken_example =
    get_buffers-Taken (9 ∷ []) 77 2 88 pool (3 ∷ 2 ∷ 1 ∷ []) pool-HasFree (omega arith)

abbrev summary : Option Pool → List ℕ
summary none = []
summary (some a) = a.n_buffers ∷ a.p_head ∷ a.mem.p_next_desc a.p_head ∷ a.mem.pbuf_ref 4 ∷ []

-- The last user of 5 is gone, and it goes to the front; 4 has a user left.
deref_keeps : summary (put_buffers_after_deref 9 (5 ∷ 4 ∷ []) pool) ≡ 4 ∷ 5 ∷ 3 ∷ 1 ∷ []
unfolding put_buffers_after_deref put_after_deref put_buffers put_chain ◌-ℤ◌
deref_keeps = refl

abbrev result : Option (List Ptr × Pool) → List ℕ
result none = []
result (some (rest, a)) = a.n_buffers ∷ rest

-- One entry of the caller's queue, which brings its chain along.
two_back : result (put_buffers_count 9 (4 ∷ 9 ∷ []) 1 pool) ≡ 5 ∷ 9 ∷ []
unfolding put_buffers_count put_last put_chain
two_back = refl

-- 1 leads to 2, and 2 to itself.
abbrev loop : Ptr → Ptr
loop p = 2

loop-never : (k : ℕ) → (iter k loop 1 == null) ≡ false
loop-never zero = refl
loop-never (suc k) = refl

is_circle-found_example : is_circle 2 loop 1 ≡ some true
is_circle-found_example = is_circle-found loop 1 loop-never 1 1 (omega arith) refl

-- Three buffers of 100 bytes, in a block at 1000, with descriptors of 10 bytes.
abbrev made : Pool
made = buffer_pool 10 100 7 pool.mem 3 1000

buffer_pool-HasFree_example :
    HasFree made (1428 ∷ 1418 ∷ 1408 ∷ [])
    × All (InBlock 10 1000 1408 1477 made.mem) (1428 ∷ 1418 ∷ 1408 ∷ [])
unfolding align block_size
buffer_pool-HasFree_example =
    buffer_pool-HasFree 10 100 7 pool.mem 3 1000 (omega arith) (omega arith) (omega arith)
      (omega arith) (omega arith)

second_buffer : made.mem.p_buffer 1418 ≡ 1152
unfolding buffer_pool split_block align
second_buffer = refl
