-- ===== src/BufferPool/Create/Layout.antt =====
-- The pool that the constructor of src/vma/dev/buffer_pool.cpp makes.
use libvma.Prelude.{
  ℕ, zero, suc, ◌+◌, ◌*◌, ◌%◌, ◌^◌, ◌≤◌, ◌<◌, ◌≡◌, refl, false, List, [], ◌∷◌, arith, ◌==◌, length,
  All,
}
use libvma.Prelude.Store.{Ptr, null, update_self}
use libvma.Prelude.Chain.{Chain-update, elem}
use libvma.BufferPool.{Mem, Pool, put_buffer_helper}
use libvma.BufferPool.Chain.{HasFree, put_buffer_helper-HasFree}
use libvma.BufferPool.Create.{mce_alignment, align, block_size, make_desc, split_block, buffer_pool}

-- The descriptors in the order of the free list: the last one first.
abbrev pub descs_from : ℕ → ℕ → Ptr → List Ptr → List Ptr
descs_from sizeof_desc zero d xs = xs
descs_from sizeof_desc (suc n) d xs = descs_from sizeof_desc n (d + sizeof_desc) (d ∷ xs)

-- The buffer lies between `lo` and the first descriptor, and the descriptor from there to `hi`.
abbrev pub InBlock : ℕ → ℕ → ℕ → ℕ → Mem → Ptr → Type 0
InBlock sizeof_desc lo mid hi s x =
    (lo ≤ s.p_buffer x) × (s.p_buffer x + s.sz_buffer x ≤ mid) × (mid ≤ x) × (x + sizeof_desc ≤ hi)

module _ (sizeof_desc : ℕ) where
  -- All of the list stands before `d`.
  Before : Ptr → List Ptr → Type 0
  Before d xs = All (λ x. x + sizeof_desc ≤ d) xs

  Before-elem : (d : Ptr) (xs : List Ptr) → 0 < sizeof_desc → Before d xs → elem d xs ≡ false
  unfolding Before
  Before-elem d [] p b = refl
  Before-elem d (x ∷ xs) p b = let c = b.0 in ground (arith, Before-elem d xs p b.1)

  Before-next : (d : Ptr) (xs : List Ptr) → Before d xs → Before (d + sizeof_desc) xs
  unfolding Before
  Before-next d [] b = tt
  Before-next d (x ∷ xs) b = (omega (arith, b.0), Before-next d xs b.1)

make_desc-HasFree :
    (buf_size : ℕ) (owner b d : Ptr) (a : Pool) (xs : List Ptr)
    → HasFree a xs
    → elem d xs ≡ false
    → HasFree (record a { mem = make_desc buf_size owner b d a.mem }) xs
make_desc-HasFree buf_size owner b d a xs h e = record {
  chain = Chain-update a.mem.p_next_desc d null a.p_head xs e h.chain;
  distinct = h.distinct;
  counted = h.counted;
  size_ok = h.size_ok;
  created = h.created;
  created_fits = h.created_fits;
}

module _ (sizeof_desc buf_size : ℕ) (owner : Ptr) (pos_size : 0 < sizeof_desc) where
  split_block-HasFree :
      (n : ℕ) (b d : Ptr) (a : Pool) (xs : List Ptr)
      → HasFree a xs
      → Before sizeof_desc d xs
      → 0 < d
      → length xs + n ≤ a.n_buffers_created
      → HasFree (split_block sizeof_desc buf_size owner n b d a) (descs_from sizeof_desc n d xs)
  unfolding split_block Before
  split_block-HasFree zero b d a xs h p q l = h
  split_block-HasFree (suc n) b d a xs h p q l =
      let e = Before-elem sizeof_desc d xs pos_size p in
      let a' = record a { mem = make_desc buf_size owner b d a.mem } in
      split_block-HasFree n (b + align buf_size) (d + sizeof_desc) (put_buffer_helper d a') (d ∷ xs)
        (put_buffer_helper-HasFree a' xs d (make_desc-HasFree buf_size owner b d a xs h e)
          (ground arith) e (omega arith))
        (omega arith, Before-next sizeof_desc d xs p) (omega arith) (omega arith)

  InBlock-put :
      (lo mid hi : ℕ) (b d : Ptr) (a : Pool) (xs : List Ptr)
      → elem d xs ≡ false
      → All (InBlock sizeof_desc lo mid hi a.mem) xs
      → All
          (InBlock sizeof_desc lo mid hi
            (put_buffer_helper d (record a { mem = make_desc buf_size owner b d a.mem })).mem)
          xs
  InBlock-put lo mid hi b d a [] e i = tt
  InBlock-put lo mid hi b d a (x ∷ xs) e i =
      let n : (x == d) ≡ false = ground arith in
      (rw n i.0, InBlock-put lo mid hi b d a xs (ground arith) i.1)

  split_block-InBlock :
      (lo mid hi n : ℕ) (b d : Ptr) (a : Pool) (xs : List Ptr)
      → All (InBlock sizeof_desc lo mid hi a.mem) xs
      → Before sizeof_desc d xs
      → lo ≤ b
      → b + n * align buf_size ≤ mid
      → buf_size ≤ align buf_size
      → mid ≤ d
      → d + n * sizeof_desc ≤ hi
      → All
          (InBlock sizeof_desc lo mid hi (split_block sizeof_desc buf_size owner n b d a).mem)
          (descs_from sizeof_desc n d xs)
  unfolding split_block Before
  split_block-InBlock lo mid hi zero b d a xs i p q r s t u = i
  split_block-InBlock lo mid hi (suc n) b d a xs i p q r s t u =
      let e = Before-elem sizeof_desc d xs pos_size p in
      let a' = put_buffer_helper d (record a { mem = make_desc buf_size owner b d a.mem }) in
      split_block-InBlock lo mid hi n (b + align buf_size) (d + sizeof_desc) a' (d ∷ xs)
        (
          rw (update_self a.mem.p_buffer d b, update_self a.mem.sz_buffer d buf_size)
              (q, omega arith, t, omega arith),
          InBlock-put lo mid hi b d a xs e i,
        )
        (omega arith, Before-next sizeof_desc d xs p) (omega arith) (omega arith) s (omega arith)
        (omega arith)

le_scaled : (s c : ℕ) → 0 < s → c ≤ s * c
le_scaled zero c p = absurd (omega arith)
le_scaled (suc s) c p = omega arith

align-bounds : (n : ℕ) → n + 63 < 2 ^ 64 → (n ≤ align n) × (align n ≤ n + 63)
unfolding align
align-bounds n h = (omega arith, omega arith)

-- The constructor makes a pool with as many free buffers as asked for. In the block that it asked the
-- allocator for lie all the buffers, and behind them all the descriptors. The descriptors are not
-- empty, and the block does not reach the end of the address space.
pub buffer_pool-HasFree :
    (sizeof_desc buf_size : ℕ) (owner : Ptr) (s : Mem) (count : ℕ) (data_block : Ptr)
    → 0 < sizeof_desc
    → 0 < count
    → 0 < data_block
    → buf_size + 63 < 2 ^ 64
    → data_block + (sizeof_desc + align buf_size) * count + 63 < 2 ^ 64
    → let d = align data_block + align buf_size * count in
      let a = buffer_pool sizeof_desc buf_size owner s count data_block in
      HasFree a (descs_from sizeof_desc count d [])
      × All
          (InBlock sizeof_desc data_block d
            (data_block + block_size sizeof_desc count buf_size)
            a.mem)
          (descs_from sizeof_desc count d [])
unfolding buffer_pool block_size Before
buffer_pool-HasFree sizeof_desc buf_size owner s count data_block p c q w h =
    let d = align data_block + align buf_size * count in
    let x = align-bounds data_block (omega arith) in
    let y = align-bounds buf_size w in
    let z : (count == 0) ≡ false = ground arith in
    let t : (sizeof_desc + align buf_size) * count ≡ sizeof_desc * count + align buf_size * count =
      omega arith in
    let empty : Pool = record {
      mem = s;
      n_buffers = 0;
      n_buffers_created = count;
      p_head = null;
      n_buffer_pool_size = 0;
      n_buffer_pool_no_bufs = 0;
    } in
    (
      split_block-HasFree sizeof_desc buf_size owner p count (align data_block) d empty []
          (record {
            chain = refl;
            distinct = tt;
            counted = refl;
            size_ok = refl;
            created = omega arith;
            created_fits = omega (arith, le_scaled sizeof_desc count p, t, h);
          })
          tt (omega (arith, x.0, q)) (omega arith),
      rw z (
          split_block-InBlock sizeof_desc buf_size owner p data_block d
            (data_block + ((sizeof_desc + align buf_size) * count + mce_alignment) % 2 ^ 64) count
            (align data_block) d empty [] tt tt (x.0) (omega arith) (y.0) (omega arith)
            (omega (arith, x.1, t, h))),
    )
