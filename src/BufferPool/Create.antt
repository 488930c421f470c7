-- ===== src/BufferPool/Create.antt =====
-- The constructor of src/vma/dev/buffer_pool.cpp: one block of memory is split into the buffers and,
-- behind them, their descriptors. The block's address is what the allocator gave; the size of a
-- `mem_buf_desc_t` is a parameter.
pub mod Layout
use libvma.Prelude.{
  ℕ, zero, suc, ◌+◌, ◌-◌, ◌*◌, ◌/◌, ◌%◌, ◌^◌, Bool, true, false, List, [], ◌∷◌, ◌==◌, if◌then◌else◌,
}
use libvma.Prelude.Int.{ℤ, pos}
use libvma.Prelude.Store.{Ptr, null, update}
use libvma.BufferPool.{Mem, Pool, put_buffer_helper}

abbrev pub mce_alignment : ℕ
mce_alignment = 63

-- `(n + MCE_ALIGNMENT) & ~MCE_ALIGNMENT`, in 64 bits.
unfoldable pub align : ℕ → ℕ
align n = (n + mce_alignment) % 2 ^ 64 / 64 * 64

-- What the allocator is asked for.
unfoldable pub block_size : ℕ → ℕ → ℕ → ℕ
block_size sizeof_desc buffer_count buf_size =
    if buffer_count == 0
    then buf_size
    else ((sizeof_desc + align buf_size) * buffer_count + mce_alignment) % 2 ^ 64

-- The descriptor in cleared memory, with its buffer and its owner.
abbrev pub make_desc : ℕ → Ptr → Ptr → Ptr → Mem → Mem
make_desc buf_size owner ptr_buff ptr_desc s = record {
  p_next_desc = update s.p_next_desc ptr_desc null;
  lkey = update s.lkey ptr_desc 0;
  p_desc_owner = update s.p_desc_owner ptr_desc owner;
  n_ref_count = update s.n_ref_count ptr_desc (pos 0);
  pbuf_flags = update s.pbuf_flags ptr_desc 0;
  pbuf_ref = update s.pbuf_ref ptr_desc 0;
  p_buffer = update s.p_buffer ptr_desc ptr_buff;
  sz_buffer = update s.sz_buffer ptr_desc buf_size;
}

module _ (sizeof_desc buf_size : ℕ) (owner : Ptr) where
  -- The loop, with the pointers that it moves on.
  unfoldable pub split_block : ℕ → Ptr → Ptr → Pool → Pool
  split_block zero ptr_buff ptr_desc a = a
  split_block (suc n) ptr_buff ptr_desc a =
      split_block n (ptr_buff + align buf_size) (ptr_desc + sizeof_desc) (
        put_buffer_helper ptr_desc
          (record a { mem = make_desc buf_size owner ptr_buff ptr_desc a.mem }))

  -- The pool over the block at `data_block`; `s` is the memory before.
  unfoldable pub buffer_pool : Mem → ℕ → Ptr → Pool
  buffer_pool s buffer_count data_block =
      let ptr_buff = align data_block in
      split_block buffer_count ptr_buff (ptr_buff + align buf_size * buffer_count) (record {
        mem = s;
        n_buffers = 0;
        n_buffers_created = buffer_count;
        p_head = null;
        n_buffer_pool_size = 0;
        n_buffer_pool_no_bufs = 0;
      })
