-- ===== src/BufferPool.antt =====
-- src/vma/dev/buffer_pool.h and buffer_pool.cpp: the pools of receive and transmit buffers.
-- Each call holds the pool's lock. The fields of the buffers are functions of their addresses. The
-- caller's queue of buffers is a list; that its links run through `buffer_node` and not through
-- `p_next_desc` is why it is not part of the memory.
pub mod Cycle
pub mod Chain
pub mod Create
mod Tests
pub mod Put
pub mod Get
use libvma.Prelude.{
  ℕ, zero, suc, ◌+◌, ◌-◌, ◌*◌, ◌/◌, ◌%◌, ◌^◌, min, Bool, true, false, ◌&&◌, Option, none, some,
  List, [], ◌∷◌, ◌++◌, leb, ltb, ◌==◌, if◌then◌else◌, length, not,
}
use libvma.Prelude.Int.{ℤ, pos, ltb_ℤ, ◌-ℤ◌}
use libvma.Prelude.Store.{Ptr, null, update}

-- The fields of a `mem_buf_desc_t` that the pool reads or writes.
pub record Mem : Type 0 where
  pub p_next_desc : Ptr → Ptr
  pub lkey : Ptr → ℕ
  pub p_desc_owner : Ptr → Ptr
  pub n_ref_count : Ptr → ℤ
  pub pbuf_flags : Ptr → ℕ
  pub pbuf_ref : Ptr → ℕ
  pub p_buffer : Ptr → ℕ
  pub sz_buffer : Ptr → ℕ

-- `n_buffer_pool_size` and `n_buffer_pool_no_bufs` are the statistics, of 32 bits.
pub record Pool : Type 0 where
  pub mem : Mem
  pub n_buffers : ℕ
  pub n_buffers_created : ℕ
  pub p_head : Ptr
  pub n_buffer_pool_size : ℕ
  pub n_buffer_pool_no_bufs : ℕ

abbrev pub free_lwip_pbuf : Ptr → Mem → Mem
free_lwip_pbuf p s = record s {
  pbuf_flags = update s.pbuf_flags p 0;
  pbuf_ref = update s.pbuf_ref p 0;
}

abbrev pub put_buffer_helper : Ptr → Pool → Pool
put_buffer_helper buff a =
    let s = a.mem in
    record a {
      mem = free_lwip_pbuf buff (record s { p_next_desc = update s.p_next_desc buff a.p_head });
      p_head = buff;
      n_buffers = (a.n_buffers + 1) % 2 ^ 64;
      n_buffer_pool_size = (a.n_buffer_pool_size + 1) % 2 ^ 32;
    }

-- The loop over a chain of buffers. The fuel bounds the length of the chain.
unfoldable pub put_chain : ℕ → Ptr → Pool → Pool
put_chain zero buff_list a = a
put_chain (suc fuel) buff_list a =
    if buff_list == null
    then a
    else put_chain fuel (a.mem.p_next_desc buff_list) (put_buffer_helper buff_list a)

-- `buffersPanic` ends the process, which is `none`.
abbrev pub check_count : Pool → Option Pool
check_count a = if ltb a.n_buffers_created a.n_buffers then none else some a

unfoldable pub put_buffers : ℕ → Ptr → Pool → Option Pool
put_buffers fuel buff_list a = check_count (put_chain fuel buff_list a)

-- The queue's last buffer first. The list is the queue from its end.
unfoldable pub put_last : ℕ → ℕ → List Ptr → Pool → List Ptr × Pool
put_last fuel zero buffers a = (buffers, a)
put_last fuel (suc amount) [] a = ([], a)
put_last fuel (suc amount) (b ∷ buffers) a = put_last fuel amount buffers (put_chain fuel b a)

abbrev pub checked : List Ptr → Option Pool → Option (List Ptr × Pool)
checked buffers none = none
checked buffers (some a) = some (buffers, a)

unfoldable pub put_buffers_count : ℕ → List Ptr → ℕ → Pool → Option (List Ptr × Pool)
put_buffers_count fuel buffers count a =
    let (rest, a') = put_last fuel (min count (length buffers)) buffers a in
    checked rest (check_count a')

abbrev pub and_then : Option Pool → (Pool → Option Pool) → Option Pool
and_then none g = none
and_then (some a) g = g a

-- `list->dec_ref_count() <= 1`, with the counter after it.
abbrev pub dec_ref_count : Ptr → Pool → Bool × Pool
dec_ref_count p a =
    let s = a.mem in
    (
      not (ltb_ℤ (pos 1) (s.n_ref_count p)),
      record a {
        mem = record s { n_ref_count = update s.n_ref_count p (s.n_ref_count p -ℤ pos 1) };
      },
    )

-- `list->lwip_pbuf.pbuf.ref-- <= 1`, a counter of 16 bits.
abbrev pub dec_pbuf_ref : Ptr → Pool → Bool × Pool
dec_pbuf_ref p a =
    let s = a.mem in
    (
      leb (s.pbuf_ref p) 1,
      record a {
        mem = record s { pbuf_ref = update s.pbuf_ref p ((s.pbuf_ref p + 2 ^ 16 - 1) % 2 ^ 16) };
      },
    )

-- One buffer of the queue of `put_buffers_after_deref_thread_safe`: the second counter is only
-- touched if the first has run out.
unfoldable pub put_after_deref : ℕ → Ptr → Pool → Option Pool
put_after_deref fuel p a =
    let (last, b) = dec_ref_count p a in
    let (free, c) = dec_pbuf_ref p b in
    if last then (if free then put_buffers fuel p c else some c) else some b

unfoldable pub put_buffers_after_deref : ℕ → List Ptr → Pool → Option Pool
put_buffers_after_deref fuel [] a = some a
put_buffers_after_deref fuel (p ∷ deque) a =
    and_then (put_after_deref fuel p a) (put_buffers_after_deref fuel deque)

-- One buffer off the list, with its new owner and key.
abbrev pub pop_head : Ptr → ℕ → Pool → Pool
pop_head desc_owner lkey a =
    let s = a.mem in
    let head = a.p_head in
    record a {
      p_head = s.p_next_desc head;
      mem = record s {
        p_next_desc = update s.p_next_desc head null;
        lkey = update s.lkey head lkey;
        p_desc_owner = update s.p_desc_owner head desc_owner;
      };
    }

unfoldable pub pop_heads : ℕ → Ptr → ℕ → List Ptr → Pool → List Ptr × Pool
pop_heads zero desc_owner lkey deque a = (deque, a)
pop_heads (suc count) desc_owner lkey deque a =
    pop_heads count desc_owner lkey (deque ++ (a.p_head ∷ [])) (pop_head desc_owner lkey a)

-- The result, the caller's queue and the pool.
unfoldable pub get_buffers : List Ptr → Ptr → ℕ → ℕ → Pool → Bool × List Ptr × Pool
get_buffers deque desc_owner count lkey a =
    if ltb a.n_buffers count
    then (false, deque, record a { n_buffer_pool_no_bufs = (a.n_buffer_pool_no_bufs + 1) % 2 ^ 32 })
    else (let (deque', a') = pop_heads count desc_owner lkey deque (record a {
      n_buffers = a.n_buffers - count;
      n_buffer_pool_size = (a.n_buffer_pool_size + 2 ^ 32 - count % 2 ^ 32) % 2 ^ 32;
    }) in
        (true, deque', a'))

pub get_free_count : Pool → ℕ
get_free_count a = a.n_buffers
