-- ===== src/BufferPool/Get.antt =====
-- Buffers that leave the pool (src/vma/dev/buffer_pool.cpp).
use libvma.Prelude.{
  ℕ, zero, suc, ◌+◌, ◌-◌, ◌%◌, ◌^◌, ◌≤◌, ◌<◌, ◌≡◌, refl, sym, ap, ◌∙◌, Bool, true, false, List, [],
  ◌∷◌, ◌++◌, arith, ltb, ◌==◌, length, take, drop, length-drop, All,
}
use libvma.Prelude.Store.{Ptr, null}
use libvma.BufferPool.{Pool, pop_head, pop_heads, get_buffers}
use libvma.Prelude.Chain.{Chain, Chain-update, elem, Distinct}
use libvma.BufferPool.Chain.{HasFree}
use mathlib.Core.List.{append_assoc, append-nil}

-- The buffer is on its own, and belongs to the caller.
abbrev pub Handed : Ptr → ℕ → Pool → Ptr → Type 0
Handed desc_owner lkey a p =
    (a.mem.p_next_desc p ≡ null) × (a.mem.lkey p ≡ lkey) × (a.mem.p_desc_owner p ≡ desc_owner)

-- The list alone, while the counters have been written already.
record Listed (a : Pool) (xs : List Ptr) : Type 0 where
  chain : Chain a.mem.p_next_desc a.p_head xs
  distinct : Distinct xs

module _ (desc_owner lkey : ℕ) where
  pop_head-Listed :
      (a : Pool) (x : Ptr) (xs : List Ptr)
      → Listed a (x ∷ xs)
      → Listed (pop_head desc_owner lkey a) xs
  pop_head-Listed a x xs h =
      let e = h.chain.0 in
      record {
        chain =
            rw e (
              Chain-update a.mem.p_next_desc x null (a.mem.p_next_desc x) xs h.distinct.0
                h.chain.2);
        distinct = h.distinct.1;
      }

  pop_heads-deque :
      (count : ℕ) (deque : List Ptr) (a : Pool) (xs : List Ptr)
      → Listed a xs
      → count ≤ length xs
      → (pop_heads count desc_owner lkey deque a).0 ≡ deque ++ take count xs
  unfolding pop_heads
  pop_heads-deque zero deque a xs h l = sym (append-nil deque)
  pop_heads-deque (suc count) deque a [] h l = absurd (omega arith)
  pop_heads-deque (suc count) deque a (x ∷ xs) h l =
      pop_heads-deque count (deque ++ (a.p_head ∷ [])) (pop_head desc_owner lkey a) xs
        (pop_head-Listed a x xs h) (omega arith)
      ∙ append_assoc deque (a.p_head ∷ []) (take count xs)
      ∙ ap (λ p. deque ++ (p ∷ take count xs)) h.chain.0

  pop_heads-Listed :
      (count : ℕ) (deque : List Ptr) (a : Pool) (xs : List Ptr)
      → Listed a xs
      → count ≤ length xs
      → Listed (pop_heads count desc_owner lkey deque a).1 (drop count xs)
  unfolding pop_heads
  pop_heads-Listed zero deque a xs h l = h
  pop_heads-Listed (suc count) deque a [] h l = absurd (omega arith)
  pop_heads-Listed (suc count) deque a (x ∷ xs) h l =
      pop_heads-Listed count (deque ++ (a.p_head ∷ [])) (pop_head desc_owner lkey a) xs
        (pop_head-Listed a x xs h) (omega arith)

  -- What is popped later is not written again.
  pop_heads-Handed :
      (count : ℕ) (deque : List Ptr) (a : Pool) (xs : List Ptr) (p : Ptr)
      → Listed a xs
      → count ≤ length xs
      → elem p xs ≡ false
      → Handed desc_owner lkey a p
      → Handed desc_owner lkey (pop_heads count desc_owner lkey deque a).1 p
  unfolding pop_heads
  pop_heads-Handed zero deque a xs p h l n e = e
  pop_heads-Handed (suc count) deque a [] p h l n e = absurd (omega arith)
  pop_heads-Handed (suc count) deque a (x ∷ xs) p h l n e =
      let q : (p == a.p_head) ≡ false = let c = h.chain.0 in ground arith in
      pop_heads-Handed count (deque ++ (a.p_head ∷ [])) (pop_head desc_owner lkey a) xs p
        (pop_head-Listed a x xs h) (omega arith) (ground arith) (rw q e)

  pop_heads-All :
      (count : ℕ) (deque : List Ptr) (a : Pool) (xs : List Ptr)
      → Listed a xs
      → count ≤ length xs
      → All (Handed desc_owner lkey (pop_heads count desc_owner lkey deque a).1) (take count xs)
  unfolding pop_heads
  pop_heads-All zero deque a xs h l = tt
  pop_heads-All (suc count) deque a [] h l = absurd (omega arith)
  pop_heads-All (suc count) deque a (x ∷ xs) h l = (
    pop_heads-Handed count (deque ++ (a.p_head ∷ [])) (pop_head desc_owner lkey a) xs x
        (pop_head-Listed a x xs h) (omega arith) h.distinct.0
        (let c = h.chain.0 in (ground arith, ground arith, ground arith)),
    pop_heads-All count (deque ++ (a.p_head ∷ [])) (pop_head desc_owner lkey a) xs
        (pop_head-Listed a x xs h) (omega arith),
  )

  pop_heads-counters :
      (count : ℕ) (deque : List Ptr) (a : Pool)
      → ((pop_heads count desc_owner lkey deque a).1.n_buffers ≡ a.n_buffers)
        × ((pop_heads count desc_owner lkey deque a).1.n_buffer_pool_size ≡ a.n_buffer_pool_size)
        × ((pop_heads count desc_owner lkey deque a).1.n_buffers_created ≡ a.n_buffers_created)
  unfolding pop_heads
  pop_heads-counters zero deque a = (refl, refl, refl)
  pop_heads-counters (suc count) deque a =
      pop_heads-counters count (deque ++ (a.p_head ∷ [])) (pop_head desc_owner lkey a)

-- The caller's queue gets the buffers at the front of the pool's list, in their order, each on its
-- own with the owner and the key that were asked for; the pool keeps the rest.
pub record Taken (deque : List Ptr) (desc_owner : Ptr) (count lkey : ℕ) (xs : List Ptr)
    (out : Bool × List Ptr × Pool) : Type 0 where
  pub success : out.0 ≡ true
  pub deque_lem : out.1 ≡ deque ++ take count xs
  pub handed : All (Handed desc_owner lkey out.2) (take count xs)
  pub rest : HasFree out.2 (drop count xs)

-- With enough buffers in the pool, a request is served in full.
pub get_buffers-Taken :
    (deque : List Ptr) (desc_owner : Ptr) (count lkey : ℕ) (a : Pool) (xs : List Ptr)
    → HasFree a xs
    → count ≤ length xs
    → Taken deque desc_owner count lkey xs (get_buffers deque desc_owner count lkey a)
unfolding get_buffers
get_buffers-Taken deque desc_owner count lkey a xs h l =
    let few : ltb a.n_buffers count ≡ false = ground (arith, h.counted) in
    let b = record a {
      n_buffers = a.n_buffers - count;
      n_buffer_pool_size = (a.n_buffer_pool_size + 2 ^ 32 - count % 2 ^ 32) % 2 ^ 32;
    } in
    let m : Listed b xs = record { chain = h.chain; distinct = h.distinct } in
    let r = pop_heads-Listed desc_owner lkey count deque b xs m l in
    let k = pop_heads-counters desc_owner lkey count deque b in
    let n = length-drop count xs in
    rw few (record {
      success = refl;
      deque_lem = pop_heads-deque desc_owner lkey count deque b xs m l;
      handed = pop_heads-All desc_owner lkey count deque b xs m l;
      rest = record {
        chain = r.chain;
        distinct = r.distinct;
        counted = omega (arith, k.0, n, h.counted);
        size_ok = omega (arith, k.1, n, h.size_ok);
        created = omega (arith, k.2, n, h.created);
        created_fits = omega (arith, k.2, h.created_fits);
      };
    })

-- A request for more than there is gets nothing and is counted; queue and free buffers stay.
pub get_buffers-short :
    (deque : List Ptr) (desc_owner : Ptr) (count lkey : ℕ) (a : Pool) (xs : List Ptr)
    → HasFree a xs
    → length xs < count
    → let out = get_buffers deque desc_owner count lkey a in
      (out.0 ≡ false)
      × (out.1 ≡ deque)
      × HasFree out.2 xs
      × (out.2.n_buffer_pool_no_bufs ≡ (a.n_buffer_pool_no_bufs + 1) % 2 ^ 32)
unfolding get_buffers
get_buffers-short deque desc_owner count lkey a xs h l =
    let few : ltb a.n_buffers count ≡ true = ground (arith, h.counted) in
    rw few (
      refl,
      refl,
      record {
        chain = h.chain;
        distinct = h.distinct;
        counted = h.counted;
        size_ok = h.size_ok;
        created = h.created;
        created_fits = h.created_fits;
      },
      refl,
    )
