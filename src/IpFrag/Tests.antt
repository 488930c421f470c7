-- ===== src/IpFrag/Tests.antt =====
-- A datagram of two fragments: eight bytes at 0, with more to come, and four bytes at 8.
use libvma.Prelude.{
  ◌==◌, true, false, ◌&&◌, not, if◌then◌else◌, ℕ, ◌≡◌, refl, ◌⊎◌, none, some, List, [], ◌∷◌, arith,
}
use libvma.Prelude.Int.{pos, negsuc}
use libvma.Prelude.Store.{null}
use libvma.IpFrag.Key.{Key, key_lt, key_eq}
use libvma.IpFrag.Holes.{
  Hole, Header, more_frags, frag_first, frag_last, Found, find_hole, fill_behind, fill_hole,
}
use libvma.IpFrag.Holes.Cover.{SortedFrom, missing, within}
use libvma.IpFrag.Manager.{
  Desc, Manager, find, free_frag, destroy_frag_desc, new_frag_desc, Added, frag_of, add_frag,
  expire, handle_timer_expired, free_frag_resources, ip_frag_manager,
}
use libvma.IpFrag.Manager.Life.{made, fragment, timer, Life-pools}
use libvma.IpFrag.Manager.Balance.{Balanced}
use libvma.IpFrag.Manager.InOrder.{InOrder, add_frag-InOrder}
use libvma.IpFrag.Manager.Reassembly.{
  Waiting, Complete, chain_head, add_frag-missing, add_frag-exhausted, add_frag-duplicate,
}

abbrev key : Key
key = record { ip_id = 7; src_ip = 1; dst_ip = 2; ipproto = 17 }

abbrev head : Header
head = record { frag_off = 0x2000; tot_len = 28; ihl = 5 }

abbrev tail : Header
tail = record { frag_off = 1; tot_len = 24; ihl = 5 }

abbrev manager : List (Key × Desc) → ℕ → ℕ → Manager
manager frags holes descs = record {
  frag_counter = 0;
  frags = frags;
  holes_free = holes;
  descs_free = descs;
  returns = λ p. null;
  next = λ p. null;
  owner = λ p. 1;
  sz_data = λ p. 8;
}

abbrev behind_head : Hole
behind_head = record { first = 8; last = 0xFFFF; data_first = 100; data_last = null }

abbrev half : Desc
half = record { ttl = 2; hole_list = behind_head ∷ []; frag_list = 100; frag_counter = 1 }

-- The manager while the second fragment is awaited.
abbrev waiting : Manager
waiting = manager ((key, half) ∷ []) 2 0

abbrev tail_found : Found
tail_found = record { before = []; hole = behind_head; behind = [] }

abbrev once : Added
once = add_frag 9 key head 100 (manager [] 3 1)

abbrev twice : Added
twice = add_frag 9 key tail 101 once.manager

first_waits :
    (once.ret ≡ some null)
    × (once.manager.holes_free ≡ 2)
    × (find key once.manager.frags ≡ some half)
unfolding add_frag new_frag_desc find_hole fill_hole fill_behind frag_first frag_last more_frags
    key_eq key_lt
first_waits = (refl, refl, refl)

second_completes :
    (twice.code ≡ pos 0)
    × (twice.ret ≡ some 100)
    × (twice.manager.next 100 ≡ 101)
    × (twice.manager.holes_free ≡ 3)
    × (twice.manager.frags ≡ [])
unfolding add_frag new_frag_desc find_hole fill_hole fill_behind frag_first frag_last more_frags
    key_eq key_lt
second_completes = (refl, refl, refl, refl, refl)

behind_head-SortedFrom : SortedFrom 0 (behind_head ∷ [])
unfolding SortedFrom
behind_head-SortedFrom = (omega arith, omega arith, tt)

add_frag-missing_example :
    ((add_frag 9 key tail 101 waiting).code ≡ pos 0)
    × (Waiting key (frag_of tail 101) tail_found half (add_frag 9 key tail 101 waiting)
        ⊎ Complete
            (frag_of tail 101)
            tail_found
            half
            (chain_head (frag_of tail 101) tail_found half)
            (add_frag 9 key tail 101 waiting))
unfolding key_eq key_lt find_hole frag_first frag_last more_frags
add_frag-missing_example =
    add_frag-missing 9 key tail 101 waiting half tail_found refl refl behind_head-SortedFrom
      (omega arith) refl (omega arith)

add_frag-duplicate_example :
    add_frag 9 key head 102 waiting
    ≡ record { code = negsuc 0; ret = none; manager = record waiting { frag_counter = 1 } }
unfolding key_eq key_lt find_hole frag_first frag_last more_frags
add_frag-duplicate_example =
    add_frag-duplicate 9 key head 102 waiting half refl refl (omega arith) refl

add_frag-InOrder_example : InOrder (add_frag 9 key tail 101 waiting).manager
unfolding frag_first frag_last
add_frag-InOrder_example =
    add_frag-InOrder 9 key tail 101 waiting (omega arith) (behind_head-SortedFrom, tt)

Life-pools_example :
    let made = ip_frag_manager (λ p. null) (λ p. 1) (λ p. 8) in
    let m = (handle_timer_expired 9 (add_frag 9 key tail 101 made).manager).0 in
    Balanced 16000 1024 m
    × ((free_frag_resources 9 m).0.holes_free ≡ 16000)
    × ((free_frag_resources 9 m).0.descs_free ≡ 1024)
Life-pools_example =
    let m = ip_frag_manager (λ p. null) (λ p. 1) (λ p. 8) in
    Life-pools (λ p. null) (λ p. 1) (λ p. 8) 9
      (handle_timer_expired 9 (add_frag 9 key tail 101 m).manager).0
      (timer 9 (add_frag 9 key tail 101 m).manager (fragment 9 key tail 101 m made))

abbrev next_key : Key
next_key = record key { src_ip = 3 }

abbrev last_key : Key
last_key = record key { ip_id = 9; src_ip = 0 }

abbrev stale : Manager
stale = manager ((key, record half { ttl = 0 }) ∷ []) 2 0

-- The timer drops a datagram whose time is over, and hands its buffers to their owner.
timer_drops :
    ((handle_timer_expired 9 stale).0.frags ≡ []) × ((handle_timer_expired 9 stale).1 1 ≡ 100)
unfolding handle_timer_expired expire destroy_frag_desc free_frag
timer_drops = (refl, refl)

-- Four bytes at 16 of the same datagram.
abbrev late : Header
late = record { frag_off = 0x2002; tot_len = 24; ihl = 5 }

-- The byte 10 gets lost.
add_frag-exhausted_example :
    let out = add_frag 9 key late 102 (manager ((key, half) ∷ []) 0 0) in
    (out.code ≡ negsuc 0)
    × (missing 10 half.hole_list ≡ true)
    × (d' : Desc) × (find key out.manager.frags ≡ some d')
    × (missing 10 d'.hole_list ≡ false)
    × ((x : ℕ) → missing x d'.hole_list ≡ (missing x half.hole_list && not (within 8 0xFFFF x)))
unfolding key_eq key_lt find_hole frag_first frag_last more_frags
add_frag-exhausted_example =
    add_frag-exhausted 9 key late 102 (manager ((key, half) ∷ []) 0 0) half tail_found 10 refl refl
      behind_head-SortedFrom (omega arith) refl (omega arith) (omega arith) refl

-- Two buffers, 100 and 101, and one that waits for their owner already.
abbrev holding : Manager
holding = record waiting {
  next = λ p. if p == 100 then 101 else 0;
  returns = λ o. if o == 1 then 55 else 0;
}
