-- ===== src/IpFrag/Manager.antt =====
-- src/vma/proto/ip_frag.cpp: the manager of all datagrams under reassembly.
-- The descriptors come from two preallocated arrays; a free list of descriptors, which are all alike,
-- is its length. The map is an association list by the equality of its keys. The lock is held over
-- each call, and what `return_buffers_to_owners` hands to the buffer pool is a result.
pub mod Balance
pub mod Cleanup
pub mod Returned
pub mod InOrder
pub mod Life
pub mod Reassembly
use libvma.Prelude.{
  ℕ, zero, suc, ◌+◌, ◌-◌, ◌*◌, ◌%◌, ◌^◌, Bool, true, false, not, ◌||◌, Option, none, some, List, [],
  ◌∷◌, leb, ltb, ◌==◌, if◌then◌else◌, length,
}
use libvma.Prelude.Int.{ℤ, pos, negsuc}
use libvma.Prelude.Chain.{tail_of}
use libvma.Prelude.Store.{Ptr, null, update}
use libvma.IpFrag.Key.{Key, key_eq}
use libvma.IpFrag.Holes.{
  ip_frag_inf, ip_frag_ninf, Hole, Header, more_frags, frag_first, frag_last, Frag, Found,
  find_hole, Filled, fill_hole,
}

abbrev pub ip_frag_max_desc : ℕ
ip_frag_max_desc = 1024

abbrev pub ip_frag_max_holes : ℕ
ip_frag_max_holes = 16000

abbrev pub ip_frag_ttl : ℕ
ip_frag_ttl = 2

abbrev pub ip_frag_space : ℕ
ip_frag_space = 60000

-- The value of `sz_data` that marks a buffer as freed, `(size_t)-1`.
abbrev pub ip_frag_freed : ℕ
ip_frag_freed = 2 ^ 64 - 1

-- `ip_frag_desc_t`. `frag_counter` is never negative while the descriptor is in the map.
pub record Desc : Type 0 where
  pub ttl : ℕ
  pub hole_list : List Hole
  pub frag_list : Ptr
  pub frag_counter : ℕ

abbrev pub Frags : Type 0
Frags = List (Key × Desc)

-- What the manager reads and writes of the buffers, and its members. `returns` is `m_return_descs`.
pub record Manager : Type 0 where
  pub frag_counter : ℕ
  pub frags : Frags
  pub holes_free : ℕ
  pub descs_free : ℕ
  pub returns : Ptr → Ptr
  pub next : Ptr → Ptr
  pub owner : Ptr → Ptr
  pub sz_data : Ptr → ℕ

abbrev pub find : Key → Frags → Option Desc
find k [] = none
find k ((j, d) ∷ s) = if key_eq k j then some d else find k s

abbrev pub erase : Key → Frags → Frags
erase k [] = []
erase k ((j, d) ∷ s) = if key_eq k j then s else (j, d) ∷ erase k s

-- A write through the pointer that the map holds.
abbrev pub put : Key → Desc → Frags → Frags
put k d [] = []
put k d ((j, e) ∷ s) = if key_eq k j then (j, d) ∷ s else (j, e) ∷ put k d s

abbrev pub free_hole_desc : Manager → Manager
free_hole_desc m = record m { holes_free = m.holes_free + 1 }

abbrev pub alloc_hole_desc : Manager → Option Manager
alloc_hole_desc m =
    if m.holes_free == 0 then none else some (record m { holes_free = m.holes_free - 1 })

abbrev pub free_frag_desc : Manager → Manager
free_frag_desc m = record m { descs_free = m.descs_free + 1 }

abbrev pub alloc_frag_desc : Manager → Option Manager
alloc_frag_desc m =
    if m.descs_free == 0 then none else some (record m { descs_free = m.descs_free - 1 })

-- The constructor's two loops.
abbrev pub free_all : ℕ → (Manager → Manager) → Manager → Manager
free_all zero release m = m
free_all (suc n) release m = free_all n release (release m)

unfoldable pub ip_frag_manager : (Ptr → Ptr) → (Ptr → Ptr) → (Ptr → ℕ) → Manager
ip_frag_manager next owner sz_data = free_all ip_frag_max_holes free_hole_desc (
    free_all ip_frag_max_desc free_frag_desc (record {
      frag_counter = 0;
      frags = [];
      holes_free = 0;
      descs_free = 0;
      returns = λ p. null;
      next = next;
      owner = owner;
      sz_data = sz_data;
    }))

-- The chain goes to the front of what is to be returned to its owner.
unfoldable pub free_frag : ℕ → Ptr → Manager → Manager
free_frag fuel frag m =
    if frag == null
    then m
    else let o = m.owner frag in
      record m {
        sz_data = update m.sz_data frag ip_frag_freed;
        next = update m.next (tail_of fuel m.next frag) (m.returns o);
        returns = update m.returns o frag;
      }

unfoldable pub destroy_frag_desc : ℕ → Desc → Manager → Manager
destroy_frag_desc fuel d m =
    free_frag fuel d.frag_list (free_all (length d.hole_list) free_hole_desc m)

abbrev pub new_desc : ℕ → Desc
new_desc counter = record {
  ttl = ip_frag_ttl;
  hole_list =
      record { first = ip_frag_ninf; last = ip_frag_inf; data_first = null; data_last = null } ∷ [];
  frag_list = null;
  frag_counter = counter;
}

abbrev pub new_with_hole : Key → Manager → Option Manager → Option Desc × Manager
new_with_hole key m none = (none, free_hole_desc m)
new_with_hole key m (some m') =
    let d = new_desc m'.frag_counter in (some d, record m' { frags = (key, d) ∷ m'.frags })

abbrev pub new_after_hole : Key → Manager → Option Manager → Option Desc × Manager
new_after_hole key m none = (none, m)
new_after_hole key m (some m') = new_with_hole key m' (alloc_frag_desc m')

-- A descriptor for the first fragment of a datagram, in the map; NULL if there is none left.
unfoldable pub new_frag_desc : Key → Manager → Option Desc × Manager
new_frag_desc key m = new_after_hole key m (alloc_hole_desc m)

-- `(m_frag_counter - desc->frag_counter) > IP_FRAG_SPACE`, in unsigned 64-bit arithmetic.
abbrev pub is_expired : ℕ → Desc → Bool
is_expired counter d = ltb ip_frag_space ((counter + 2 ^ 64 - d.frag_counter) % 2 ^ 64)

abbrev pub drop_desc : ℕ → Key → Desc → Manager → Manager
drop_desc fuel key d m =
    let m' = free_frag_desc (destroy_frag_desc fuel d m) in record m' { frags = erase key m'.frags }

abbrev pub desc_for : ℕ → Key → Option Desc → Manager → Option Desc × Manager
desc_for fuel key none m = new_frag_desc key m
desc_for fuel key (some d) m =
    if is_expired m.frag_counter d then new_frag_desc key (drop_desc fuel key d m) else (some d, m)

-- The result of `add_frag`: what it returns, what it writes to `*ret` if it does, and the manager.
pub record Added : Type 0 where
  pub code : ℤ
  pub ret : Option Ptr
  pub manager : Manager

-- The link of the fragment into the chain, between the neighbours of the hole that it fills.
abbrev pub link_frag : Ptr → Hole → Desc → Manager → Desc × Manager
link_frag frag h d m =
    let before = if h.data_first == null then m.next else update m.next h.data_first frag in
    let d' = if h.data_first == null then record d { frag_list = frag } else d in
    (d', record m { next = update before frag h.data_last })

-- Step 8 if no hole is left.
abbrev pub finish_with : List Hole → Key → Desc → Manager → Added
finish_with [] key d m = record {
  code = pos 0;
  ret = some d.frag_list;
  manager = free_frag_desc (record m { frags = erase key m.frags });
}
finish_with (h ∷ hs) key d m = record {
  code = pos 0;
  ret = some null;
  manager = record m { frags = put key d m.frags };
}

abbrev pub finish : Key → Desc → Manager → Added
finish key d m = finish_with d.hole_list key d m

abbrev pub insert_found : Key → Frag → Desc → Manager → Option Found → Added
insert_found key f d m none = record { code = negsuc 0; ret = none; manager = m }
insert_found key f d m (some r) =
    let filled = fill_hole f r m.holes_free in
    let d' = record d { hole_list = filled.holes } in
    let m' = record m { holes_free = filled.free } in
    if filled.enough
    then (let (d'', m'') = link_frag f.buf r.hole d' m' in finish key d'' m'')
    else record { code = negsuc 0; ret = none; manager = record m' { frags = put key d' m'.frags } }

abbrev pub insert_frag : Key → Frag → Option Desc × Manager → Added
insert_frag key f (none, m) = record { code = negsuc 0; ret = none; manager = m }
insert_frag key f (some d, m) = insert_found key f d m (find_hole f d.hole_list)

abbrev pub frag_of : Header → Ptr → Frag
frag_of hdr buf = record {
  buf = buf;
  first = frag_first hdr;
  last = frag_last hdr;
  more = more_frags hdr;
}

-- The fuel is for the walks along chains of buffers.
unfoldable pub add_frag : ℕ → Key → Header → Ptr → Manager → Added
add_frag fuel key hdr frag m =
    let m' = record m { frag_counter = (m.frag_counter + 1) % 2 ^ 64 } in
    insert_frag key (frag_of hdr frag) (desc_for fuel key (find key m'.frags) m')

-- The loop of `handle_timer_expired` over the map.
unfoldable pub expire : ℕ → ℕ → Frags → Manager → Frags × Manager
expire fuel delta [] m = ([], m)
expire fuel delta ((k, d) ∷ s) m =
    let dies = ltb d.frag_counter delta || d.ttl == 0 in
    let (s', m') =
      expire fuel delta s (if dies then free_frag_desc (destroy_frag_desc fuel d m) else m) in
    if dies
    then (s', m')
    else ((k, record d { frag_counter = d.frag_counter - delta; ttl = d.ttl - 1 }) ∷ s', m')

-- The timer's handler, with the chains that go back to their owners.
unfoldable pub handle_timer_expired : ℕ → Manager → Manager × (Ptr → Ptr)
handle_timer_expired fuel m =
    let delta = m.frag_counter - ip_frag_space in
    let (s, m') = expire fuel delta m.frags (record m { frag_counter = m.frag_counter - delta }) in
    (record m' { frags = s; returns = λ p. null }, m'.returns)

unfoldable pub release_all : ℕ → Frags → Manager → Manager
release_all fuel [] m = record m { frags = [] }
release_all fuel ((k, d) ∷ s) m = release_all fuel s (free_frag_desc (destroy_frag_desc fuel d m))

-- What the destructor does but for the `delete` of the arrays.
unfoldable pub free_frag_resources : ℕ → Manager → Manager × (Ptr → Ptr)
free_frag_resources fuel m =
    let m' = release_all fuel m.frags m in (record m' { returns = λ p. null }, m'.returns)
