-- ===== src/IpFrag/Manager/Life.antt =====
-- The life of a manager of src/vma/proto/ip_frag.cpp: the constructor, fragments and timers in any
-- order, and the destructor.
use libvma.Prelude.{ℕ, ◌≡◌}
use libvma.Prelude.Store.{Ptr}
use libvma.IpFrag.Key.{Key}
use libvma.IpFrag.Holes.{Header}
use libvma.IpFrag.Manager.{
  ip_frag_max_desc, ip_frag_max_holes, Manager, ip_frag_manager, add_frag, handle_timer_expired,
  free_frag_resources,
}
use libvma.IpFrag.Manager.Balance.{Balanced, add_frag-Balanced}
use libvma.IpFrag.Manager.Cleanup.{
  ip_frag_manager-Balanced, handle_timer_expired-Balanced, free_frag_resources-pools,
}

-- What a manager can become. The fields of the buffers are what they are when the manager is made.
pub data Life (next owner : Ptr → Ptr) (sz_data : Ptr → ℕ) : Manager → Type 0 where
  made : Life next owner sz_data (ip_frag_manager next owner sz_data)
  fragment :
      (fuel : ℕ) (key : Key) (hdr : Header) (buf : Ptr) (m : Manager)
      → Life next owner sz_data m
      → Life next owner sz_data (add_frag fuel key hdr buf m).manager
  timer :
      (fuel : ℕ) (m : Manager)
      → Life next owner sz_data m
      → Life next owner sz_data (handle_timer_expired fuel m).0

Life-Balanced :
    (next owner : Ptr → Ptr) (sz_data : Ptr → ℕ) (m : Manager)
    → Life next owner sz_data m
    → Balanced ip_frag_max_holes ip_frag_max_desc m
Life-Balanced next owner sz_data _ made = ip_frag_manager-Balanced next owner sz_data
Life-Balanced next owner sz_data _ (fragment fuel key hdr buf m l) =
    add_frag-Balanced ip_frag_max_holes ip_frag_max_desc fuel key hdr buf m
      (Life-Balanced next owner sz_data m l)
Life-Balanced next owner sz_data _ (timer fuel m l) =
    handle_timer_expired-Balanced ip_frag_max_holes ip_frag_max_desc fuel m
      (Life-Balanced next owner sz_data m l)

-- After whatever fragments and timers, on whatever paths, no descriptor is lost or made up: those in
-- the pools and those of the datagrams in the map add up to what the constructor made, and the
-- destructor finds all of them again.
pub Life-pools :
    (next owner : Ptr → Ptr) (sz_data : Ptr → ℕ) (fuel : ℕ) (m : Manager)
    → Life next owner sz_data m
    → Balanced ip_frag_max_holes ip_frag_max_desc m
      × ((free_frag_resources fuel m).0.holes_free ≡ ip_frag_max_holes)
      × ((free_frag_resources fuel m).0.descs_free ≡ ip_frag_max_desc)
Life-pools next owner sz_data fuel m l =
    let b = Life-Balanced next owner sz_data m l in
    let p = free_frag_resources-pools ip_frag_max_holes ip_frag_max_desc fuel m b in (b, p.0, p.1)
