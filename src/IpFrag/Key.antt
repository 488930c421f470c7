-- ===== src/IpFrag/Key.antt =====
-- src/vma/proto/ip_frag.h: the key of a datagram under reassembly, and the order that the map of
-- descriptors keeps its keys in.
pub mod Order
use libvma.Prelude.{ℕ, Bool, true, false, not, ◌&&◌, ltb, if◌then◌else◌}

-- `ip_frag_key_t`
pub record Key : Type 0 where
  pub ip_id : ℕ
  pub src_ip : ℕ
  pub dst_ip : ℕ
  pub ipproto : ℕ

-- `operator<`
unfoldable pub key_lt : Key → Key → Bool
key_lt a b =
    if ltb a.ip_id b.ip_id
    then true
    else if ltb b.ip_id a.ip_id
    then false
    else if ltb a.src_ip b.src_ip
    then true
    else if ltb b.src_ip a.src_ip
    then false
    else if ltb a.dst_ip b.dst_ip
    then true
    else if ltb b.dst_ip a.dst_ip
    then false
    else if ltb a.ipproto b.ipproto
    then true
    else if ltb b.ipproto a.ipproto
    then false
    else false

-- A `std::map` takes two keys for the same if neither is less.
unfoldable pub key_eq : Key → Key → Bool
unfolding key_lt
key_eq a b = not (key_lt a b) && not (key_lt b a)
