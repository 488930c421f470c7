-- ===== src/IpFrag.antt =====
-- src/vma/proto/ip_frag: the reassembly of IP fragments.
pub mod Key
pub mod Holes
pub mod Manager
mod Tests
