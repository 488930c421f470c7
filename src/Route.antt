-- ===== src/Route.antt =====
-- Routing tables and rules (src/vma/proto/route_table_mgr.cpp, rule_table_mgr.cpp, route_val.cpp,
-- rule_val.cpp, netlink_socket_mgr.h).
pub mod Val
pub mod Rules
pub mod Lookup
pub mod Longest
pub mod Resolve
pub mod Source
pub mod Visits
pub mod Settled
pub mod Sources
pub mod Update
pub mod Parse
pub mod Attributes
pub mod Roundtrip
pub mod Event
pub mod Entry
pub mod Answer
pub mod Tests
