-- ===== src/Timer.antt =====
-- src/vma/event: the timer list of the event handler thread.
pub mod Clock
pub mod Nodes
pub mod Update
mod Tests
