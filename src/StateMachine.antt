-- ===== src/StateMachine.antt =====
-- src/state_machine: the generic state machine that neighbour entries run on.
pub mod Fifo
pub mod Table
pub mod Process
mod Tests
