-- ===== src/Match.antt =====
-- src/vma/util/libvma.h and match.cpp: which transport a socket gets, by the rules of the
-- configuration file. `Address` has the addresses of the socket calls, `Rules` the test of one
-- connection against the rules, `Program` the test of a whole program.
pub mod Address
pub mod Rules
pub mod Program
pub mod Agree
pub mod Prefix
pub mod Instances
mod Tests
