-- ===== src/Trials.antt =====
-- The programs of src/test: `session`, `client` and `task` of test1.hpp, `test_strand` of test.hpp, and
-- the trials of libgo in test2.hpp.
pub mod Session
pub mod Server
pub mod Client
pub mod Task
pub mod Product
pub mod Channel
pub mod Strand
mod Tests
