-- ===== src/Ring.antt =====
-- project2: a ring buffer in shared memory, through which client threads ask a server process for
-- 2^x % p. The children model and prove; this file names them.
pub mod Buffer
pub mod Window
pub mod Requests
pub mod Responses
pub mod Slots
pub mod Service
pub mod Threads
pub mod Balance
pub mod Outstanding
pub mod Deadlock
pub mod Jammed
pub mod Main
pub mod Rounds
pub mod Joining
pub mod Joined
pub mod Rounding
pub mod Completed
mod Tests
mod MainTests
