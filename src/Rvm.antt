-- ===== src/Rvm.antt =====
-- project4: recoverable virtual memory, segments of memory backed by files, with transactions.
pub mod State
pub mod Table
pub mod Mapping
pub mod Transaction
pub mod Truncation
pub mod Ranges
pub mod Loops
pub mod Commit
pub mod Restore
pub mod Mapped
pub mod Recovery
pub mod Unmapping
pub mod Growth
pub mod Emptied
pub mod Ends
pub mod Queue
pub mod Reuse
pub mod Crash
pub mod Session
pub mod Programs
pub mod Begin
pub mod Negative
pub mod Modify
mod Tests
mod ReuseTests
