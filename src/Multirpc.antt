-- ===== src/Multirpc.antt =====
-- project3/examples/xmlrpc_client.c: one remote call made to many servers at once, answered when a
-- majority, any or all of them have answered.
pub mod Client
pub mod Arguments
pub mod Quorum
pub mod Messages
pub mod Threads
pub mod Safety
pub mod Races
pub mod Custom
pub mod Main
pub mod Moves
pub mod Printed
pub mod Says
pub mod Ordering
pub mod Server
pub mod Sum
pub mod Sample
pub mod Asked
mod Tests
mod MainTests
