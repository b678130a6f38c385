-- ===== src/Protocol.antt =====
-- The requests of the protocol: engine/command2.c.
pub mod State
pub mod Sites
pub mod Sessions
pub mod Adding
pub mod Queues
pub mod Running
pub mod Table
pub mod Placing
pub mod Ownership
pub mod Counted
pub mod Reaching
pub mod Staying
pub mod Tokens
pub mod Written
pub mod Keeping
pub mod Making
pub mod Working
pub mod Dispatch
pub mod Runs
pub mod Asking
pub mod Bystanders
pub mod Loop
