-- ===== src/Tests.antt =====
-- The theorems at concrete inputs: small queues, two sites and a running world.
pub mod Data
mod Queues
mod Running
mod Control
mod Http
pub mod Protocol
