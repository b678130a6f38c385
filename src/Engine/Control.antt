-- ===== src/Engine/Control.antt =====
-- engine/session.c, data.c: what a session does with what comes from its server.
pub mod Moves
pub mod Login
pub mod Listing
pub mod Relays
pub mod Machine
pub mod Data
pub mod Laws
pub mod Insisting
pub mod Dialogue
