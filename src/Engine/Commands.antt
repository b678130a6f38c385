-- ===== src/Engine/Commands.antt =====
-- engine/session.c: the command queue of a session and the commands that the engine gives it. An
-- event goes to the handler through `call`. Running out of memory is not modelled.
mod Queueing
mod Toggles
mod Transfers
mod Paths
pub mod Pending
unfoldable pub use Queueing.*
unfoldable pub use Toggles.*
unfoldable pub use Transfers.*
unfoldable pub use Paths.*
