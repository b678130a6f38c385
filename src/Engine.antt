-- ===== src/Engine.antt =====
-- engine/queue.c, session.c, handler.c, manager.c: a queue that runs, with its two managers and
-- their sessions.
pub mod World
pub mod Commands
pub mod Handlers
pub mod Process
pub mod Control
pub mod Managers
pub mod Requests
pub mod Waiting
pub mod Resuming
pub mod Outcomes
pub mod Lost
pub mod Budget
pub mod Secrets
pub mod Stopping
pub mod Passive
pub mod Depth
pub mod Counting
