-- ===== src/Queue.antt =====
-- engine/queue.c, engine/queue.h: the transfer queue, its items, and the operations of the protocol
-- on the list of items. The two managers and their sessions are in Engine.
pub mod Types
pub mod Insert
pub mod Requests
pub mod Clone
pub mod Errors
pub mod Skiplist
pub mod Subscribers
pub mod Think
pub mod Accounting
