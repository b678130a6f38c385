-- ===== src/Engine/Managers.antt =====
-- engine/manager.c: the list of managers, and what users ask of a manager.
pub mod Registry
pub mod Asking
