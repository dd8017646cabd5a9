-- ===== src/Persistence.antt =====
-- src/wapp_planner/persistence
pub mod Repository
