-- ===== src/Util.antt =====
-- src/wapp_planner/util
pub mod JsonIo
mod Tests
