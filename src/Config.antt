-- ===== src/Config.antt =====
-- src/wapp_planner/config: what a deployment is configured with.
pub mod Settings
