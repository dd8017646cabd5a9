-- ===== src/Hitl.antt =====
-- src/wapp_planner/hitl: the two gates at which the owner decides.
pub mod Tokens
pub mod Dispatcher
pub mod Messages
pub mod Service
pub mod Samples
mod Tests
