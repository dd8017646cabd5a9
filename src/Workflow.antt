-- ===== src/Workflow.antt =====
-- src/wapp_planner/workflow: the life of a request.
pub mod Enums
pub mod StateMachine
pub mod Runs
pub mod Reaches
mod Tests
