-- ===== src/Domain.antt =====
-- src/wapp_planner/domain: the entities, which carry no input or output.
pub mod Enums
pub mod Models
pub mod Validation
