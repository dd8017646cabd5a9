-- ===== src/Orchestrator.antt =====
-- src/wapp_planner/orchestrator/orchestrator.py. The stages that it calls are an interface, which
-- Wiring fills with the models of the services; the repository is the one in memory.
pub mod Stages
pub mod Base
pub mod Defs
pub mod Evolution
pub mod Steps
pub mod Recording
pub mod OwnerActions
pub mod Clicks
pub mod Classified
pub mod Ingest
pub mod Filing
pub mod Arrival
pub mod Wiring
pub mod Success
pub mod Delivery
pub mod Asking
pub mod Failure
pub mod Samples
mod Tests
