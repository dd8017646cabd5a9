-- ===== src/Ingestion.antt =====
-- src/wapp_planner/ingestion: the checks at the door, the parser of webhooks, and the service.
pub mod Signature
pub mod Idempotency
pub mod Registry
pub mod Downloader
pub mod Parser
pub mod Service
mod Tests
