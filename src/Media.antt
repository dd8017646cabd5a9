-- ===== src/Media.antt =====
-- src/wapp_planner/media: from messages with attachments to one transcript.
pub mod Processor
pub mod Adapters
mod Tests
