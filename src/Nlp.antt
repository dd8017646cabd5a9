-- ===== src/Nlp.antt =====
-- src/wapp_planner/nlp: prompts and the classification of a transcript.
pub mod Prompts
pub mod Classifier
mod Tests
