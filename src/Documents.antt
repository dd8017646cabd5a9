-- ===== src/Documents.antt =====
-- src/wapp_planner/documents: the content of a document, its generation, layout and rendering.
pub mod Content
pub mod Generator
pub mod Layout
pub mod Renderer
mod Tests
