-- ===== src/Sse.antt =====
-- ui/web/src/lib/sse.ts: both stream readers.
pub mod Lines
pub mod Events
pub mod Completion
pub mod Chunks
