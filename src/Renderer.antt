-- ===== src/Renderer.antt =====
-- ui/web/src/components/chat/ReportRenderer.tsx: how the report components read their props.
mod Readers
mod Colors
mod Charts
mod Shapes
mod Safe
pub mod Drawn
pub mod Inferred
unfoldable pub use Readers.*
unfoldable pub use Colors.*
unfoldable pub use Charts.*
unfoldable pub use Shapes.*
unfoldable pub use Safe.*
