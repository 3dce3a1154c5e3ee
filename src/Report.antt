-- ===== src/Report.antt =====
-- ui/web/src/lib/report-spec.ts
pub mod Tables
pub mod Names
pub mod Charts
pub mod Props
pub mod Spec
pub mod Fences
pub mod Messages
