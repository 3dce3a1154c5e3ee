-- ===== src/Tests.antt =====
-- The theorems of the development applied at concrete inputs.
mod Sse
mod Chat
mod Report
mod Cron
mod Stores
mod Text
mod Html
mod Session
mod Charts
mod Field
mod Requests
mod Widgets
