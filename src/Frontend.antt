-- ===== src/Frontend.antt =====
-- The dashboard (frontend/): the browser's services and its documents, then the pages.
pub mod Js
pub mod Html
pub mod Api
pub mod Runtime
pub mod Commands
pub mod Chat
pub mod Keys
pub mod Poll
pub mod Bench
pub mod Shell
pub mod Settings
pub mod Theme
pub mod MetricCard
