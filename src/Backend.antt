-- ===== src/Backend.antt =====
-- backend: the FastAPI service between the dashboard and the cache server.
pub mod Client
pub mod Exchange
pub mod Lines
pub mod Listing
pub mod Service
pub mod Routes
pub mod Deployed
pub mod Metrics
pub mod Bench
pub mod Assistant
