-- ===== src/Frontend/Poll.antt =====
-- The pages that poll `/metrics`: app/dashboard/page.tsx, app/metrics/page.tsx and
-- app/clients/page.tsx. Each reply, in the order of arrival, is one step; the time of day comes
-- with it.
pub mod Dashboard
pub mod Cards
pub mod Overview
pub mod Metrics
pub mod Clients
pub mod Windows
pub mod Rows
pub mod Bytes
pub mod Pages
pub mod Settles
