-- ===== src/Tests.antt =====
-- The theorems at concrete inputs, and runs of the definitions.
mod Firewall
mod Routing
mod Queries
mod Logs
mod Router
mod Updates
mod Tracking
mod Manager
