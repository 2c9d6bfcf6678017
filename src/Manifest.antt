-- ===== src/Manifest.antt =====
-- The manifest service: what it accepts from tenants and how it pairs manifests with leases.
pub mod Checks
pub mod Limits
pub mod Manager
pub mod Service
pub mod Watchdog
pub mod Fetch
