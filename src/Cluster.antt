-- ===== src/Cluster.antt =====
-- cluster/: deployments, their reservations and their monitors.
pub mod Manager
pub mod Monitor
pub mod Resources
pub mod Inventory
pub mod Reservations
pub mod Service
pub mod Reconcile
