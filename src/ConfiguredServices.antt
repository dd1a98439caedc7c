-- ===== src/ConfiguredServices.antt =====
-- controllers/configuredservice: the ConfiguredService controller.
pub mod Build
pub mod Sidecars
pub mod Workloads
pub mod Reconcile
