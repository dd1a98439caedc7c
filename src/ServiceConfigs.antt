-- ===== src/ServiceConfigs.antt =====
-- controllers/serviceconfig: the ServiceConfig controller.
pub mod Build
pub mod Names
pub mod Status
pub mod Reconcile
pub mod Panics
