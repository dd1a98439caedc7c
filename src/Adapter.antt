-- ===== src/Adapter.antt =====
-- pkg/adapter: the program that follows a registry and a configuration center and writes what it finds
-- into Kubernetes clusters as custom resources.
pub mod Types
pub mod Convert
pub mod Handler
pub mod Paths
pub mod Zookeeper
pub mod Registry
pub mod Accelerate
pub mod Dispatch
pub mod Debounce
pub mod ConfigCenter
