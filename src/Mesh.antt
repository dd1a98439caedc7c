-- ===== src/Mesh.antt =====
-- What the ConfiguredService and the ServiceConfig controllers share: the subsets that a service
-- really has, and the routes with their weights.
pub mod Subsets
pub mod Weights
pub mod Routes
pub mod Rules
pub mod Objects
pub mod Phases
