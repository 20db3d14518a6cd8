-- ===== src/Manifests.antt =====
-- Applying and deleting manifests through the Kubernetes API: pkg/nativeclient.
pub mod Objects
pub mod Phases
pub mod Client
pub mod Kinds
pub mod Asked
pub mod Inventory
pub mod Applier
pub mod Delete
pub mod Deletions
pub mod Pruned
pub mod Server
pub mod Sent
pub mod KindSets
pub mod Kept
pub mod Recorded
