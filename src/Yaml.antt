-- ===== src/Yaml.antt =====
-- Editing YAML documents: pkg/yamled.
pub mod Nodes
pub mod Document
pub mod Edits
pub mod RoundTrip
pub mod Refused
