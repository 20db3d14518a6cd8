-- ===== src/Keys.antt =====
-- The keys of encryption at rest: pkg/templates/encryptionproviders/encryption_providers.go.
pub mod Providers
pub mod Rotation
pub mod Files
pub mod Retried
