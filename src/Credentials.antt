-- ===== src/Credentials.antt =====
-- Finding the credentials of cloud providers: pkg/credentials/credentials.go.
pub mod Finder
pub mod Checks
pub mod Providers
pub mod Extra
pub mod Sources
pub mod Accepted
