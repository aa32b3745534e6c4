-- ===== src/Provider.antt =====
-- internal/provider: the Providers that the instance reads its infrastructure through.
pub mod Config
pub mod Contract
pub mod Server
pub mod Client
pub mod Conformance
mod Tests
