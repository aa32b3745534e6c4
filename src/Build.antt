-- ===== src/Build.antt =====
-- The build plane (internal/build): the job store, the coordinator's server and webhook, and the
-- dispatcher.
pub mod Types
pub mod Time
pub mod Tables
pub mod Store
pub mod Dispatch
pub mod World
pub mod Server
pub mod Webhook
mod Tests
